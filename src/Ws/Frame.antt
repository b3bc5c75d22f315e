-- ===== src/Ws/Frame.antt =====
-- The frames of src/ws.rs: a nonce of 12 bytes, then the sealed type byte and payload.
pub mod Replay
pub mod Wire
use archetype_proxy_server.Prelude.{
  ℕ, ◌+◌, ◌*◌, ◌^◌, bit_xor, Bool, true, false, Option, none, some, List, [], ◌∷◌, ◌++◌, Result, ok,
  err, ok_or, ◌>>=◌, ◌>>◌, length, take, drop, ltb, leb, ◌==◌, if◌then◌else◌,
}
use archetype_proxy_server.Text.{Str, codes}

abbrev pub msg_text : ℕ
msg_text = 0

abbrev pub msg_binary : ℕ
msg_binary = 1

abbrev pub min_frame : ℕ
min_frame = 12 + 1 + 16

abbrev pub max_ws_frame : ℕ
max_ws_frame = 16 * 1024 * 1024

-- `u64::from_be_bytes`
unfoldable pub from_be_bytes : (acc : ℕ) → List ℕ → ℕ
from_be_bytes acc [] = acc
from_be_bytes acc (b ∷ bs) = from_be_bytes (acc * 256 + b) bs

unfoldable pub zip_xor : List ℕ → List ℕ → List ℕ
zip_xor [] vs = []
zip_xor (n ∷ ns) [] = []
zip_xor (n ∷ ns) (v ∷ vs) = bit_xor n v ∷ zip_xor ns vs

-- The counter in a nonce of 12 bytes.
unfoldable pub extract_counter : List ℕ → List ℕ → ℕ
unfolding zip_xor from_be_bytes
extract_counter nonce iv = from_be_bytes 0 (zip_xor (drop 4 nonce) (drop 4 iv))

pub data InPayload : Type 0 where
  text : Str → InPayload
  binary : List ℕ → InPayload

-- The keys of one direction: `BoundAeadKey::seal`, whose key counts the nonces it gave out, and
-- `AeadKey::open_in_place`, by nonce, associated data and text; `String::from_utf8`.
pub record Aead : Type 1 where
  pub SealKey : Type 0
  pub seal : SealKey → List ℕ → List ℕ → SealKey × Result Str (List ℕ × List ℕ)
  pub OpenKey : Type 0
  pub open_in_place : OpenKey → List ℕ → List ℕ → List ℕ → Result Str (List ℕ)
  pub from_utf8 : List ℕ → Option Str
  pub as_bytes : Str → List ℕ

module _ (aead : Aead) where
  open aead use {SealKey, OpenKey}

  abbrev pub sealed_frame : SealKey × Result Str (List ℕ × List ℕ) → SealKey × Result Str (List ℕ)
  sealed_frame (key, ok (nonce, sealed)) = (key, ok (nonce ++ sealed))
  sealed_frame (key, err e) = (key, err (codes "WS seal failed: " ++ e))

  unfoldable pub encode_outbound : ℕ → List ℕ → SealKey → List ℕ → SealKey × Result Str (List ℕ)
  encode_outbound type_byte payload key aad = sealed_frame (aead.seal key aad (type_byte ∷ payload))

  abbrev text_payload : Option Str → Result Str InPayload
  text_payload none = err (codes "invalid UTF-8 in text frame")
  text_payload (some t) = ok (text t)

  -- The `match` on the first byte of the plaintext.
  unfoldable pub payload_of : List ℕ → Result Str InPayload
  payload_of [] = err (codes "empty plaintext")
  payload_of (b ∷ rest) =
      if b == msg_text
      then text_payload (aead.from_utf8 rest)
      else if b == msg_binary
      then ok (binary rest)
      else err (codes "unknown message type byte")

  abbrev pub open_payload : Result Str (List ℕ) → Result Str InPayload
  open_payload (ok plaintext) = payload_of plaintext
  open_payload (err e) = err (codes "WS open failed: " ++ e)

  -- The last counter is written before the frame is opened.
  unfoldable pub decode_inbound :
      List ℕ → OpenKey → (iv aad : List ℕ) → (last_counter : ℕ) → ℕ × Result Str InPayload
  decode_inbound frame key iv aad last_counter =
      let counter = extract_counter (take 12 frame) iv in
      if ltb (length frame) min_frame
      then (last_counter, err (codes "frame too short"))
      else if leb counter last_counter
      then (last_counter, err (codes "nonce replay detected"))
      else (counter, open_payload (aead.open_in_place key (take 12 frame) aad (drop 12 frame)))
