-- ===== src/Tests/Ws.antt =====
-- Runs of src/ws.rs, with a cipher that only adds a tag of zeros.
pub mod Upgrading
use archetype_proxy_server.Prelude.{
  ℕ, suc, ◌+◌, ◌-◌, ◌≡◌, ◌≤◌, refl, ap, ◌∙◌, Option, none, some, List, [], ◌∷◌, ◌++◌, length,
  length-append, take, Result, ok, err, arith,
}
use archetype_proxy_server.Text.{Str, codes}
use archetype_proxy_server.Ws.Frame.{
  Aead, InPayload, extract_counter, decode_inbound, encode_outbound, payload_of,
}
use archetype_proxy_server.Ws.Frame.Replay.{IsOpened, decode_inbound_iff, decode_inbound-replay}
use archetype_proxy_server.Ws.Frame.Wire.{
  IsPaired, type_byte, payload_bytes, decode_inbound-encode_outbound, take_at,
}
use archetype_proxy_server.Ws.Bridge.{Message, Pump, client_to_upstream, pump, on_client}
use archetype_proxy_server.Ws.Bridge.Inbound.{
  IsAccepted, frames, payloads, client_to_upstream-IsAccepted,
}

abbrev tag : List ℕ
tag = 0 ∷ 0 ∷ 0 ∷ 0 ∷ 0 ∷ 0 ∷ 0 ∷ 0 ∷ 0 ∷ 0 ∷ 0 ∷ 0 ∷ 0 ∷ 0 ∷ 0 ∷ 0 ∷ []

abbrev zeros : List ℕ
zeros = 0 ∷ 0 ∷ 0 ∷ 0 ∷ 0 ∷ 0 ∷ 0 ∷ 0 ∷ 0 ∷ 0 ∷ 0 ∷ 0 ∷ []

-- The nonce of a counter below 256.
abbrev nonce : ℕ → List ℕ
nonce n = 0 ∷ 0 ∷ 0 ∷ 0 ∷ 0 ∷ 0 ∷ 0 ∷ 0 ∷ 0 ∷ 0 ∷ 0 ∷ n ∷ []

abbrev clear : Aead
clear = record {
  SealKey = ℕ;
  seal = λ k aad p. (suc k, ok (nonce k, p ++ tag));
  OpenKey = Unit {0};
  open_in_place = λ key n aad c. ok (take (length c - 16) c);
  from_utf8 = λ bytes. some bytes;
  as_bytes = λ text. text;
}

sealed_as :
    (k k' : ℕ) (p n c : List ℕ)
    → clear.seal k [] p ≡ (k', ok (n, c))
    → (nonce k ≡ n) × ((p ++ tag) ≡ c)
sealed_as k k' p n c h = (cc, cc)

untagged : (p : List ℕ) → take (length (p ++ tag) - 16) (p ++ tag) ≡ p
untagged p = take_at (length (p ++ tag) - 16) p tag (omega (arith, length-append p tag))

clear-IsPaired : IsPaired clear tt []
clear-IsPaired = record {
  nonce = λ k k' p n c h. rw (← (sealed_as k k' p n c h).0) refl;
  tag = λ k k' p n c h. rw (← (sealed_as k k' p n c h).1) (length-append p tag);
  opens = λ k k' p n c h. rw (← (sealed_as k k' p n c h).1) (ap ok (untagged p));
  utf8 = λ t. refl;
}

-- The binary payload 7, sealed under counter 5.
abbrev frame : List ℕ
frame = nonce 5 ++ (1 ∷ 7 ∷ []) ++ tag

decode_inbound-encode_outbound_example :
    decode_inbound clear frame tt zeros [] 4
    ≡ (extract_counter (take 12 frame) zeros, ok (InPayload.binary (7 ∷ [])))
unfolding encode_outbound extract_counter
decode_inbound-encode_outbound_example =
    decode_inbound-encode_outbound clear (InPayload.binary (7 ∷ [])) 5 6 tt zeros [] frame 4
      clear-IsPaired refl (omega arith)

decode_inbound_iff_example :
    (decode_inbound clear frame tt zeros [] 4 ≡ (5, ok (InPayload.binary (7 ∷ [])))
      → (5 ≡ extract_counter (take 12 frame) zeros)
        × IsOpened clear frame tt zeros [] 4 (InPayload.binary (7 ∷ [])))
    × ((5 ≡ extract_counter (take 12 frame) zeros)
          × IsOpened clear frame tt zeros [] 4 (InPayload.binary (7 ∷ []))
        → decode_inbound clear frame tt zeros [] 4 ≡ (5, ok (InPayload.binary (7 ∷ []))))
decode_inbound_iff_example =
    decode_inbound_iff clear frame tt zeros [] 4 5 (InPayload.binary (7 ∷ []))

decode_inbound-replay_example :
    decode_inbound clear frame tt zeros [] 6 ≡ (6, err (codes "nonce replay detected"))
unfolding decode_inbound payload_of extract_counter
decode_inbound-replay_example =
    decode_inbound-replay clear frame tt zeros [] 4 5 6 (InPayload.binary (7 ∷ [])) refl
      (omega arith)

-- A ping, the frame, and the frame again.
abbrev messages : List (Result Str Message)
messages = ok (Message.ping []) ∷ ok (Message.binary frame) ∷ ok (Message.binary frame) ∷ []

-- The frame reaches the upstream once, and its repetition ends the bridge.
replayed : client_to_upstream clear (λ before m. none) tt zeros [] messages ≡ record {
  sent = Message.ping [] ∷ Message.binary (7 ∷ []) ∷ [];
  outcome = err (codes "nonce replay detected");
}
unfolding client_to_upstream pump on_client decode_inbound payload_of extract_counter
replayed = refl

client_to_upstream-IsAccepted_example :
    (k : ℕ) × IsAccepted clear tt zeros [] 0
      (take k (frames messages))
      (payloads (client_to_upstream clear (λ before m. none) tt zeros [] messages).sent)
client_to_upstream-IsAccepted_example =
    client_to_upstream-IsAccepted clear tt zeros [] (λ before m. none) messages
