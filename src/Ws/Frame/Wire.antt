-- ===== src/Ws/Frame/Wire.antt =====
-- What `encode_outbound` seals, `decode_inbound` opens.
use archetype_proxy_server.Prelude.{
  ℕ, zero, suc, ◌+◌, ◌≤◌, ◌<◌, ◌≡◌, refl, some, List, [], ◌∷◌, ◌++◌, Result, ok, err, Result-cases,
  length, length-append, take, drop, arith, ap, ◌∙◌, inl, inr,
}
use archetype_proxy_server.Text.{Str}
use archetype_proxy_server.Ws.Frame.{
  Aead, InPayload, min_frame, msg_binary, msg_text, extract_counter, decode_inbound,
  encode_outbound, payload_of, sealed_frame,
}
use archetype_proxy_server.Ws.Frame.Replay.{decoded_of}

pub take_at : (n : ℕ) (xs ys : List ℕ) → length xs ≡ n → take n (xs ++ ys) ≡ xs
take_at zero [] ys h = refl
take_at zero (x ∷ xs) ys h = absurd (omega (arith, h))
take_at (suc n) [] ys h = absurd (omega (arith, h))
take_at (suc n) (x ∷ xs) ys h = ap (λ r. x ∷ r) (take_at n xs ys (omega (arith, h)))

drop_at : (n : ℕ) (xs ys : List ℕ) → length xs ≡ n → drop n (xs ++ ys) ≡ ys
drop_at zero [] ys h = refl
drop_at zero (x ∷ xs) ys h = absurd (omega (arith, h))
drop_at (suc n) [] ys h = absurd (omega (arith, h))
drop_at (suc n) (x ∷ xs) ys h = drop_at n xs ys (omega (arith, h))

-- What the two ends rely on: a key that was sealed under opens under the other end's key, the nonce
-- has 12 bytes and the tag 16, and text survives its bytes.
pub record IsPaired (aead : Aead) (key : aead.OpenKey) (aad : List ℕ) : Type 0 where
  pub nonce :
      (k k' : aead.SealKey) (p n c : List ℕ) → aead.seal k aad p ≡ (k', ok (n, c)) → length n ≡ 12
  pub tag :
      (k k' : aead.SealKey) (p n c : List ℕ)
      → aead.seal k aad p ≡ (k', ok (n, c))
      → length c ≡ length p + 16
  pub opens :
      (k k' : aead.SealKey) (p n c : List ℕ)
      → aead.seal k aad p ≡ (k', ok (n, c))
      → aead.open_in_place key n aad c ≡ ok p
  pub utf8 : (t : Str) → aead.from_utf8 (aead.as_bytes t) ≡ some t

module _ (aead : Aead) where
  open aead use {SealKey, OpenKey}

  -- The type byte and the bytes of a payload.
  abbrev pub type_byte : InPayload → ℕ
  type_byte (InPayload.text t) = msg_text
  type_byte (InPayload.binary b) = msg_binary

  abbrev pub payload_bytes : InPayload → List ℕ
  payload_bytes (InPayload.text t) = aead.as_bytes t
  payload_bytes (InPayload.binary b) = b

  payload_of-type_byte :
      (key : OpenKey) (aad : List ℕ) (p : InPayload)
      → IsPaired aead key aad
      → payload_of aead (type_byte p ∷ payload_bytes p) ≡ ok p
  unfolding payload_of
  payload_of-type_byte key aad (InPayload.text t) w = rw (w.utf8 t) refl
  payload_of-type_byte key aad (InPayload.binary b) w = refl

  sealed_frame_refused :
      (r : SealKey × Result Str (List ℕ × List ℕ)) {k : SealKey} {f : List ℕ} {e : Str}
      → sealed_frame aead r ≡ (k, ok f)
      → ¬ (r.1 ≡ err e)
  sealed_frame_refused (k, ok (n, c)) h g = cc
  sealed_frame_refused (k, err e) h g = cc

  sealed_frame_lem :
      (r : SealKey × Result Str (List ℕ × List ℕ)) {k : SealKey} {f n c : List ℕ}
      → sealed_frame aead r ≡ (k, ok f)
      → r.1 ≡ ok (n, c)
      → n ++ c ≡ f
  sealed_frame_lem (k, ok (n, c)) h g = cc
  sealed_frame_lem (k, err e) h g = cc

  -- A payload that is sealed is decoded from its frame, under any last counter below the frame's.
  pub decode_inbound-encode_outbound :
      (p : InPayload) (skey skey' : SealKey) (key : OpenKey) (iv aad frame : List ℕ) (last : ℕ)
      → IsPaired aead key aad
      → encode_outbound aead (type_byte p) (payload_bytes p) skey aad ≡ (skey', ok frame)
      → last < extract_counter (take 12 frame) iv
      → decode_inbound aead frame key iv aad last ≡ (extract_counter (take 12 frame) iv, ok p)
  unfolding encode_outbound
  decode_inbound-encode_outbound p skey skey' key iv aad frame last w e fresh =
      let plaintext : List ℕ = type_byte p ∷ payload_bytes p in
      let sent = aead.seal skey aad plaintext in
      elim (Result-cases sent.1) [
        | inr (refused, h) ↦ absurd (sealed_frame_refused sent e h)
        | inl ((nonce, sealed), h) ↦
            let seal : sent ≡ (sent.0, ok (nonce, sealed)) = ap (λ r. (sent.0, r)) h in
            let twelve = w.nonce skey sent.0 plaintext nonce sealed seal in
            let tag = w.tag skey sent.0 plaintext nonce sealed seal in
            let same : nonce ++ sealed ≡ frame = sealed_frame_lem sent e h in
            let size = length-append nonce sealed in
            let long : min_frame ≤ length frame = rw (← same) (omega (arith, twelve, tag, size)) in
            let front : take 12 frame ≡ nonce = rw (← same) (take_at 12 nonce sealed twelve) in
            let back : drop 12 frame ≡ sealed = rw (← same) (drop_at 12 nonce sealed twelve) in
            decoded_of aead frame key iv aad last long fresh
            ∙ rw
                (
                  front,
                  back,
                  w.opens skey sent.0 plaintext nonce sealed seal,
                  payload_of-type_byte key aad p w,
                )
                refl
      ]
