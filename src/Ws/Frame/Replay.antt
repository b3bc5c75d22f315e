-- ===== src/Ws/Frame/Replay.antt =====
-- Which frames are opened, and that none is opened twice.
use archetype_proxy_server.Prelude.{
  ℕ, ◌≤◌, ◌<◌, ◌≡◌, refl, inl, inr, List, ok, err, Result-cases, Bool-cases, length, take, drop,
  ltb, leb, arith,
}
use archetype_proxy_server.Text.{codes}
use archetype_proxy_server.Ws.Frame.{
  Aead, InPayload, min_frame, extract_counter, decode_inbound, payload_of, open_payload,
}

module _ (aead : Aead) where
  open aead use {OpenKey, SealKey}

  -- A frame that is opened under a counter above the last one.
  pub record IsOpened (frame : List ℕ) (key : OpenKey) (iv aad : List ℕ) (last : ℕ) (p : InPayload)
      : Type 0 where
    pub long_enough : min_frame ≤ length frame
    pub fresh : last < extract_counter (take 12 frame) iv
    pub plaintext : List ℕ
    pub opened : aead.open_in_place key (take 12 frame) aad (drop 12 frame) ≡ ok plaintext
    pub decoded : payload_of aead plaintext ≡ ok p

  pub decoded_of :
      (frame : List ℕ) (key : OpenKey) (iv aad : List ℕ) (last : ℕ)
      → min_frame ≤ length frame
      → last < extract_counter (take 12 frame) iv
      → decode_inbound aead frame key iv aad last ≡ (
        extract_counter (take 12 frame) iv,
        open_payload aead (aead.open_in_place key (take 12 frame) aad (drop 12 frame)),
      )
  unfolding decode_inbound
  decoded_of frame key iv aad last h k = ground arith

  decode_inbound_sound :
      (frame : List ℕ) (key : OpenKey) (iv aad : List ℕ) (last next : ℕ) (p : InPayload)
      → decode_inbound aead frame key iv aad last ≡ (next, ok p)
      → (next ≡ extract_counter (take 12 frame) iv) × IsOpened frame key iv aad last p
  unfolding decode_inbound
  decode_inbound_sound frame key iv aad last next p h =
      elim (Bool-cases (ltb (length frame) min_frame)) [
        | inl short ↦ cc
        | inr long ↦ elim (Bool-cases (leb (extract_counter (take 12 frame) iv) last)) [
          | inl old ↦ cc
          | inr fresh ↦
              elim (Result-cases (aead.open_in_place key (take 12 frame) aad (drop 12 frame))) [
                | inr (e, refused) ↦ cc
                | inl (plaintext, opened) ↦ (
                  cc,
                  record {
                    long_enough = ground arith;
                    fresh = ground arith;
                    plaintext = plaintext;
                    opened = opened;
                    decoded = cc;
                  },
                )
              ]
        ]
      ]

  -- A payload is decoded exactly from a frame that is opened under a counter above the last one,
  -- and that counter is the last one from then on.
  pub decode_inbound_iff :
      (frame : List ℕ) (key : OpenKey) (iv aad : List ℕ) (last next : ℕ) (p : InPayload)
      → (decode_inbound aead frame key iv aad last ≡ (next, ok p)
          → (next ≡ extract_counter (take 12 frame) iv) × IsOpened frame key iv aad last p)
        × ((next ≡ extract_counter (take 12 frame) iv) × IsOpened frame key iv aad last p
            → decode_inbound aead frame key iv aad last ≡ (next, ok p))
  decode_inbound_iff frame key iv aad last next p = (
    decode_inbound_sound frame key iv aad last next p,
    λ h.
        let o : IsOpened frame key iv aad last p = h.1 in
        rw (decoded_of frame key iv aad last o.long_enough o.fresh, o.opened, o.decoded, h.0) refl,
  )

  -- The last counter never decreases, whatever the frame is.
  pub decode_inbound-last :
      (frame : List ℕ) (key : OpenKey) (iv aad : List ℕ) (last : ℕ)
      → last ≤ (decode_inbound aead frame key iv aad last).0
  unfolding decode_inbound
  decode_inbound-last frame key iv aad last = ground arith

  -- A frame that was decoded is refused under every last counter that can follow.
  pub decode_inbound-replay :
      (frame : List ℕ) (key : OpenKey) (iv aad : List ℕ) (last next later : ℕ) (p : InPayload)
      → decode_inbound aead frame key iv aad last ≡ (next, ok p)
      → next ≤ later
      → decode_inbound aead frame key iv aad later ≡ (later, err (codes "nonce replay detected"))
  unfolding decode_inbound
  decode_inbound-replay frame key iv aad last next later p h k =
      let (counter, o) = decode_inbound_sound frame key iv aad last next p h in
      let o : IsOpened frame key iv aad last p = o in
      let long : min_frame ≤ length frame = o.long_enough in ground arith
