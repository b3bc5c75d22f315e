-- ===== src/Proxy/Decrypt/Authentic.antt =====
-- A request that is let through is authentic; one that is not is counted.
use archetype_proxy_server.Prelude.{
  ℕ, ◌≡◌, ◌⊎◌, inl, inr, true, false, some, List, ◌++◌, ok, err, arith, is_empty, Result,
  Result-cases, ap, subst, ◌∙◌, ensure, ensure-eq-ok, ensure-eq-err, ok_or-eq-err, >>=-eq-err,
}
use archetype_proxy_server.Text.{Str, codes}
use archetype_proxy_server.Metrics.{Metrics, inc_decrypt_failures}
use archetype_proxy_server.Proxy.Types.{Request, Response, Sdk}
use archetype_proxy_server.Proxy.Decrypt.{
  DecryptedRequest, Prepared, prepare, open_request, decrypt, from_request, ahl_response, be_bytes,
  nonce_bytes,
}

module _ (sdk : Sdk) where
  open sdk use {Session, Keys}

  -- The MAC of the ticket covers the nonce, the wire method, the path, the query, the authority and
  -- the headers, and the body was opened under the same nonce and session.
  pub record IsAuthentic (req : Request) (d : DecryptedRequest sdk) : Type 0 where
    pub nonce : ℕ
    pub mac : List ℕ
    pub ciphertext : List ℕ
    pub covered : List ℕ
    pub keys : Keys
    pub ticket : sdk.decode_attest_ticket req.headers ≡ ok (nonce, mac)
    pub session : sdk.session_of req ≡ ok d.session
    pub fresh : sdk.keys_for_trr d.session nonce ≡ ok keys
    pub bound : sdk.ahl req.method d.path d.query d.host req.headers ≡ ok covered
    pub verified : sdk.verify_mac keys (be_bytes 8 nonce ++ covered) mac ≡ true
    pub opened :
        sdk.open_body keys
          (nonce_bytes (sdk.client_write_iv keys) nonce)
          (sdk.aad d.session)
          ciphertext
        ≡ some d.body
    pub has_host : is_empty d.host ≡ false

  prepare_sound :
      (max : ℕ) (req : Request) (p : Prepared sdk)
      → prepare sdk max req ≡ ok p
      → (sdk.session_of req ≡ ok p.session)
        × (sdk.decode_attest_ticket req.headers ≡ ok (p.nonce, p.mac))
        × (is_empty p.authority ≡ false)
  unfolding prepare
  prepare_sound max req p h = (ground arith, ground arith, ground arith)

  -- What the closure checked before it returned a body.
  opened_by :
      (req : Request) (p : Prepared sdk) (keys : Keys) (body : List ℕ)
      → open_request sdk req p keys ≡ ok body
      → (covered : List ℕ) × (sdk.ahl req.method p.path p.query p.authority req.headers
          ≡ ok covered)
        × (sdk.verify_mac keys (be_bytes 8 p.nonce ++ covered) p.mac ≡ true)
        × (sdk.open_body keys
              (nonce_bytes (sdk.client_write_iv keys) p.nonce)
              (sdk.aad p.session)
              p.ciphertext
            ≡ some body)
  unfolding open_request
  opened_by req p keys body h =
      elim (Result-cases (sdk.ahl req.method p.path p.query p.authority req.headers)) [
        | inl (covered, e) ↦ (covered, e, ground arith, ground arith)
        | inr (e, e') ↦ absurd (ground arith)
      ]

  keys_of :
      (req : Request) (p : Prepared sdk) (body : List ℕ)
      → decrypt sdk req p ≡ ok body
      → (keys : Keys) × (sdk.keys_for_trr p.session p.nonce ≡ ok keys)
        × (open_request sdk req p keys ≡ ok body)
  unfolding decrypt
  keys_of req p body h = elim (Result-cases (sdk.keys_for_trr p.session p.nonce)) [
    | inl (keys, e) ↦ (keys, e, ground arith)
    | inr (e, e') ↦ absurd (ground arith)
  ]

  from_request-parts :
      (max : ℕ) (m m' : Metrics) (req : Request) (d : DecryptedRequest sdk)
      → from_request sdk max m req ≡ (m', ok d)
      → (p : Prepared sdk) × (prepare sdk max req ≡ ok p)
        × (decrypt sdk req p ≡ ok d.body)
        × (d.session ≡ p.session)
        × (d.path ≡ p.path)
        × (d.query ≡ p.query)
        × (d.host ≡ p.authority)
        × (m' ≡ m)
  unfolding from_request
  from_request-parts max m m' req d h = elim (Result-cases (prepare sdk max req)) [
    | inl (p, e) ↦
        (p, e, ground arith, ground arith, ground arith, ground arith, ground arith, ground arith)
    | inr (e, e') ↦ absurd (ground arith)
  ]

  -- A request that is let through is authentic, and no failure is counted for it.
  pub from_request-IsAuthentic :
      (max : ℕ) (m m' : Metrics) (req : Request) (d : DecryptedRequest sdk)
      → from_request sdk max m req ≡ (m', ok d)
      → IsAuthentic req d × (m' ≡ m)
  from_request-IsAuthentic max m m' req d h =
      let (p, prepared, decrypted, same_session, same_path, same_query, same_host, same) =
        from_request-parts max m m' req d h in
      let (keys, fresh, run) = keys_of req p d.body decrypted in
      let (covered, bound, verified, opened) = opened_by req p keys d.body run in
      let (session, ticket, has_host) = prepare_sound max req p prepared in
      (
        record {
          nonce = p.nonce;
          mac = p.mac;
          ciphertext = p.ciphertext;
          covered = covered;
          keys = keys;
          ticket = ticket;
          session = rw same_session session;
          fresh = rw same_session fresh;
          bound = rw (same_path, same_query, same_host) bound;
          verified = verified;
          opened = rw same_session opened;
          has_host = rw same_host has_host;
        },
        same,
      )

  -- The MAC of what was prepared verifies, with the keys of its session and nonce.
  pub record IsVerified (req : Request) (p : Prepared sdk) : Type 0 where
    pub keys : Keys
    pub covered : List ℕ
    pub fresh : sdk.keys_for_trr p.session p.nonce ≡ ok keys
    pub bound : sdk.ahl req.method p.path p.query p.authority req.headers ≡ ok covered
    pub verified : sdk.verify_mac keys (be_bytes 8 p.nonce ++ covered) p.mac ≡ true

  -- The answers that say nothing of the body, and those that tell how opening it went.
  pub data IsBlind : Response → Type 0 where
    unauthorized : (message : Str) → IsBlind (record { status = 401; message = message })
    no_hmac : IsBlind (record { status = 500; message = codes "HMAC init failed" })
    no_headers : (e : Str) → IsBlind (record { status = 400; message = codes "AHL error: " ++ e })

  pub data IsOpening : Response → Type 0 where
    no_cipher : IsOpening (record { status = 500; message = codes "Key setup failed" })
    not_opened : IsOpening (record { status = 400; message = codes "Decryption failed" })

  ahl_response-eq-ok :
      (q : Result Str (List ℕ)) {covered : List ℕ}
      → ahl_response sdk q ≡ ok covered
      → q ≡ ok covered
  ahl_response-eq-ok (ok bytes) h = cc
  ahl_response-eq-ok (err e) h = cc

  ahl-IsBlind : (q : Result Str (List ℕ)) {r : Response} → ahl_response sdk q ≡ err r → IsBlind r
  ahl-IsBlind (ok bytes) h = absurd cc
  ahl-IsBlind (err e) {r} h =
      let same : record { status = 400; message = codes "AHL error: " ++ e } ≡ r = cc in
      subst IsBlind same (no_headers e)

  open_request-refused :
      (req : Request) (p : Prepared sdk) (keys : Keys) (r : Response)
      → sdk.keys_for_trr p.session p.nonce ≡ ok keys
      → open_request sdk req p keys ≡ err r
      → IsBlind r ⊎ (IsVerified req p × IsOpening r)
  unfolding open_request
  open_request-refused req p keys r fresh h =
      elim (>>=-eq-err (ensure (sdk.hmac_init keys) _) _ h) [
        | inl e ↦ inl (subst IsBlind (ensure-eq-err _ _ e) no_hmac)
        | inr (_, init, h₁) ↦
            elim (>>=-eq-err
              (ahl_response sdk (sdk.ahl req.method p.path p.query p.authority req.headers)) _ h₁) [
                | inl e ↦ inl (ahl-IsBlind _ e)
                | inr (covered, bound, h₂) ↦
                    elim (>>=-eq-err
                      (ensure (sdk.verify_mac keys (be_bytes 8 p.nonce ++ covered) p.mac) _) _ h₂) [
                        | inl e ↦ inl (subst IsBlind (ensure-eq-err _ _ e) (unauthorized _))
                        | inr (_, mac, h₃) ↦ inr (
                          record {
                            keys = keys;
                            covered = covered;
                            fresh = fresh;
                            bound = ahl_response-eq-ok _ bound;
                            verified = ensure-eq-ok _ _ mac;
                          },
                          elim (>>=-eq-err (ensure (sdk.key_setup keys) _) _ h₃) [
                            | inl e ↦ subst IsOpening (ensure-eq-err _ _ e) no_cipher
                            | inr (_, ready, h₄) ↦ subst IsOpening (ok_or-eq-err _ _ h₄) not_opened
                          ],
                        )
                      ]
              ]
      ]

  decrypt-refused :
      (req : Request) (p : Prepared sdk) (r : Response)
      → decrypt sdk req p ≡ err r
      → IsBlind r ⊎ (IsVerified req p × IsOpening r)
  unfolding decrypt
  decrypt-refused req p r h = elim (Result-cases (sdk.keys_for_trr p.session p.nonce)) [
    | inl (keys, e) ↦ open_request-refused req p keys r e (rw (e, decrypt) at h)
    | inr (message, e) ↦
        let same : record { status = 401; message = message } ≡ r = ground arith in
        inl (subst IsBlind same (unauthorized message))
  ]

  -- A request that is refused is refused before the keys are asked for, and not counted, or it is
  -- counted once: then the answer says how opening the body went only where the MAC verified.
  pub from_request-refused :
      (max : ℕ) (m m' : Metrics) (req : Request) (r : Response)
      → from_request sdk max m req ≡ (m', err r)
      → ((prepare sdk max req ≡ err r) × (m' ≡ m))
        ⊎ ((p : Prepared sdk) × (prepare sdk max req ≡ ok p)
            × (m' ≡ inc_decrypt_failures m)
            × (IsBlind r ⊎ (IsVerified req p × IsOpening r)))
  unfolding from_request
  from_request-refused max m m' req r h = elim (Result-cases (prepare sdk max req)) [
    | inr (e, e') ↦ inl (ground arith, ground arith)
    | inl (p, e) ↦ elim (Result-cases (decrypt sdk req p)) [
      | inl (body, e') ↦ absurd (ground arith)
      | inr (refusal, e') ↦
          let same : refusal ≡ r = ground arith in
          inr (p, e, ground arith, decrypt-refused req p r (e' ∙ ap err same))
    ]
  ]
