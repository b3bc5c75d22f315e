-- ===== src/Tls/Load.antt =====
-- Which pairs of files the listener's certificate is loaded from.
use archetype_proxy_server.Prelude.{
  ℕ, ◌≡◌, ◌↔◌, refl, Bool, true, false, some, List, ok, not, is_empty, ensure, >>=-eq-ok, ok_or, ap,
  ensure-eq-ok, ok_or-eq-ok, subst, ◌∙◌,
}
use archetype_proxy_server.Text.{Str}
use archetype_proxy_server.Tls.{Rustls, CertifiedKey, is_consistent, load_certified_key}

module _ {S : Type 0} (w : Rustls S) where
  -- The certificates and the key that the two files hold.
  pub record IsPair (cert_path key_path : Str) (ck : CertifiedKey S) : Type 0 where
    pub cert_pem : List ℕ
    pub key_pem : List ℕ
    pub key_der : List ℕ
    pub cert_read : w.read_file cert_path ≡ some cert_pem
    pub key_read : w.read_file key_path ≡ some key_pem
    pub certs_parsed : w.certs cert_pem ≡ some ck.cert
    pub some_cert : is_empty ck.cert ≡ false
    pub key_found : w.private_key_of key_pem ≡ some (some key_der)
    pub key_supported : w.any_supported_type key_der ≡ some ck.signing_key
    pub consistent : is_consistent (w.keys_match ck) ≡ true

  not-eq-true : (b : Bool) → not b ≡ true → b ≡ false
  not-eq-true true h = cc
  not-eq-true false h = refl

  -- A pair of files is loaded exactly when both can be read and parsed, the first holds a
  -- certificate, the second a supported key, and the key is not known to belong to another
  -- certificate.
  pub load_certified_key_iff :
      (cert_path key_path : Str) (ck : CertifiedKey S)
      → (load_certified_key w cert_path key_path ≡ ok ck) ↔ IsPair cert_path key_path ck
  unfolding load_certified_key
  load_certified_key_iff cert_path key_path ck = (read, load)
    where
      read : load_certified_key w cert_path key_path ≡ ok ck → IsPair cert_path key_path ck
      read h =
          let (cert_pem, e₁, h₁) = >>=-eq-ok (ok_or (w.read_file cert_path) _) _ h in
          let (key_pem, e₂, h₂) = >>=-eq-ok (ok_or (w.read_file key_path) _) _ h₁ in
          let (certs, e₃, h₃) = >>=-eq-ok (ok_or (w.certs cert_pem) _) _ h₂ in
          let (_, e₄, h₄) = >>=-eq-ok (ensure (not (is_empty certs)) _) _ h₃ in
          let (found, e₅, h₅) = >>=-eq-ok (ok_or (w.private_key_of key_pem) _) _ h₄ in
          let (der, e₆, h₆) = >>=-eq-ok (ok_or found _) _ h₅ in
          let (signing, e₇, h₇) = >>=-eq-ok (ok_or (w.any_supported_type der) _) _ h₆ in
          let (_, e₈, h₈) = >>=-eq-ok (ensure (is_consistent (w.keys_match _)) _) _ h₇ in
          let same : record { cert = certs; signing_key = signing } ≡ ck = cc in
          subst (IsPair cert_path key_path) same (record {
            cert_pem = cert_pem;
            key_pem = key_pem;
            key_der = der;
            cert_read = ok_or-eq-ok _ _ e₁;
            key_read = ok_or-eq-ok _ _ e₂;
            certs_parsed = ok_or-eq-ok _ _ e₃;
            some_cert = not-eq-true _ (ensure-eq-ok _ _ e₄);
            key_found = ok_or-eq-ok _ _ e₅ ∙ ap some (ok_or-eq-ok _ _ e₆);
            key_supported = ok_or-eq-ok _ _ e₇;
            consistent = ensure-eq-ok _ _ e₈;
          })

      load : IsPair cert_path key_path ck → load_certified_key w cert_path key_path ≡ ok ck
      load p =
          rw
            (
              p.cert_read, p.key_read, p.certs_parsed, p.some_cert, p.key_found, p.key_supported,
              p.consistent,
            )
            refl
