-- ===== src/Acme/Cert.antt =====
-- Certificates in src/acme.rs: an issued one and its lifetime, the validation certificate of
-- TLS-ALPN-01. PEM, X.509, keys and the clock are given.
use archetype_proxy_server.Prelude.{
  ℕ, Bool, true, Option, none, some, List, [], ◌∷◌, ◌++◌, Result, ok, ok_or, ensure, ◌>>=◌, ◌>>◌,
  first, is_empty, not, leb, and_then,
}
use archetype_proxy_server.Text.{Str}
use archetype_proxy_server.Tls.{CertifiedKey}
use archetype_proxy_server.Acme.{
  AcmeError, cert, rcgen, rustls, certificate_pem, no_certificates, private_key_pem, rcgen_key,
  renew_before,
}
use archetype_proxy_server.Acme.Dns.{ℤ, pos, negsuc}

abbrev pub Der : Type 0
Der = List ℕ

pub record IssuedCert : Type 0 where
  pub cert_pem : Str
  pub key_pem : Str

-- What the program sets of `rcgen::CertificateParams`: the names, and the digests of the ACME
-- identifier extensions.
pub record CertificateParams : Type 0 where
  pub names : List Str
  pub acme_identifiers : List (List ℕ)

-- `none` stands for the error of a call; `S` are the signing keys.
pub record Pki (S : Type 0) : Type 0 where
  -- `CertificateDer::pem_slice_iter` and `PrivateKeyDer::from_pem_slice`
  pub pem_slice_iter : Str → List (Option Der)
  pub key_from_pem_slice : Str → Option Der
  -- `CertifiedKey::from_der`, which compares the key with the certificate
  pub from_der : List Der → Der → Option (CertifiedKey S)
  -- `parse_x509_certificate`, then `validity().time_to_expiration()` in whole seconds, at the time
  -- of the call
  pub time_to_expiration : Der → Option (Option ℤ)
  -- `rcgen`: the parameters for some names, the certificate that a key pair signs itself, and the
  -- encoding of the pair
  pub certificate_params : List Str → Option CertificateParams
  pub self_signed : CertificateParams → (key_pair : List ℕ) → Option Der
  pub key_der_of : (key_pair : List ℕ) → Option Der
  pub load_private_key : Der → Option S

-- `collect::<Result<Vec<_>, _>>()`
unfoldable pub collect : List (Option Der) → Option (List Der)
collect [] = some []
collect (none ∷ items) = none
collect (some der ∷ items) = elim (collect items) [ none ↦ none | some ders ↦ some (der ∷ ders) ]

-- `u64::try_from(secs).ok()`
abbrev unsigned : ℤ → Option ℕ
unsigned (pos n) = some n
unsigned (negsuc n) = none

module _ {S : Type 0} (w : Pki S) where
  unfoldable pub into_certified_key : IssuedCert → Result AcmeError (CertifiedKey S)
  unfolding collect
  into_certified_key c = do
    certs ← ok_or (collect (w.pem_slice_iter c.cert_pem)) (cert certificate_pem)
    ensure (not (is_empty certs)) (cert no_certificates)
    key ← ok_or (w.key_from_pem_slice c.key_pem) (cert private_key_pem)
    ok_or (w.from_der certs key) rustls

  unfoldable pub time_to_expiry : IssuedCert → Option ℕ
  time_to_expiry c = and_then (first (w.pem_slice_iter c.cert_pem)) (λ item.
      and_then item
        (λ der. and_then (w.time_to_expiration der) (λ expiration. and_then expiration unsigned)))

  unfoldable pub needs_renewal : IssuedCert → Bool
  unfolding time_to_expiry
  needs_renewal c = elim (time_to_expiry c) [
    | some remaining ↦ leb remaining renew_before
    | none ↦ true
  ]

  -- `generated` is what `rcgen::KeyPair::generate` returns.
  unfoldable pub tls_alpn_cert :
      (generated : Option (List ℕ))
      → (domain : Str) → (digest : List ℕ) → Result AcmeError (CertifiedKey S)
  tls_alpn_cert generated domain digest = do
    key_pair ← ok_or generated rcgen
    params ← ok_or (w.certificate_params (domain ∷ [])) rcgen
    cert_der ←
        ok_or
          (w.self_signed
            (record {
              names = params.names;
              acme_identifiers = params.acme_identifiers ++ digest ∷ [];
            })
            key_pair)
          rcgen
    key_der ← ok_or (w.key_der_of key_pair) (cert rcgen_key)
    signing_key ← ok_or (w.load_private_key key_der) rustls
    ok (record { cert = cert_der ∷ []; signing_key = signing_key })
