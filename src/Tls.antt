-- ===== src/Tls.antt =====
-- src/tls.rs: the certificate sources of the outer listener, and the resolver that ACME swaps
-- certificates in. Reading files, PEM, signing keys and the comparison of keys are the standard
-- library's and rustls', and given. A `HashMap` is the ordered list of its entries.
pub mod Load
pub mod Latest
use archetype_proxy_server.Prelude.{
  ℕ, Bool, true, false, Option, none, some, List, [], ◌∷◌, ◌++◌, Result, ok, err, ok_or, ensure,
  ◌>>=◌, ◌>>◌, is_empty, any, is_some_and, not, if◌then◌else◌,
}
use archetype_proxy_server.Text.{Str, codes, str_eq}
use archetype_proxy_server.Ordered.{BTreeMap, get, insert, remove}
use archetype_proxy_server.Ordered.Keys.{str_ord}

abbrev pub acme_tls_alpn_name : Str
acme_tls_alpn_name = codes "acme-tls/1"

pub data FileKind : Type 0 where
  certificate private_key : FileKind

-- The errors below them, `source`, are left out.
pub data TlsError : Type 0 where
  read : FileKind → Str → TlsError
  no_certs : Str → TlsError
  no_key : Str → TlsError
  pem : FileKind → Str → TlsError
  key : Str → TlsError
  key_mismatch : Str → Str → TlsError

-- What `CertifiedKey::keys_match` returns: `unknown` is `InconsistentKeys::Unknown`, which a
-- provider gives that cannot look into the key.
pub data KeysMatch : Type 0 where
  matching unknown inconsistent : KeysMatch

-- `rustls::sign::CertifiedKey`, over the type of signing keys
pub record CertifiedKey (S : Type 0) : Type 0 where
  pub cert : List (List ℕ)
  pub signing_key : S

-- `none` stands for the error of a call.
pub record Rustls (S : Type 0) : Type 0 where
  -- `std::fs::read`
  pub read_file : Str → Option (List ℕ)
  -- `rustls_pemfile::certs`, collected, and `rustls_pemfile::private_key`
  pub certs : List ℕ → Option (List (List ℕ))
  pub private_key_of : List ℕ → Option (Option (List ℕ))
  -- `aws_lc_rs::sign::any_supported_type`
  pub any_supported_type : List ℕ → Option S
  pub keys_match : CertifiedKey S → KeysMatch

-- `match certified.keys_match()`
abbrev pub is_consistent : KeysMatch → Bool
is_consistent matching = true
is_consistent unknown = true
is_consistent inconsistent = false

-- The part of `rustls::server::ClientHello` that a resolver reads.
pub record ClientHello : Type 0 where
  pub alpn : Option (List Str)
  pub server_name : Option Str

-- `ArcSwap`s: a store replaces the whole value.
pub record AcmeResolver (S : Type 0) : Type 0 where
  pub current : Option (CertifiedKey S)
  pub challenges : BTreeMap Str (CertifiedKey S)

-- `dyn ResolvesServerCert`: a `StaticCertResolver` or an `AcmeResolver`, the latter as it stands
-- when a handshake asks.
pub data ResolvesServerCert (S : Type 0) : Type 0 where
  static_cert : CertifiedKey S → ResolvesServerCert S
  acme_certs : AcmeResolver S → ResolvesServerCert S

pub data CertSource (S : Type 0) : Type 0 where
  static_files : Str → Str → CertSource S
  dynamic : ResolvesServerCert S → CertSource S

-- What the program sets of `rustls::ServerConfig`.
pub record ServerConfig (S : Type 0) : Type 0 where
  pub cert_resolver : ResolvesServerCert S
  pub alpn_protocols : List Str

-- `p.any(|proto| proto == ACME_TLS_ALPN_NAME)` on the protocols that the client offers
unfoldable pub is_acme_alpn : ClientHello → Bool
unfolding str_eq
is_acme_alpn hello = is_some_and (any (λ proto. str_eq proto acme_tls_alpn_name)) hello.alpn

module _ {S : Type 0} where
  unfoldable pub load_certified_key : Rustls S → Str → Str → Result TlsError (CertifiedKey S)
  load_certified_key w cert_path key_path = do
    cert_pem ← ok_or (w.read_file cert_path) (TlsError.read certificate cert_path)
    key_pem ← ok_or (w.read_file key_path) (TlsError.read private_key key_path)
    certs ← ok_or (w.certs cert_pem) (pem certificate cert_path)
    ensure (not (is_empty certs)) (no_certs cert_path)
    found ← ok_or (w.private_key_of key_pem) (pem private_key key_path)
    key_der ← ok_or found (no_key key_path)
    signing ← ok_or (w.any_supported_type key_der) (key key_path)
    ensure (is_consistent (w.keys_match (record { cert = certs; signing_key = signing })))
        (key_mismatch cert_path key_path)
    ok (record { cert = certs; signing_key = signing })

  unfoldable pub empty : AcmeResolver S
  empty = record { current = none; challenges = [] }

  unfoldable pub store : AcmeResolver S → CertifiedKey S → AcmeResolver S
  store r ck = record { current = some ck; challenges = r.challenges }

  unfoldable pub set_challenge : AcmeResolver S → Str → CertifiedKey S → AcmeResolver S
  unfolding insert
  set_challenge r domain ck = record {
    current = r.current;
    challenges = insert domain ck r.challenges;
  }

  unfoldable pub clear_challenge : AcmeResolver S → Str → AcmeResolver S
  unfolding remove
  clear_challenge r domain = record { current = r.current; challenges = remove domain r.challenges }

  abbrev pub challenge_for : AcmeResolver S → Option Str → Option (CertifiedKey S)
  challenge_for r none = none
  challenge_for r (some name) = get name r.challenges

  unfoldable pub acme_resolve : AcmeResolver S → ClientHello → Option (CertifiedKey S)
  unfolding is_acme_alpn get
  acme_resolve r hello = if is_acme_alpn hello then challenge_for r hello.server_name else r.current

  unfoldable pub resolve : ResolvesServerCert S → ClientHello → Option (CertifiedKey S)
  unfolding acme_resolve
  resolve (static_cert ck) hello = some ck
  resolve (acme_certs r) hello = acme_resolve r hello

  unfoldable pub into_resolver : Rustls S → CertSource S → Result TlsError (ResolvesServerCert S)
  unfolding load_certified_key
  into_resolver w (static_files cert_path key_path) = do
    certified ← load_certified_key w cert_path key_path
    ok (static_cert certified)
  into_resolver w (dynamic resolver) = ok resolver

  unfoldable pub config_with_resolver : ResolvesServerCert S → Bool → ServerConfig S
  config_with_resolver resolver acme_tls_alpn = record {
    cert_resolver = resolver;
    alpn_protocols =
        codes "h2" ∷ codes "http/1.1" ∷ (if acme_tls_alpn then acme_tls_alpn_name ∷ [] else []);
  }

  unfoldable pub server_config : Rustls S → CertSource S → Result TlsError (ServerConfig S)
  unfolding into_resolver config_with_resolver
  server_config w source = do
    resolver ← into_resolver w source
    ok (config_with_resolver resolver false)
