-- ===== src/Acme.antt =====
-- src/acme.rs: the responses to the three challenges, the tokens of HTTP-01, the choice of the
-- directory and the contact. The certificate authority is reached through `instant_acme`.
pub mod Dns
pub mod Cert
pub mod Cache
pub mod Manager
use archetype_proxy_server.Prelude.{
  ℕ, ◌*◌, Bool, true, false, Option, none, some, List, [], ◌∷◌, ◌++◌, unwrap_or, if◌then◌else◌,
  map_some,
}
use archetype_proxy_server.Text.{Str, codes, strip_prefix, starts_with}
use archetype_proxy_server.Ordered.{BTreeMap, get, insert, remove}
use archetype_proxy_server.Ordered.Keys.{str_ord}
use archetype_proxy_server.Config.Kinds.{AcmeChallenge}
use archetype_proxy_server.Config.Settings.{AcmeConfig}

-- Seconds.
abbrev pub renew_before : ℕ
renew_before = 30 * 24 * 60 * 60

abbrev pub account_file : Str
account_file = codes "account.json"

abbrev pub cert_file : Str
cert_file = codes "cert.pem"

abbrev pub key_file : Str
key_file = codes "key.pem"

-- `instant_acme::AuthorizationStatus`, `OrderStatus` and `ChallengeType`
pub data AuthorizationStatus : Type 0 where
  pending valid invalid revoked expired deactivated : AuthorizationStatus

pub data OrderStatus : Type 0 where
  pending ready processing valid invalid : OrderStatus

pub data ChallengeType : Type 0 where
  http01 dns01 tls_alpn01 : ChallengeType

-- What failed below an error `Dns` or `Cert`; the texts of outside errors are left out.
pub data DnsReason : Type 0 where
  lookup_request lookup_decode create_request create_decode no_record no_token : DnsReason
  lookup_refused : (candidate detail : Str) → DnsReason
  no_zone : (record_name : Str) → DnsReason
  create_refused : (record_name detail : Str) → DnsReason

pub data CertReason : Type 0 where
  certificate_pem no_certificates private_key_pem credentials rcgen_key : CertReason
  no_challenge : AcmeChallenge → (domain : Str) → CertReason

pub data HookReason : Type 0 where
  spawn exit : (command : Str) → HookReason

pub data AcmeError : Type 0 where
  acme : AcmeError
  cache : (path : Str) → AcmeError
  rcgen : AcmeError
  cert : CertReason → AcmeError
  authorization : (domain : Str) → AuthorizationStatus → AcmeError
  order : OrderStatus → AcmeError
  dns_hook : HookReason → AcmeError
  dns : DnsReason → AcmeError
  rustls : AcmeError

pub data ChallengeResponse : Type 0 where
  http01 : (token key_authorization : Str) → ChallengeResponse
  tls_alpn01 : (domain : Str) → (digest : List ℕ) → ChallengeResponse
  dns01 : (domain record_name value : Str) → ChallengeResponse

-- `instant_acme::KeyAuthorization`, by what the program asks of it
pub record KeyAuthorization : Type 0 where
  pub text : Str
  pub digest : List ℕ
  pub dns_value : Str

unfoldable pub dns_record_name : Str → Str
unfolding strip_prefix
dns_record_name domain =
    codes "_acme-challenge." ++ unwrap_or (strip_prefix domain (codes "*.")) domain

unfoldable pub build_challenge_response :
    AcmeChallenge
    → (domain token key_auth : Str) → (digest : List ℕ) → (dns_value : Str) → ChallengeResponse
unfolding dns_record_name
build_challenge_response AcmeChallenge.http01 domain token key_auth digest dns_value =
    ChallengeResponse.http01 token key_auth
build_challenge_response AcmeChallenge.tls_alpn01 domain token key_auth digest dns_value =
    ChallengeResponse.tls_alpn01 domain digest
build_challenge_response AcmeChallenge.dns01 domain token key_auth digest dns_value =
    ChallengeResponse.dns01 domain (dns_record_name domain) dns_value

unfoldable pub challenge_response :
    AcmeChallenge → (domain token : Str) → KeyAuthorization → ChallengeResponse
unfolding build_challenge_response
challenge_response challenge domain token key_auth =
    build_challenge_response challenge domain token key_auth.text key_auth.digest key_auth.dns_value

unfoldable pub challenge_type : AcmeChallenge → ChallengeType
challenge_type AcmeChallenge.tls_alpn01 = ChallengeType.tls_alpn01
challenge_type AcmeChallenge.http01 = ChallengeType.http01
challenge_type AcmeChallenge.dns01 = ChallengeType.dns01

-- `Http01Tokens`: the map behind the `ArcSwap`.
abbrev pub Http01Tokens : Type 0
Http01Tokens = BTreeMap Str Str

abbrev pub no_tokens : Http01Tokens
no_tokens = []

unfoldable pub insert_token : Str → Str → Http01Tokens → Http01Tokens
unfolding insert
insert_token token key_authorization tokens = insert token key_authorization tokens

unfoldable pub remove_token : Str → Http01Tokens → Http01Tokens
unfolding remove
remove_token token tokens = remove token tokens

unfoldable pub get_token : Str → Http01Tokens → Option Str
unfolding get
get_token token tokens = get token tokens

-- `LetsEncrypt::Staging.url()` and `LetsEncrypt::Production.url()` are `instant_acme`'s.
module _ (staging_url production_url : Str) where
  unfoldable pub directory_url : AcmeConfig → Str
  directory_url cfg =
      unwrap_or cfg.directory_url (if cfg.staging then staging_url else production_url)

abbrev contact_url : Str → Str
contact_url c = if starts_with c (codes "mailto:") then c else codes "mailto:" ++ c

-- The contacts of `AcmeManager::account`.
unfoldable pub contacts : AcmeConfig → List Str
unfolding starts_with
contacts cfg = elim cfg.contact [ none ↦ [] | some c ↦ contact_url c ∷ [] ]
