-- ===== src/Config/Kinds.antt =====
-- The enumerations of src/config.rs and their spellings. `Err(String)` holds a message built from
-- the token that was not recognised: the model keeps that token.
pub mod Laws
pub mod Spellings
pub mod TeeProvider
pub mod Verifier
pub mod Challenge
pub mod DnsProvider
use archetype_proxy_server.Prelude.{
  ℕ, String, Bool, true, false, Option, none, some, List, [], ◌∷◌, Result, ok, err, ok_or,
  if◌then◌else◌,
}
use archetype_proxy_server.Text.{Str, codes, str_eq, trim, to_ascii_lowercase}

pub data Source : Type 0 where
  default file discovered env cli : Source

-- `Source::route_rank`
unfoldable pub route_rank : Source → ℕ
route_rank discovered = 1
route_rank env = 1
route_rank cli = 1
route_rank file = 0
route_rank default = 0

-- `Display for Source`
unfoldable pub source_name : Source → Str
source_name default = codes "default"
source_name file = codes "file"
source_name discovered = codes "discovered"
source_name env = codes "env"
source_name cli = codes "cli"

-- `s.trim().to_ascii_lowercase()`
unfoldable pub token : Str → Str
unfolding trim to_ascii_lowercase
token s = to_ascii_lowercase (trim s)

-- A `match` of a text against literals, in the order of its arms.
unfoldable pub match_token {ℓ} : {A : Type ℓ} → Str → List (String × A) → Option A
unfolding str_eq
match_token t [] = none
match_token t ((literal, a) ∷ arms) =
    if str_eq t (codes literal) then some a else match_token t arms

abbrev pub bool_arms : List (String × Bool)
bool_arms =
    ("1", true)
    ∷ ("true", true)
    ∷ ("yes", true)
    ∷ ("on", true)
    ∷ ("0", false)
    ∷ ("false", false)
    ∷ ("no", false)
    ∷ ("off", false)
    ∷ []

unfoldable pub parse_bool_token : Str → Option Bool
unfolding token match_token
parse_bool_token s = match_token (token s) bool_arms

pub data TeeProviderKind : Type 0 where
  mock tdx sev_snp sgx trust_zone aws_nitro tpm : TeeProviderKind

pub data VerifierKind : Type 0 where
  mock maa ita amd_snp tpm nvidia dcap : VerifierKind

pub data AcmeChallenge : Type 0 where
  tls_alpn01 http01 dns01 : AcmeChallenge

pub data DnsProviderKind : Type 0 where
  manual cloudflare : DnsProviderKind
