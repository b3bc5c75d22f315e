-- ===== src/Config/Kinds/TeeProvider.antt =====
-- `TeeProviderKind` of src/config.rs: its spellings.
use archetype_proxy_server.Prelude.{
  String, Bool, true, false, List, [], ◌∷◌, Result, ok, ok_or, ◌≡◌, refl,
}
use archetype_proxy_server.Text.{Str, codes}
use archetype_proxy_server.Config.Kinds.{TeeProviderKind, token, match_token}

unfoldable pub is_mock : TeeProviderKind → Bool
is_mock TeeProviderKind.mock = true
is_mock _ = false

unfoldable pub as_str : TeeProviderKind → Str
as_str TeeProviderKind.mock = codes "mock"
as_str TeeProviderKind.tdx = codes "tdx"
as_str TeeProviderKind.sev_snp = codes "sev_snp"
as_str TeeProviderKind.sgx = codes "sgx"
as_str TeeProviderKind.trust_zone = codes "trustzone"
as_str TeeProviderKind.aws_nitro = codes "aws_nitro"
as_str TeeProviderKind.tpm = codes "tpm"

abbrev pub arms : List (String × TeeProviderKind)
arms =
    ("mock", TeeProviderKind.mock)
    ∷ ("tdx", TeeProviderKind.tdx)
    ∷ ("sev_snp", TeeProviderKind.sev_snp)
    ∷ ("sevsnp", TeeProviderKind.sev_snp)
    ∷ ("snp", TeeProviderKind.sev_snp)
    ∷ ("sgx", TeeProviderKind.sgx)
    ∷ ("trustzone", TeeProviderKind.trust_zone)
    ∷ ("trust_zone", TeeProviderKind.trust_zone)
    ∷ ("aws_nitro", TeeProviderKind.aws_nitro)
    ∷ ("nitro", TeeProviderKind.aws_nitro)
    ∷ ("tpm", TeeProviderKind.tpm)
    ∷ []

unfoldable pub from_str : Str → Result Str TeeProviderKind
unfolding token match_token
from_str s = ok_or (match_token (token s) arms) (token s)

-- The name that is displayed is read back.
pub from_str-as_str : (k : TeeProviderKind) → from_str (as_str k) ≡ ok k
unfolding from_str as_str
from_str-as_str TeeProviderKind.mock = refl
from_str-as_str TeeProviderKind.tdx = refl
from_str-as_str TeeProviderKind.sev_snp = refl
from_str-as_str TeeProviderKind.sgx = refl
from_str-as_str TeeProviderKind.trust_zone = refl
from_str-as_str TeeProviderKind.aws_nitro = refl
from_str-as_str TeeProviderKind.tpm = refl
