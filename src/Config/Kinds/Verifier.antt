-- ===== src/Config/Kinds/Verifier.antt =====
-- `VerifierKind` of src/config.rs: its spellings.
use archetype_proxy_server.Prelude.{
  String, Bool, true, false, List, [], ◌∷◌, Result, ok, ok_or, ◌≡◌, refl,
}
use archetype_proxy_server.Text.{Str, codes}
use archetype_proxy_server.Config.Kinds.{VerifierKind, token, match_token}

unfoldable pub is_mock : VerifierKind → Bool
is_mock VerifierKind.mock = true
is_mock _ = false

unfoldable pub as_str : VerifierKind → Str
as_str VerifierKind.mock = codes "mock"
as_str VerifierKind.maa = codes "maa"
as_str VerifierKind.ita = codes "ita"
as_str VerifierKind.amd_snp = codes "amd_snp"
as_str VerifierKind.tpm = codes "tpm"
as_str VerifierKind.nvidia = codes "nvidia"
as_str VerifierKind.dcap = codes "dcap"

abbrev pub arms : List (String × VerifierKind)
arms =
    ("mock", VerifierKind.mock)
    ∷ ("maa", VerifierKind.maa)
    ∷ ("ita", VerifierKind.ita)
    ∷ ("amd_snp", VerifierKind.amd_snp)
    ∷ ("amdsnp", VerifierKind.amd_snp)
    ∷ ("sev_snp", VerifierKind.amd_snp)
    ∷ ("snp", VerifierKind.amd_snp)
    ∷ ("tpm", VerifierKind.tpm)
    ∷ ("nvidia", VerifierKind.nvidia)
    ∷ ("nvidia_gpu", VerifierKind.nvidia)
    ∷ ("dcap", VerifierKind.dcap)
    ∷ []

unfoldable pub from_str : Str → Result Str VerifierKind
unfolding token match_token
from_str s = ok_or (match_token (token s) arms) (token s)

-- The name that is displayed is read back.
pub from_str-as_str : (k : VerifierKind) → from_str (as_str k) ≡ ok k
unfolding from_str as_str
from_str-as_str VerifierKind.mock = refl
from_str-as_str VerifierKind.maa = refl
from_str-as_str VerifierKind.ita = refl
from_str-as_str VerifierKind.amd_snp = refl
from_str-as_str VerifierKind.tpm = refl
from_str-as_str VerifierKind.nvidia = refl
from_str-as_str VerifierKind.dcap = refl
