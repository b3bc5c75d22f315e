-- ===== src/Attestation.antt =====
-- src/attestation.rs: the startup guard against mock attestation, and the choice of the provider
-- and of the verifier. The objects of the openhttpa crates stand for themselves, as the
-- constructor that is called and its arguments.
pub mod Guard
pub mod Build
use archetype_proxy_server.Prelude.{
  ℕ, String, Bool, true, false, ◌||◌, not, Option, none, some, List, [], ◌∷◌, ◌++◌, Result, ok, err,
  ok_or, ◌>>=◌, ◌>>◌, ensure, is_empty, if◌then◌else◌,
}
use archetype_proxy_server.Text.{Str, codes, str_eq}
use archetype_proxy_server.Ordered.{BTreeMap}
use archetype_proxy_server.Config.Kinds.{TeeProviderKind, VerifierKind}
use archetype_proxy_server.Config.Kinds.TeeProvider
use archetype_proxy_server.Config.Kinds.Verifier
use archetype_proxy_server.Config.Settings.{AttestationConfig, TpmConfig, ConfigError}
use archetype_proxy_server.Config.World.{World}
use archetype_proxy_server.Config.Tpm.{trusted_ek_roots_der}

pub data AttestationMode : Type 0 where
  secure : AttestationMode
  insecure : (release : Bool) → AttestationMode

-- The messages of `FatalError`, with what they quote.
pub data FatalError : Type 0 where
  mock_in_release : (allow_mock : Bool) → TeeProviderKind → VerifierKind → FatalError
  feature : (kind value name : String) → FatalError
  endpoint_missing : VerifierKind → FatalError
  api_key_missing : VerifierKind → FatalError
  no_tpm_section : FatalError
  no_expected_pcrs : FatalError
  roots : ConfigError → FatalError
  unsupported : VerifierKind → FatalError

unfoldable pub uses_mock : AttestationConfig → Bool
unfolding TeeProvider.is_mock Verifier.is_mock
uses_mock cfg =
    cfg.allow_mock || TeeProvider.is_mock cfg.tee_provider || Verifier.is_mock cfg.verifier

unfoldable pub startup_attestation_decision :
    (is_release : Bool)
    → AttestationConfig
    → (insecure_dev_env : Bool) → Result FatalError AttestationMode
unfolding uses_mock
startup_attestation_decision is_release cfg insecure_dev_env =
    if not (uses_mock cfg)
    then ok secure
    else if not is_release
    then ok (insecure false)
    else if insecure_dev_env
    then ok (insecure true)
    else err (mock_in_release cfg.allow_mock cfg.tee_provider cfg.verifier)

-- `insecure_dev_env_set`: the variable is exactly `1`.
unfoldable pub insecure_dev_env_set : World → Bool
unfolding str_eq
insecure_dev_env_set w = elim (w.env_var (codes "ARCHETYPE_PROXY_INSECURE_DEV")) [
  | none ↦ false
  | some v ↦ str_eq v (codes "1")
]

-- The cargo features of the build.
pub record Features : Type 0 where
  pub tdx : Bool
  pub sev_snp : Bool
  pub sgx : Bool
  pub trustzone : Bool
  pub aws_nitro : Bool
  pub maa : Bool
  pub ita : Bool
  pub amd_snp : Bool
  pub tpm : Bool

pub data TeeProviderObject : Type 0 where
  mock_provider tdx_provider sev_snp_provider sgx_provider : TeeProviderObject
  trustzone_provider aws_nitro_provider tpm_adapter : TeeProviderObject

-- The calls that build a `TpmReferencePolicy`.
pub data PolicyCall : Type 0 where
  from_pcrs : BTreeMap ℕ (List ℕ) → PolicyCall
  with_pinned_ak : List ℕ → PolicyCall
  with_trusted_ek_roots : List (List ℕ) → PolicyCall
  allow_unpinned_ak : Bool → PolicyCall

pub data VerifierObject : Type 0 where
  mock_verifier : VerifierObject
  maa_verifier : (endpoint : Str) → VerifierObject
  ita_verifier : (api_key endpoint : Str) → VerifierObject
  sev_snp_verifier : VerifierObject
  tpm_verifier : List PolicyCall → VerifierObject

-- A variant that is compiled in under a feature.
abbrev pub under {ℓ} :
    {A : Type ℓ} → Bool → (kind value name : String) → Result FatalError A → Result FatalError A
under true kind value name built = built
under false kind value name built = err (feature kind value name)

unfoldable pub build_tee_provider :
    Features → AttestationConfig → Result FatalError TeeProviderObject
build_tee_provider f cfg = elim cfg.tee_provider [
  | TeeProviderKind.mock ↦ ok mock_provider
  | TeeProviderKind.tdx ↦ under f.tdx "tee_provider" "tdx" "tdx" (ok tdx_provider)
  | TeeProviderKind.sev_snp ↦
      under f.sev_snp "tee_provider" "sev_snp" "sev_snp" (ok sev_snp_provider)
  | TeeProviderKind.sgx ↦ under f.sgx "tee_provider" "sgx" "sgx" (ok sgx_provider)
  | TeeProviderKind.trust_zone ↦
      under f.trustzone "tee_provider" "trustzone" "trustzone" (ok trustzone_provider)
  | TeeProviderKind.aws_nitro ↦
      under f.aws_nitro "tee_provider" "aws_nitro" "aws_nitro" (ok aws_nitro_provider)
  | TeeProviderKind.tpm ↦ under f.tpm "tee_provider" "tpm" "tpm" (ok tpm_adapter)
]

abbrev pinned_calls : Option (List ℕ) → List PolicyCall
pinned_calls none = []
pinned_calls (some ak) = with_pinned_ak ak ∷ []

abbrev roots_calls : List (List ℕ) → List PolicyCall
roots_calls [] = []
roots_calls (der ∷ ders) = with_trusted_ek_roots (der ∷ ders) ∷ []

abbrev allow_calls : Bool → List PolicyCall
allow_calls false = []
allow_calls true = allow_unpinned_ak true ∷ []

-- `build_tpm_verifier`
unfoldable pub build_tpm_verifier : World → Option TpmConfig → Result FatalError VerifierObject
build_tpm_verifier w none = err no_tpm_section
build_tpm_verifier w (some t) =
    if is_empty t.expected_pcrs then err no_expected_pcrs else elim (trusted_ek_roots_der w t) [
      | err e ↦ err (roots e)
      | ok ders ↦ ok (
          tpm_verifier (
            from_pcrs t.expected_pcrs ∷ pinned_calls t.pinned_ak_sec1
            ++ roots_calls ders
            ++ allow_calls t.allow_unpinned_ak))
    ]

maa : AttestationConfig → Result FatalError VerifierObject
maa cfg = do
  endpoint ← ok_or cfg.verifier_endpoint (endpoint_missing VerifierKind.maa)
  ok (maa_verifier endpoint)

ita : AttestationConfig → Result FatalError VerifierObject
ita cfg = do
  endpoint ← ok_or cfg.verifier_endpoint (endpoint_missing VerifierKind.ita)
  api_key ← ok_or cfg.verifier_api_key (api_key_missing VerifierKind.ita)
  ok (ita_verifier api_key endpoint)

unfoldable pub build_verifier :
    World → Features → AttestationConfig → Result FatalError VerifierObject
unfolding build_tpm_verifier maa ita
build_verifier w f cfg = elim cfg.verifier [
  | VerifierKind.mock ↦ ok mock_verifier
  | VerifierKind.maa ↦ under f.maa "verifier" "maa" "maa" (maa cfg)
  | VerifierKind.ita ↦ under f.ita "verifier" "ita" "ita" (ita cfg)
  | VerifierKind.amd_snp ↦ under f.amd_snp "verifier" "amd_snp" "amd_snp" (ok sev_snp_verifier)
  | VerifierKind.tpm ↦ under f.tpm "verifier" "tpm" "tpm" (build_tpm_verifier w cfg.tpm)
  | VerifierKind.nvidia ↦ err (unsupported VerifierKind.nvidia)
  | VerifierKind.dcap ↦ err (unsupported VerifierKind.dcap)
]
