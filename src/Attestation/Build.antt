-- ===== src/Attestation/Build.antt =====
-- What is built is what was configured, and only if it was compiled in.
use archetype_proxy_server.Prelude.{◌≡◌, ◌≢◌, ◌↔◌, Bool, true, false, ok, arith}
use archetype_proxy_server.Config.Kinds.{TeeProviderKind, VerifierKind}
use archetype_proxy_server.Config.Settings.{AttestationConfig}
use archetype_proxy_server.Config.World.{World}
use archetype_proxy_server.Attestation.{
  AttestationMode, secure, startup_attestation_decision, Features, TeeProviderObject,
  VerifierObject, mock_provider, tdx_provider, sev_snp_provider, sgx_provider, trustzone_provider,
  aws_nitro_provider, tpm_adapter, mock_verifier, maa_verifier, ita_verifier, sev_snp_verifier,
  tpm_verifier, build_tee_provider, build_verifier,
}
use archetype_proxy_server.Attestation.Guard.{startup_attestation_decision_iff}

-- The feature that a provider is compiled under.
abbrev pub has_provider : Features → TeeProviderKind → Bool
has_provider f TeeProviderKind.mock = true
has_provider f TeeProviderKind.tdx = f.tdx
has_provider f TeeProviderKind.sev_snp = f.sev_snp
has_provider f TeeProviderKind.sgx = f.sgx
has_provider f TeeProviderKind.trust_zone = f.trustzone
has_provider f TeeProviderKind.aws_nitro = f.aws_nitro
has_provider f TeeProviderKind.tpm = f.tpm

abbrev pub kind_of : TeeProviderObject → TeeProviderKind
kind_of mock_provider = TeeProviderKind.mock
kind_of tdx_provider = TeeProviderKind.tdx
kind_of sev_snp_provider = TeeProviderKind.sev_snp
kind_of sgx_provider = TeeProviderKind.sgx
kind_of trustzone_provider = TeeProviderKind.trust_zone
kind_of aws_nitro_provider = TeeProviderKind.aws_nitro
kind_of tpm_adapter = TeeProviderKind.tpm

-- A provider is built exactly if it is of the configured kind and that kind is compiled in.
pub build_tee_provider_iff :
    (f : Features) (cfg : AttestationConfig) (p : TeeProviderObject)
    → (build_tee_provider f cfg ≡ ok p)
      ↔ ((kind_of p ≡ cfg.tee_provider) × (has_provider f cfg.tee_provider ≡ true))
unfolding build_tee_provider
build_tee_provider_iff f cfg p = (λ h. ground arith, λ h. ground arith)

-- The kind of a verifier that was built.
abbrev pub verifier_kind : VerifierObject → VerifierKind
verifier_kind mock_verifier = VerifierKind.mock
verifier_kind (maa_verifier endpoint) = VerifierKind.maa
verifier_kind (ita_verifier api_key endpoint) = VerifierKind.ita
verifier_kind sev_snp_verifier = VerifierKind.amd_snp
verifier_kind (tpm_verifier calls) = VerifierKind.tpm

pub verifier_kind_of_build :
    (w : World) (f : Features) (cfg : AttestationConfig) (v : VerifierObject)
    → build_verifier w f cfg ≡ ok v
    → verifier_kind v ≡ cfg.verifier
unfolding build_verifier
verifier_kind_of_build w f cfg v h = ground arith

boots_secure :
    (cfg : AttestationConfig) (m : AttestationMode)
    → startup_attestation_decision true cfg false ≡ ok m
    → m ≡ secure
unfolding startup_attestation_decision
boots_secure cfg m h = ground arith

-- A release build without the escape hatch that passes the guard and builds both objects runs
-- neither the mock provider nor the mock verifier.
pub release-ne-mock :
    (w : World) (f : Features) (cfg : AttestationConfig) (m : AttestationMode)
    (p : TeeProviderObject) (v : VerifierObject)
    → startup_attestation_decision true cfg false ≡ ok m
    → build_tee_provider f cfg ≡ ok p
    → build_verifier w f cfg ≡ ok v
    → (m ≡ secure) × (p ≢ mock_provider) × (v ≢ mock_verifier)
release-ne-mock w f cfg m p v decided provided verified =
    let is_secure = boots_secure cfg m decided in
    let real = (startup_attestation_decision_iff true cfg false).0.0 (rw is_secure at decided) in
    let provider = (build_tee_provider_iff f cfg p).0 provided in
    let verifier = verifier_kind_of_build w f cfg v verified in
    (is_secure, λ e. ground arith, λ e. ground arith)
