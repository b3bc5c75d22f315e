-- ===== src/Attestation/Guard.antt =====
-- The startup guard.
use archetype_proxy_server.Prelude.{◌≡◌, ◌≢◌, ◌↔◌, Bool, true, false, ok, err, arith}
use archetype_proxy_server.Config.Kinds.{TeeProviderKind, VerifierKind}
use archetype_proxy_server.Config.Settings.{AttestationConfig}
use archetype_proxy_server.Attestation.{
  secure, mock_in_release, uses_mock, startup_attestation_decision,
}

-- Nothing of the attestation is mocked.
abbrev pub IsReal : AttestationConfig → Type 0
IsReal cfg =
    (cfg.allow_mock ≡ false)
    × (cfg.tee_provider ≢ TeeProviderKind.mock)
    × (cfg.verifier ≢ VerifierKind.mock)

uses_mock_iff : (cfg : AttestationConfig) → (uses_mock cfg ≡ false) ↔ IsReal cfg
unfolding uses_mock
uses_mock_iff cfg = (λ h. ground arith, λ h. ground arith)

-- The guard reports `secure` exactly for a real configuration, and refuses to start exactly a
-- release build whose configuration is not real and whose escape hatch is not set.
pub startup_attestation_decision_iff :
    (release : Bool) (cfg : AttestationConfig) (hatch : Bool)
    → ((startup_attestation_decision release cfg hatch ≡ ok secure) ↔ IsReal cfg)
      × ((startup_attestation_decision release cfg hatch
            ≡ err (mock_in_release cfg.allow_mock cfg.tee_provider cfg.verifier))
          ↔ ((uses_mock cfg ≡ true) × (release ≡ true) × (hatch ≡ false)))
unfolding startup_attestation_decision
startup_attestation_decision_iff release cfg hatch =
    ((λ h. ground arith, λ h. ground arith), (λ h. ground arith, λ h. ground arith))
