-- ===== src/Tests/Attestation.antt =====
-- Runs of src/attestation.rs and src/metrics.rs.
use archetype_proxy_server.Prelude.{
  ℕ, ◌≡◌, ◌↔◌, Bool, true, false, none, some, List, [], ◌∷◌, ◌++◌, map, ok, err, arith,
}
use archetype_proxy_server.Text.{Str, codes, decimal}
use archetype_proxy_server.Config.Kinds.{TeeProviderKind, VerifierKind}
use archetype_proxy_server.Config.Settings.{AttestationConfig}
use archetype_proxy_server.Attestation.{
  secure, mock_in_release, uses_mock, startup_attestation_decision, Features,
}
use archetype_proxy_server.Attestation.Guard.{IsReal, startup_attestation_decision_iff}
use archetype_proxy_server.Metrics.{new, latency_buckets_ns, observe_all}
use archetype_proxy_server.Metrics.Histogram.{at_most}
use archetype_proxy_server.Metrics.Render.{
  headed, latency, bucket_lines, bucket_line, bucket_labels, histogram, histogram-observe_all,
}

abbrev settings : Bool → TeeProviderKind → VerifierKind → AttestationConfig
settings allow_mock tee_provider verifier = record {
  allow_mock = allow_mock;
  strict_attestation = true;
  atb_ttl_secs = 300;
  atb_eviction_interval_secs = 60;
  atb_max_sessions = 100;
  tee_provider = tee_provider;
  verifier = verifier;
  verifier_endpoint = some (codes "https://maa.example.org");
  verifier_api_key = none;
  tpm = none;
}

abbrev real : AttestationConfig
real = settings false TeeProviderKind.sev_snp VerifierKind.maa

abbrev mocked : AttestationConfig
mocked = settings false TeeProviderKind.sev_snp VerifierKind.mock

abbrev pub all_features : Features
all_features = record {
  tdx = true;
  sev_snp = true;
  sgx = true;
  trustzone = true;
  aws_nitro = true;
  maa = true;
  ita = true;
  amd_snp = true;
  tpm = true;
}

startup_attestation_decision_iff_example :
    ((startup_attestation_decision true mocked false ≡ ok secure) ↔ IsReal mocked)
    × ((startup_attestation_decision true mocked false
          ≡ err (mock_in_release false TeeProviderKind.sev_snp VerifierKind.mock))
        ↔ ((uses_mock mocked ≡ true) × (true ≡ true) × (false ≡ false)))
startup_attestation_decision_iff_example = startup_attestation_decision_iff true mocked false

-- Three observations in nanoseconds.
abbrev seen : List ℕ
seen = 900000 ∷ 40000000 ∷ 70000000000 ∷ []

-- The sum in seconds is not looked at.
abbrev unprinted : ℕ → Str
unprinted micros = []

histogram-observe_all_example :
    histogram unprinted (observe_all seen new)
    ≡ headed (codes "histogram") latency (codes "Upstream round-trip latency.")
      ++ bucket_lines bucket_labels (map (λ b. at_most b seen) latency_buckets_ns)
      ++ bucket_line (codes "+Inf") 3
        ∷ (latency ++ codes "_sum ")
        ∷ (latency ++ codes "_count " ++ decimal 3)
        ∷ []
histogram-observe_all_example = histogram-observe_all unprinted seen (omega arith)
