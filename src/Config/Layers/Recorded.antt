-- ===== src/Config/Layers/Recorded.antt =====
-- The recorded provenance names the layer that won each setting.
use archetype_proxy_server.Prelude.{
  ◌≡◌, refl, Bool, true, false, Option, none, some, List, [], ◌∷◌, map_some, arith, String, All,
  if◌then◌else◌,
}
use archetype_proxy_server.Text.{Str, codes, str_eq}
use archetype_proxy_server.Text.Laws.{str_eq_iff}
use archetype_proxy_server.Ordered.{get}
use archetype_proxy_server.Ordered.Laws.{get-insert_self, get-insert_ne}
use archetype_proxy_server.Ordered.Keys.{str_ord}
use archetype_proxy_server.Config.Kinds.{Source}
use archetype_proxy_server.Config.Route.{Route}
use archetype_proxy_server.Config.Settings.{Provenance, PartialStatic}
use archetype_proxy_server.Config.Layers.{resolve, layers, resolve_layers, record_source}

-- The highest layer that is not silent.
abbrev pub speaker {ℓ} : {T : Type ℓ} → Option T → Option T → Option T → Source
speaker file env (some c) = Source.cli
speaker file (some e) none = Source.env
speaker (some f) none none = Source.file
speaker none none none = Source.default

-- Reading one field of the provenance after another was resolved.
get-record :
    (j k : Str) (s : Source) (prov : Provenance)
    → get j (record_source k s prov) ≡ (if str_eq j k then some s else get j prov)
unfolding record_source
get-record j k s prov =
    ground (arith, str_eq_iff j k, get-insert_self k s prov, get-insert_ne j k s prov)

collapse :
    (b : Bool) (s t : Source) (o : Option Source)
    → (if b then some s else if b then some t else o) ≡ (if b then some s else o)
collapse true s t o = refl
collapse false s t o = refl

get-resolve {ℓ} :
    {T : Type ℓ} (j k : Str) (value : T) (file env cli : Option T) (prov : Provenance)
    → get j (resolve k value (layers file env cli) prov).1
      ≡ (if str_eq j k then some (speaker file env cli) else get j prov)
unfolding resolve
get-resolve j k value none none none prov = get-record j k _ prov
get-resolve j k value none none (some c) prov = simp (get-record, collapse)
get-resolve j k value none (some e) none prov = simp (get-record, collapse)
get-resolve j k value none (some e) (some c) prov = simp (get-record, collapse)
get-resolve j k value (some f) none none prov = simp (get-record, collapse)
get-resolve j k value (some f) none (some c) prov = simp (get-record, collapse)
get-resolve j k value (some f) (some e) none prov = simp (get-record, collapse)
get-resolve j k value (some f) (some e) (some c) prov = simp (get-record, collapse)

speaker-map_some {ℓ κ} :
    {T : Type ℓ} {U : Type κ} (g : T → U) (file env cli : Option T)
    → speaker (map_some g file) (map_some g env) (map_some g cli) ≡ speaker file env cli
speaker-map_some g none none none = refl
speaker-map_some g none none (some c) = refl
speaker-map_some g none (some e) none = refl
speaker-map_some g none (some e) (some c) = refl
speaker-map_some g (some f) none none = refl
speaker-map_some g (some f) none (some c) = refl
speaker-map_some g (some f) (some e) none = refl
speaker-map_some g (some f) (some e) (some c) = refl

-- The settings, by the path under which each is recorded, with the layer that wins it.
abbrev pub sources : PartialStatic → PartialStatic → PartialStatic → List (Str × Source)
sources file env cli =
    (
      codes "discovery.kubernetes.namespace",
      speaker file.kubernetes_namespace env.kubernetes_namespace cli.kubernetes_namespace,
    )
    ∷ (
      codes "discovery.kubernetes",
      speaker file.kubernetes_enabled env.kubernetes_enabled cli.kubernetes_enabled,
    )
    ∷ (
      codes "discovery.docker.poll_secs",
      speaker file.docker_poll_secs env.docker_poll_secs cli.docker_poll_secs,
    )
    ∷ (
      codes "discovery.docker.socket",
      speaker file.docker_socket env.docker_socket cli.docker_socket,
    )
    ∷ (codes "discovery.docker", speaker file.docker_enabled env.docker_enabled cli.docker_enabled)
    ∷ (
      codes "rate_limit.window_secs",
      speaker file.rate_limit_window_secs env.rate_limit_window_secs cli.rate_limit_window_secs,
    )
    ∷ (
      codes "rate_limit.max_requests",
      speaker file.rate_limit_max_requests env.rate_limit_max_requests cli.rate_limit_max_requests,
    )
    ∷ (codes "server.tls", speaker file.tls env.tls cli.tls)
    ∷ (codes "attestation.tpm", speaker file.tpm env.tpm cli.tpm)
    ∷ (
      codes "attestation.verifier_api_key",
      speaker file.verifier_api_key env.verifier_api_key cli.verifier_api_key,
    )
    ∷ (
      codes "attestation.verifier_endpoint",
      speaker file.verifier_endpoint env.verifier_endpoint cli.verifier_endpoint,
    )
    ∷ (codes "attestation.verifier", speaker file.verifier env.verifier cli.verifier)
    ∷ (
      codes "attestation.tee_provider",
      speaker file.tee_provider env.tee_provider cli.tee_provider,
    )
    ∷ (
      codes "attestation.atb_max_sessions",
      speaker file.atb_max_sessions env.atb_max_sessions cli.atb_max_sessions,
    )
    ∷ (
      codes "attestation.atb_eviction_interval_secs",
      speaker file.atb_eviction_interval_secs env.atb_eviction_interval_secs
          cli.atb_eviction_interval_secs,
    )
    ∷ (
      codes "attestation.atb_ttl_secs",
      speaker file.atb_ttl_secs env.atb_ttl_secs cli.atb_ttl_secs,
    )
    ∷ (
      codes "attestation.strict_attestation",
      speaker file.strict_attestation env.strict_attestation cli.strict_attestation,
    )
    ∷ (codes "attestation.allow_mock", speaker file.allow_mock env.allow_mock cli.allow_mock)
    ∷ (
      codes "server.max_body_bytes",
      speaker file.max_body_bytes env.max_body_bytes cli.max_body_bytes,
    )
    ∷ (codes "server.listen", speaker file.listen env.listen cli.listen)
    ∷ []

-- The entry of a path in such a list.
abbrev pub entry : Str → List (Str × Source) → Option Source
entry j [] = none
entry j ((k, s) ∷ more) = if str_eq j k then some s else entry j more

-- The provenance of a merged configuration holds, under each path, the highest layer that set it,
-- `default` where no layer did, and nothing under any other path.
pub get-provenance :
    (file env cli : PartialStatic) (routes : List Route) (field : Str)
    → get field (resolve_layers (file, routes) env cli).provenance
      ≡ entry field (sources file env cli)
unfolding resolve_layers get
get-provenance file env cli routes field = simp (get-resolve, speaker-map_some)

-- Under the four TPM paths that the dump looks up nothing is ever recorded, also where a layer set
-- the policy: `attestation.tpm` is the only path that is written.
pub get-provenance_tpm :
    (file env cli : PartialStatic) (routes : List Route)
    → All
        (λ field. get (codes field) (resolve_layers (file, routes) env cli).provenance ≡ none)
        ("attestation.tpm.expected_pcrs" ∷ "attestation.tpm.pinned_ak"
          ∷ "attestation.tpm.trusted_ek_roots" ∷ "attestation.tpm.allow_unpinned_ak" ∷ [])
unfolding str_eq
get-provenance_tpm file env cli routes = (
  read "attestation.tpm.expected_pcrs",
  (
    read "attestation.tpm.pinned_ak",
    (read "attestation.tpm.trusted_ek_roots", (read "attestation.tpm.allow_unpinned_ak", tt)),
  ),
)
  where
    read :
        (field : String)
        → get (codes field) (resolve_layers (file, routes) env cli).provenance
          ≡ entry (codes field) (sources file env cli)
    read field = get-provenance file env cli routes (codes field)
