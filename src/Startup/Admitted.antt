-- ===== src/Startup/Admitted.antt =====
-- What a process that serves went through.
use archetype_proxy_server.Prelude.{
  ◌≡◌, ◌≢◌, refl, sym, ap, ap₂, ◌∙◌, subst, Bool, true, false, Result, ok, err, map_err,
  map_err-eq-ok, >>=-eq-ok, if◌then◌else◌,
}
use archetype_proxy_server.Config.Settings.{Config, ConfigError}
use archetype_proxy_server.Config.Load.{load}
use archetype_proxy_server.Attestation.{
  insecure_dev_env_set, secure, mock_provider, mock_verifier, startup_attestation_decision,
  build_tee_provider, build_verifier,
}
use archetype_proxy_server.Attestation.Build.{release-ne-mock}
use archetype_proxy_server.Cli.{Args, config_path, is_dump, overrides}
use archetype_proxy_server.Discovery.Manager
use archetype_proxy_server.Startup.{
  StartError, Environment, Server, dumped, served, listen, start, main, started, loaded,
  warn_tpm_unpinned_ak, build_providers, rate_limit,
}
use archetype_proxy_server.Startup.Serving.{IsSecured, listen-IsSecured}

module _ {S D : Type 0} where
  module _ (env : Environment S D) where
    -- What a process that serves went through.
    pub record IsAdmitted (args : Args) (server : Server S D) : Type 0 where
      pub configured : load env.world (overrides args) (config_path args) ≡ ok server.settings
      pub no_dump : is_dump args ≡ false
      pub guarded :
          startup_attestation_decision env.is_release server.settings.static.attestation
            (insecure_dev_env_set env.world)
          ≡ ok server.mode
      pub provided :
          build_tee_provider env.features server.settings.static.attestation ≡ ok server.provider
      pub verified :
          build_verifier env.world env.features server.settings.static.attestation
          ≡ ok server.quote_verifier
      pub secured :
          IsSecured server.settings.static.server.listen server.settings.static.server.tls
            server.listener

    start_sound :
        (cfg : Config) (server : Server S D) (args : Args)
        → load env.world (overrides args) (config_path args) ≡ ok cfg
        → is_dump args ≡ false
        → start env cfg ≡ ok server
        → IsAdmitted args server
    unfolding start
    start_sound cfg server args configured no_dump h =
        let att = cfg.static.attestation in
        let (mode, e₁, h₁) =
          >>=-eq-ok (map_err _ (startup_attestation_decision env.is_release att _)) _ h in
        let (provider, e₂, h₂) = >>=-eq-ok (map_err _ (build_tee_provider env.features att)) _ h₁ in
        let (quotes, e₃, h₃) =
          >>=-eq-ok (map_err _ (build_verifier env.world env.features att)) _ h₂ in
        let (l, e₄, h₄) =
          >>=-eq-ok (listen env cfg.static.server.listen cfg.static.server.tls) _ h₃ in
        let made : Server S D = record {
          settings = cfg;
          mode = mode;
          unpinned_ak_warned = warn_tpm_unpinned_ak att;
          provider = provider;
          quote_verifier = quotes;
          routes = Manager.new cfg.file_routes;
          providers = build_providers cfg.static.discovery;
          window = rate_limit cfg.static.rate_limit;
          listener = l;
        } in
        let same : made ≡ server = cc in
        subst (IsAdmitted args) same (record {
          configured = configured;
          no_dump = no_dump;
          guarded = map_err-eq-ok _ _ e₁;
          provided = map_err-eq-ok _ _ e₂;
          verified = map_err-eq-ok _ _ e₃;
          secured = listen-IsSecured env cfg.static.server.listen cfg.static.server.tls l e₄;
        })

    -- A process that serves has loaded its configuration, passed the attestation guard and built
    -- the attestation objects that the configuration names. It serves plaintext exactly when there
    -- is no [server.tls]; with it, the section is valid and every handshake that is not a
    -- validation of the authority is given a certificate.
    pub main-IsAdmitted :
        (args : Args) (server : Server S D) → main env args ≡ served server → IsAdmitted args server
    unfolding main
    main-IsAdmitted args server h =
        of_load (load env.world (overrides args) (config_path args)) refl h
      where
        of_start :
            (cfg : Config) (r : Result StartError (Server S D)) (dump : Bool)
            → load env.world (overrides args) (config_path args) ≡ ok cfg
            → is_dump args ≡ dump
            → start env cfg ≡ r
            → (if dump then dumped cfg else started env r) ≡ served server
            → IsAdmitted args server
        of_start cfg r true e d s h = absurd cc
        of_start cfg (err f) false e d s h = absurd cc
        of_start cfg (ok made) false e d s h = start_sound cfg server args e d (s ∙ ap ok cc)

        of_load :
            (r : Result ConfigError Config)
            → load env.world (overrides args) (config_path args) ≡ r
            → loaded env args r ≡ served server
            → IsAdmitted args server
        of_load (err f) e h = absurd cc
        of_load (ok cfg) e h = of_start cfg (start env cfg) (is_dump args) e refl refl h

    -- A release build whose environment does not ask for the insecure mode serves neither the mock
    -- provider nor the mock verifier, whatever the arguments, the file and the other variables say.
    pub main-ne-mock :
        (args : Args) (server : Server S D)
        → env.is_release ≡ true
        → insecure_dev_env_set env.world ≡ false
        → main env args ≡ served server
        → (server.mode ≡ secure)
          × (server.provider ≢ mock_provider)
          × (server.quote_verifier ≢ mock_verifier)
    main-ne-mock args server release no_escape h =
        let a = main-IsAdmitted args server h in
        let att = server.settings.static.attestation in
        release-ne-mock env.world env.features att server.mode server.provider server.quote_verifier
          (ap₂ (λ r e. startup_attestation_decision r att e) (sym release) (sym no_escape)
            ∙ a.guarded)
          a.provided a.verified
