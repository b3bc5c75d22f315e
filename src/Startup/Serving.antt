-- ===== src/Startup/Serving.antt =====
-- A listener with [server.tls] has a certificate.
use archetype_proxy_server.Prelude.{
  ◌≡◌, refl, sym, ap, ◌∙◌, subst, Bool, true, false, Option, none, some, Result, ok, err, map_err,
  map_err-eq-ok, >>=-eq-ok, if◌then◌else◌,
}
use archetype_proxy_server.Text.{Str}
use archetype_proxy_server.Config.Settings.{SocketAddr, AcmeConfig, TlsConfig, TlsMode}
use archetype_proxy_server.Config.Tls.{validate}
use archetype_proxy_server.Tls
use archetype_proxy_server.Tls.{
  acme_certs, static_cert, CertifiedKey, ClientHello, is_acme_alpn, acme_resolve, resolve,
  server_config, into_resolver, static_files, config_with_resolver, load_certified_key,
}
use archetype_proxy_server.Acme.Cert.{IssuedCert, into_certified_key, needs_renewal}
use archetype_proxy_server.Acme.{AcmeError}
use archetype_proxy_server.Acme.Cache.{Files}
use archetype_proxy_server.Acme.Manager
use archetype_proxy_server.Acme.Manager.{Manager, Shared}
use archetype_proxy_server.Acme.Manager.Issue.{issue}
use archetype_proxy_server.Acme.Manager.Issue.Installed.{Settles, issue-Settles}
use archetype_proxy_server.Acme.Manager.Renewal.{Turn, cached, reuse, check_cached, load_cached}
use archetype_proxy_server.Startup.Acme.{
  AcmeListener, setup_acme, provision, fresh, issued_or, cached_or, responder_for, is_tls_alpn01,
}
use archetype_proxy_server.Startup.{
  StartError, certificate, Environment, Listener, plaintext, tls_static, tls_acme, tls_listener,
  listen,
}

module _ {S D : Type 0} where
  abbrev pub listener_config : Listener S D → Option (Tls.ServerConfig S)
  listener_config (plaintext addr) = none
  listener_config (tls_static addr c) = some c
  listener_config (tls_acme addr running) = some running.config

  -- Every handshake that is not the authority's validation is given a certificate.
  abbrev pub HasCertificate : Listener S D → Type 0
  HasCertificate l =
      (c : Tls.ServerConfig S) × (listener_config l ≡ some c)
      × ((hello : ClientHello)
          → is_acme_alpn hello ≡ false
          → (ck : CertifiedKey S) × (resolve c.cert_resolver hello ≡ some ck))

  abbrev pub IsSecured : SocketAddr → Option TlsConfig → Listener S D → Type 0
  IsSecured addr none l = l ≡ plaintext addr
  IsSecured addr (some tls) l = (mode : TlsMode) × (validate tls ≡ ok mode) × HasCertificate l

  module _ (fs : Files D) (t : Turn S) where
    abbrev Serves : Shared S D → Type 0
    Serves s = (ck : CertifiedKey S) × (s.resolver.current ≡ some ck)

    reuse-Serves :
        (s : Shared S D) (r : Result AcmeError (CertifiedKey S)) (needs : Bool)
        → (if needs then (s, false) else reuse fs s r).1 ≡ true
        → Serves (if needs then (s, false) else reuse fs s r).0
    unfolding Tls.store
    reuse-Serves s r true h = absurd cc
    reuse-Serves s (ok ck) false h = (ck, refl)
    reuse-Serves s (err e) false h = absurd cc

    check_cached-Serves :
        (s : Shared S D) (c : Option IssuedCert)
        → (check_cached fs t.pki s c).1 ≡ true
        → Serves (check_cached fs t.pki s c).0
    check_cached-Serves s none h = absurd cc
    check_cached-Serves s (some c) h =
        reuse-Serves s (into_certified_key t.pki c) (needs_renewal t.pki c) h

    issued_or-Serves :
        (before : Option (CertifiedKey S)) (r : Shared S D × Result AcmeError IssuedCert)
        (s : Shared S D)
        → Settles t.authority t.pki fs t.net before r
        → issued_or fs t r ≡ ok s
        → Serves s
    issued_or-Serves before (s', ok issued) s (ck, parsed, live) h =
        let same : s' ≡ s = cc in (ck, ap (λ x. x.resolver.current) (sym same) ∙ live)
    issued_or-Serves before (s', err e) s settled h = absurd cc

    cached_or-Serves :
        (m : Manager) (r : Shared S D × Bool) (s : Shared S D)
        → (r.1 ≡ true → Serves r.0)
        → cached_or fs t m r ≡ ok s
        → Serves s
    cached_or-Serves m (s', true) s serves h =
        let same : s' ≡ s = cc in subst Serves same (serves refl)
    cached_or-Serves m (s', false) s serves h =
        issued_or-Serves s'.resolver.current (issue t.authority t.pki fs t.net m s') s
          (issue-Settles t.authority t.pki fs t.net m s') h

    provision-Serves :
        (m : Manager) (disk : D) (s : Shared S D) → provision fs t m disk ≡ ok s → Serves s
    unfolding provision load_cached
    provision-Serves m disk s h =
        cached_or-Serves m (load_cached fs t.pki m (fresh fs t disk)) s
          (check_cached-Serves (fresh fs t disk) (cached fs m disk)) h

    setup_acme-HasCertificate :
        (var : Str → Option Str) (cfg : AcmeConfig) (addr : SocketAddr) (disk : D)
        (running : AcmeListener S D)
        → setup_acme fs t var cfg addr disk ≡ ok running
        → HasCertificate (tls_acme addr running)
    unfolding setup_acme config_with_resolver acme_resolve resolve
    setup_acme-HasCertificate var cfg addr disk running h =
        let (m, _, h₁) = >>=-eq-ok (map_err _ (Manager.new var cfg)) _ h in
        let (s, provisioned, h₂) = >>=-eq-ok (provision fs t m disk) _ h₁ in
        let (ck, current) = provision-Serves m disk s provisioned in
        let made : AcmeListener S D = record {
          manager = m;
          shared = s;
          responder = responder_for cfg addr;
          config = config_with_resolver (acme_certs s.resolver) (is_tls_alpn01 cfg.challenge);
        } in
        let same : made ≡ running = cc in
        subst (λ r. HasCertificate (tls_acme addr r)) same
          (made.config, refl, λ hello other. (ck, rw (other, current) refl))

  module _ (env : Environment S D) where
    static-HasCertificate :
        (addr : SocketAddr) (cert_path key_path : Str) (c : Tls.ServerConfig S)
        → server_config env.rustls (static_files cert_path key_path) ≡ ok c
        → HasCertificate (tls_static addr c)
    unfolding server_config into_resolver config_with_resolver resolve
    static-HasCertificate addr cert_path key_path c h =
        let (resolver, found, h₁) =
          >>=-eq-ok (into_resolver env.rustls (static_files cert_path key_path)) _ h in
        let (ck, _, h₂) = >>=-eq-ok (load_certified_key env.rustls cert_path key_path) _ found in
        let fixed : static_cert ck ≡ resolver = cc in
        let same : config_with_resolver (static_cert ck) false ≡ c =
          ap (λ r. config_with_resolver r false) fixed ∙ cc in
        subst (λ d. HasCertificate (tls_static addr d)) same
          (config_with_resolver (static_cert ck) false, refl, λ hello other. (ck, refl))

    tls_listener-HasCertificate :
        (addr : SocketAddr) (mode : TlsMode) (l : Listener S D)
        → tls_listener env addr mode ≡ ok l
        → HasCertificate l
    unfolding tls_listener
    tls_listener-HasCertificate addr (TlsMode.static_files cert_path key_path) l h =
        let (c, e, h₁) =
          >>=-eq-ok
            (map_err certificate (server_config env.rustls (static_files cert_path key_path))) _
            h in
        let same : tls_static addr c ≡ l = cc in
        subst HasCertificate same
          (static-HasCertificate addr cert_path key_path c (map_err-eq-ok _ _ e))
    tls_listener-HasCertificate addr (TlsMode.acme cfg) l h =
        let (running, e, h₁) =
          >>=-eq-ok
            (map_err StartError.acme
              (setup_acme env.files env.turn env.world.env_var cfg addr env.disk))
            _ h in
        let same : tls_acme addr running ≡ l = cc in
        subst HasCertificate same (
          setup_acme-HasCertificate env.files env.turn env.world.env_var cfg addr env.disk running
            (map_err-eq-ok _ _ e))

    pub listen-IsSecured :
        (addr : SocketAddr) (tls : Option TlsConfig) (l : Listener S D)
        → listen env addr tls ≡ ok l
        → IsSecured addr tls l
    unfolding listen
    listen-IsSecured addr none l h = cc
    listen-IsSecured addr (some tls) l h =
        let (mode, e, h₁) = >>=-eq-ok (map_err _ (validate tls)) _ h in
        (mode, map_err-eq-ok _ _ e, tls_listener-HasCertificate addr mode l h₁)
