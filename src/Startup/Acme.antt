-- ===== src/Startup/Acme.antt =====
-- `setup_acme` and the HTTP-01 responder of src/main.rs. The responder's own failure to bind, which
-- ends the process from another task, is not modelled.
use archetype_proxy_server.Prelude.{
  ℕ, Bool, true, false, Option, none, some, [], Result, ok, err, map_err, ◌>>=◌, unwrap_or,
}
use archetype_proxy_server.Text.{Str, codes}
use archetype_proxy_server.Config.Kinds.{AcmeChallenge}
use archetype_proxy_server.Config.Settings.{SocketAddr, AcmeConfig}
use archetype_proxy_server.Tls
use archetype_proxy_server.Tls.{acme_certs, config_with_resolver}
use archetype_proxy_server.Acme.{AcmeError, Http01Tokens, no_tokens, get_token}
use archetype_proxy_server.Acme.Cert.{IssuedCert}
use archetype_proxy_server.Acme.Cache.{Files}
use archetype_proxy_server.Acme.Manager
use archetype_proxy_server.Acme.Manager.{Manager, Shared}
use archetype_proxy_server.Acme.Manager.Issue.{issue}
use archetype_proxy_server.Acme.Manager.Renewal.{Turn, load_cached}

pub data SetupError : Type 0 where
  setup : AcmeError → SetupError
  issuance : AcmeError → SetupError

-- What is running when the listener starts.
pub record AcmeListener (S D : Type 0) : Type 0 where
  pub manager : Manager
  pub shared : Shared S D
  pub responder : Option SocketAddr
  pub config : Tls.ServerConfig S

-- Port 80 of the listener's address, unless another one is set.
unfoldable pub responder_for : AcmeConfig → SocketAddr → Option SocketAddr
responder_for cfg addr = elim cfg.challenge [
  | AcmeChallenge.http01 ↦ some (unwrap_or cfg.http01_listen (record { ip = addr.ip; port = 80 }))
  | _ ↦ none
]

abbrev pub is_tls_alpn01 : AcmeChallenge → Bool
is_tls_alpn01 AcmeChallenge.tls_alpn01 = true
is_tls_alpn01 _ = false

-- `serve_token`: the status and the body.
abbrev token_response : Option Str → ℕ × Str
token_response (some key_authorization) = (200, key_authorization)
token_response none = (404, codes "unknown ACME challenge token\n")

unfoldable pub serve_token : Http01Tokens → Str → ℕ × Str
unfolding get_token
serve_token tokens token = token_response (get_token token tokens)

module _ {S D : Type 0} (fs : Files D) (t : Turn S) where
  -- The state that the manager is made with.
  abbrev pub fresh : D → Shared S D
  fresh disk = record {
    resolver = Tls.empty;
    http_tokens = no_tokens;
    dns_state = record { records = []; zone_cache = []; calls = [] };
    disk = disk;
  }

  -- The result of an order, as `setup_acme` takes it.
  abbrev pub issued_or : Shared S D × Result AcmeError IssuedCert → Result SetupError (Shared S D)
  issued_or (s, ok issued) = ok s
  issued_or (s, err e) = err (issuance e)

  abbrev pub cached_or : Manager → Shared S D × Bool → Result SetupError (Shared S D)
  cached_or m (s, true) = ok s
  cached_or m (s, false) = issued_or (issue t.authority t.pki fs t.net m s)

  -- A cached certificate, or else an order.
  unfoldable pub provision : Manager → D → Result SetupError (Shared S D)
  unfolding load_cached issue
  provision m disk = cached_or m (load_cached fs t.pki m (fresh disk))

  unfoldable pub setup_acme :
      (var : Str → Option Str) → AcmeConfig → SocketAddr → D → Result SetupError (AcmeListener S D)
  unfolding provision responder_for config_with_resolver
  setup_acme var cfg addr disk = do
    manager ← map_err setup (Manager.new var cfg)
    shared ← provision manager disk
    ok (record {
      manager = manager;
      shared = shared;
      responder = responder_for cfg addr;
      config = config_with_resolver (acme_certs shared.resolver) (is_tls_alpn01 cfg.challenge);
    })
