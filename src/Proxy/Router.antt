-- ===== src/Proxy/Router.antt =====
-- The middleware and the probes of src/proxy.rs. Which handler a path leads to is axum's.
use archetype_proxy_server.Prelude.{
  ℕ, ◌≡◌, refl, Bool, true, false, ◌&&◌, not, Option, List, [], ◌∷◌, Result, ok, unwrap_or,
  or_option, and_then, if◌then◌else◌,
}
use archetype_proxy_server.Text.{Str, codes, str_eq}
use archetype_proxy_server.Config.Route.{RouteTable}
use archetype_proxy_server.Metrics.{Metrics, inc_handshakes}
use archetype_proxy_server.Metrics.Render.{render_prometheus}
use archetype_proxy_server.Proxy.Types.{header, Request, Response}
use archetype_proxy_server.Ws.Upgrade.{
  Sessions, Upgraded, WsRequestMeta, is_attested_ws_upgrade, ws_upgrade_handler,
}
use archetype_proxy_server.Ws.Upgrade.Accepted.{IsGranted, ws_upgrade_handler_iff}

-- The middleware around the handshake router: `success` is the test of the response's status.
unfoldable pub count_handshake : Request → (success : Bool) → Metrics → Metrics
unfolding str_eq inc_handshakes
count_handshake req success m =
    if str_eq req.method (codes "POST") && str_eq req.uri_path (codes "/attest") && success
    then inc_handshakes m
    else m

-- What the WebSocket guard reads of a request.
unfoldable pub ws_request_meta : (to_str : List ℕ → Option Str) → Request → WsRequestMeta
unfolding header
ws_request_meta to_str req = record {
  host =
      unwrap_or (or_option req.uri_authority (and_then (header (codes "host") req.headers) to_str))
        [];
  path = req.uri_path;
  query = req.uri_query;
  base_id = and_then (header (codes "attest-base-id") req.headers) to_str;
}

-- `next.run(req)`, or what the WebSocket handler answers.
pub data Dispatch (U : Type 0) : Type 0 where
  passed : Dispatch U
  upgraded : Result Response U → Dispatch U

module _ (s : Sessions) (to_str : List ℕ → Option Str) where
  -- `extracts` is whether axum's `WebSocketUpgrade` takes the request.
  unfoldable pub ws_dispatch_middleware :
      RouteTable → (extracts : Bool) → Request → Dispatch (Upgraded s.Algorithm)
  unfolding is_attested_ws_upgrade ws_request_meta ws_upgrade_handler
  ws_dispatch_middleware table extracts req =
      if not (is_attested_ws_upgrade to_str req)
      then passed
      else if extracts
      then upgraded (ws_upgrade_handler s table (ws_request_meta to_str req))
      else passed

  -- A request that is upgraded asked for an attested upgrade that axum takes, and was granted it
  -- for the host, the path and the session that it names.
  pub ws_dispatch_middleware-IsGranted :
      (table : RouteTable) (extracts : Bool) (req : Request) (u : Upgraded s.Algorithm)
      → ws_dispatch_middleware table extracts req ≡ upgraded (ok u)
      → (is_attested_ws_upgrade to_str req ≡ true)
        × (extracts ≡ true)
        × IsGranted s table (ws_request_meta to_str req) u
  unfolding ws_dispatch_middleware
  ws_dispatch_middleware-IsGranted table extracts req u h =
      of_tests (is_attested_ws_upgrade to_str req) extracts refl refl h
    where
      of_tests :
          (attested taken : Bool)
          → is_attested_ws_upgrade to_str req ≡ attested
          → extracts ≡ taken
          → (if not attested
              then passed
              else if taken
              then upgraded (ws_upgrade_handler s table (ws_request_meta to_str req))
              else passed)
            ≡ upgraded (ok u)
          → (is_attested_ws_upgrade to_str req ≡ true)
            × (extracts ≡ true)
            × IsGranted s table (ws_request_meta to_str req) u
      of_tests false taken a t h = absurd cc
      of_tests true false a t h = absurd cc
      of_tests true true a t h =
          (a, t, (ws_upgrade_handler_iff s table (ws_request_meta to_str req) u).0 cc)

-- The status, the content type and the body of the three endpoints outside the attestation.
abbrev plain_text : Str
plain_text = codes "text/plain; charset=utf-8"

unfoldable pub healthz : ℕ × Str × List Str
healthz = (200, plain_text, codes "ok" ∷ [])

unfoldable pub readyz : ℕ × Str × List Str
readyz = (200, plain_text, codes "ready" ∷ [])

unfoldable pub metrics_handler : (ℕ → Str) → (active : ℕ) → Metrics → ℕ × Str × List Str
unfolding render_prometheus
metrics_handler show_seconds active m =
    (200, codes "text/plain; version=0.0.4; charset=utf-8", render_prometheus show_seconds active m)
