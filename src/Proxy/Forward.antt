-- ===== src/Proxy/Forward.antt =====
-- `proxy_handler` of src/proxy.rs.
pub mod Headers
mod Nominated
pub mod Stream
pub mod Handler
use archetype_proxy_server.Prelude.{
  ℕ, ◌+◌, min, Bool, true, false, ◌&&◌, ◌||◌, not, Option, none, some, List, [], ◌∷◌, ◌++◌, map,
  Result, ok, err, length, filter, any, is_empty, is_some_and, ltb, ◌==◌, if◌then◌else◌,
}
use archetype_proxy_server.Text.{
  Str, codes, str_eq, split, trim, to_ascii_lowercase, trim_end_matches, is_slash,
}
use archetype_proxy_server.Metrics.{
  Metrics, inc_upstream_requests, inc_upstream_errors, observe_upstream_latency,
}
use archetype_proxy_server.Config.Route.{Route, RouteTable, select}
use archetype_proxy_server.Config.Tpm.{is_comma}
use archetype_proxy_server.Proxy.Types
use archetype_proxy_server.Proxy.Types.{
  header, StreamFrame, head, body, Item, UpstreamResponse, Call, Http,
}
use archetype_proxy_server.Proxy.Decrypt.{saturating_add}

-- `STATIC_HOP_BY_HOP`
abbrev pub static_hop_by_hop : List Str
static_hop_by_hop =
    codes "content-length"
    ∷ codes "transfer-encoding"
    ∷ codes "connection"
    ∷ codes "keep-alive"
    ∷ codes "proxy-authenticate"
    ∷ codes "proxy-authorization"
    ∷ codes "te"
    ∷ codes "trailer"
    ∷ codes "upgrade"
    ∷ []

-- The names in the value of a Connection header.
abbrev pub nominated_in : Option Str → List Str
nominated_in none = []
nominated_in (some v) =
    filter (λ t. not (is_empty t)) (map (λ t. to_ascii_lowercase (trim t)) (split is_comma v))

-- `seal_error`: the frames that it seals.
abbrev pub error_frames : ℕ → Str → List Item
error_frames status message =
    ok (head status ((codes "content-type", codes "text/plain") ∷ [])) ∷ ok (body message) ∷ []

-- The body frames: the state of `scan` is the number of bytes so far.
unfoldable pub body_frames : (max acc : ℕ) → List (Option (List ℕ)) → List Item
body_frames max acc [] = []
body_frames max acc (none ∷ chunks) =
    err (codes "upstream body read failed") ∷ body_frames max acc chunks
body_frames max acc (some c ∷ chunks) =
    let acc' = saturating_add acc (length c) in
    (if ltb max acc' then err (codes "upstream body too large") else ok (body c))
    ∷ body_frames max acc' chunks

abbrev query_suffix : Option Str → Str
query_suffix none = []
query_suffix (some q) = b'?' ∷ q

-- The URL of the outbound call.
unfoldable pub upstream_url : Route → Str → Option Str → Str
unfolding trim_end_matches
upstream_url r path query = trim_end_matches is_slash r.upstream ++ path ++ query_suffix query

-- The decrypted request, without its session.
pub record Inbound : Type 0 where
  pub method : Str
  pub path : Str
  pub query : Option Str
  pub host : Str
  pub body : List ℕ

-- What a run of the handler leaves: the metrics, the calls made, and the frames sealed.
pub record Handled : Type 0 where
  pub metrics : Metrics
  pub calls : List Call
  pub items : List Item

module _ (http : Http) where
  abbrev and_str : Option (List ℕ) → Option Str
  and_str none = none
  and_str (some v) = http.to_str v

  -- The names that the upstream's Connection header nominates.
  unfoldable pub nominated : Types.Headers → List Str
  nominated headers = nominated_in (and_str (header (codes "connection") headers))

  unfoldable pub is_stripped : Types.Headers → Str → Bool
  is_stripped headers name = any (str_eq name) (nominated headers ++ static_hop_by_hop)

  abbrev with_text : Str → Option Str → List (Str × Str) → List (Str × Str)
  with_text name none rest = rest
  with_text name (some v) rest = (name, v) ∷ rest

  -- `filter` by the stripped names, then `filter_map` by the values that are text.
  keep_headers : (Str → Bool) → Types.Headers → List (Str × Str)
  keep_headers stripped [] = []
  keep_headers stripped ((name, value) ∷ more) =
      let rest = keep_headers stripped more in
      if stripped name then rest else with_text name (http.to_str value) rest

  unfoldable pub forwarded_headers : Types.Headers → List (Str × Str)
  unfolding keep_headers is_stripped
  forwarded_headers headers = keep_headers (is_stripped headers) headers

  -- The frames of an upstream's answer.
  unfoldable pub response_items : ℕ → UpstreamResponse → List Item
  response_items max resp =
      if is_some_and (λ n. ltb max n) resp.content_length
      then error_frames 413 (codes "upstream body too large")
      else ok (head resp.status (forwarded_headers resp.headers)) ∷ body_frames max 0 resp.chunks

  -- The part of the handler from the call on.
  unfoldable pub forward : ℕ → Metrics → Call → Handled
  forward max metrics call =
      let sent = observe_upstream_latency (http.elapsed call) (inc_upstream_requests metrics) in
      elim (http.send call) [
        | err timeout ↦ record {
          metrics = inc_upstream_errors sent;
          calls = call ∷ [];
          items = error_frames (if timeout then 504 else 502) (codes "upstream request failed");
        }
        | ok resp ↦ record { metrics = sent; calls = call ∷ []; items = response_items max resp }
      ]

  abbrev refuse : Metrics → ℕ → Str → Handled
  refuse metrics status message = record {
    metrics = metrics;
    calls = [];
    items = error_frames status message;
  }

  unfoldable pub proxy_handler : (max : ℕ) → RouteTable → Metrics → Inbound → Handled
  proxy_handler max table metrics req =
      if ltb max (length req.body)
      then refuse metrics 413 (codes "request body too large")
      else elim (select table req.host req.path) [
        | none ↦ refuse metrics 404 (codes "no route matched")
        | some route ↦ elim (http.method_of req.method) [
          | none ↦ refuse metrics 400 (codes "invalid method")
          | some method ↦ forward max metrics (record {
            method = method;
            url = upstream_url route req.path req.query;
            body = req.body;
          })
        ]
      ]
