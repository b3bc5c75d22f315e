-- ===== src/Proxy/Forward/Handler.antt =====
-- The handler as a whole.
use archetype_proxy_server.Prelude.{
  ℕ, ◌≤◌, ◌<◌, ◌+◌, ◌%◌, ◌≡◌, ◌≢◌, true, false, Option, none, ◌++◌, All, All-imp, is_ok, ltb→lt,
  ==_iff, refl, ◌⊎◌, inl, inr, some, List, [], ◌∷◌, ok, length, ltb, arith, Bool-cases,
  Option-cases, Result-cases, is_some_and, if◌then◌else◌,
}
use archetype_proxy_server.Text.{Str, codes, u64_bound, trim_end_matches, is_slash}
use archetype_proxy_server.Text.Laws.{trim_end_matches_split, trim_end_matches-ne}
use archetype_proxy_server.Metrics.{
  Metrics, inc_upstream_requests, inc_upstream_errors, observe_upstream_latency,
}
use archetype_proxy_server.Config.Route.{Route, RouteTable, select}
use archetype_proxy_server.Proxy.Types.{head, Item, UpstreamResponse, Call, Http}
use archetype_proxy_server.Proxy.Decrypt.{usize_max}
use archetype_proxy_server.Proxy.Forward.{
  Inbound, proxy_handler, forward, response_items, error_frames, upstream_url, query_suffix,
  body_frames, forwarded_headers,
}
use archetype_proxy_server.Proxy.Forward.Stream.{payload, payload-body_frames}

-- The URL of a call: the upstream without the slashes at its end, the path, and the query after a
-- question mark if there is one.
pub record IsTarget (upstream path : Str) (query : Option Str) (url : Str) : Type 0 where
  pub base : Str
  pub slashes : Str
  pub tail : Str
  pub whole : upstream ≡ base ++ slashes
  pub only_slashes : All (λ c. c ≡ b'/') slashes
  pub trimmed : (front : Str) → base ≢ front ++ b'/' ∷ []
  pub joined : url ≡ base ++ path ++ tail
  pub asked : ((query ≡ none) × (tail ≡ [])) ⊎ ((q : Str) × (query ≡ some q) × (tail ≡ b'?' ∷ q))

upstream_url-IsTarget :
    (r : Route) (path : Str) (query : Option Str)
    → IsTarget r.upstream path query (upstream_url r path query)
unfolding upstream_url
upstream_url-IsTarget r path query =
    let (slashes, whole, all) = trim_end_matches_split is_slash r.upstream in
    record {
      base = trim_end_matches is_slash r.upstream;
      slashes = slashes;
      tail = query_suffix query;
      whole = whole;
      only_slashes = All-imp (λ c h. (==_iff c b'/').0 h) slashes all;
      trimmed = λ front. trim_end_matches-ne is_slash r.upstream front b'/' refl;
      joined = refl;
      asked = elim (Option-cases query) [
        | inl e ↦ inl (e, rw e refl)
        | inr (q, e) ↦ inr (q, e, rw e refl)
      ];
    }

module _ (http : Http) where
  -- The one call that a request may cause: the selected route's, with the body within the limit.
  pub record IsCall (max : ℕ) (table : RouteTable) (req : Inbound) (call : Call) : Type 0 where
    pub route : Route
    pub selected : select table req.host req.path ≡ some route
    pub allowed : http.method_of req.method ≡ some call.method
    pub target : IsTarget route.upstream req.path req.query call.url
    pub same_body : call.body ≡ req.body
    pub small : length req.body ≤ max

  -- The counters after a call: one more request and one more latency, and one more error exactly
  -- if the call failed. The other two are left alone.
  pub record IsCounted (call : Call) (m after : Metrics) : Type 0 where
    pub requests : after.upstream_requests_total ≡ (m.upstream_requests_total + 1) % u64_bound
    pub latencies : after.latency_count ≡ (m.latency_count + 1) % u64_bound
    pub errors :
        ((is_ok (http.send call) ≡ true) × (after.upstream_errors_total ≡ m.upstream_errors_total))
        ⊎ ((is_ok (http.send call) ≡ false)
            × (after.upstream_errors_total ≡ (m.upstream_errors_total + 1) % u64_bound))
    pub handshakes : after.handshakes_total ≡ m.handshakes_total
    pub failures : after.decrypt_failures_total ≡ m.decrypt_failures_total

  forward_result :
      (max : ℕ) (m : Metrics) (call : Call)
      → ((forward http max m call).calls ≡ call ∷ [])
        × IsCounted call m (forward http max m call).metrics
  unfolding forward observe_upstream_latency inc_upstream_requests inc_upstream_errors
  forward_result max m call = elim (Result-cases (http.send call)) [
    | inl (resp, e) ↦
        rw (e, forward)
          (
            refl,
            record {
              requests = refl;
              latencies = refl;
              errors = inl (rw e refl, refl);
              handshakes = refl;
              failures = refl;
            },
          )
    | inr (timeout, e) ↦
        rw (e, forward)
          (
            refl,
            record {
              requests = refl;
              latencies = refl;
              errors = inr (rw e refl, refl);
              handshakes = refl;
              failures = refl;
            },
          )
  ]

  -- Why no call is made.
  abbrev pub IsRefused : ℕ → RouteTable → Inbound → Type 0
  IsRefused max table req =
      (max < length req.body)
      ⊎ ((select table req.host req.path ≡ none) ⊎ (http.method_of req.method ≡ none))

  -- A request whose body is too large, or which has no route or no valid method, causes no call and
  -- leaves the metrics alone; any other causes one call, to the upstream of the route that is
  -- selected for it, with its path, query, method and body, and is counted once.
  pub proxy_handler-calls :
      (max : ℕ) (table : RouteTable) (m : Metrics) (req : Inbound)
      → (IsRefused max table req
          × ((proxy_handler http max table m req).calls ≡ [])
          × ((proxy_handler http max table m req).metrics ≡ m))
        ⊎ ((call : Call) × IsCall max table req call
            × ((proxy_handler http max table m req).calls ≡ call ∷ [])
            × IsCounted call m (proxy_handler http max table m req).metrics)
  unfolding proxy_handler
  proxy_handler-calls max table m req = elim (Bool-cases (ltb max (length req.body))) [
    | inl large ↦ inl (inl (ltb→lt _ _ large), rw large, rw large)
    | inr small ↦ elim (Option-cases (select table req.host req.path)) [
      | inl no_route ↦ inl (inr (inl no_route), rw small (rw no_route), rw small (rw no_route))
      | inr (route, selected) ↦ elim (Option-cases (http.method_of req.method)) [
        | inl invalid ↦ inl (
          inr (inr invalid),
          rw small (rw selected (rw invalid)),
          rw small (rw selected (rw invalid)),
        )
        | inr (method, allowed) ↦
            let call : Call = record {
              method = method;
              url = upstream_url route req.path req.query;
              body = req.body;
            } in
            let (calls, counted) = forward_result max m call in
            inr (
              call,
              record {
                route = route;
                selected = selected;
                allowed = allowed;
                target = upstream_url-IsTarget route req.path req.query;
                same_body = refl;
                small = ground arith;
              },
              rw small (rw selected (rw allowed calls)),
              rw small (rw selected (rw allowed counted)),
            )
      ]
    ]
  ]

  -- A stream that begins with a head, and whose payload is within the limit or is that of an error
  -- which the proxy made itself.
  abbrev pub IsFramed : ℕ → List Item → Type 0
  IsFramed max items =
      ((status : ℕ) × (headers : List (Str × Str)) × (rest : List Item) × (items
          ≡ ok (head status headers) ∷ rest)
        × (payload rest ≤ max))
      ⊎ ((status : ℕ) × (message : Str) × (items ≡ error_frames status message))

  response_items-IsFramed :
      (max : ℕ) (resp : UpstreamResponse)
      → max < usize_max
      → IsFramed max (response_items http max resp)
  unfolding response_items
  response_items-IsFramed max resp h =
      elim (Bool-cases (is_some_and (λ n. ltb max n) resp.content_length)) [
        | inl over ↦ inr (413, codes "upstream body too large", rw over)
        | inr fits ↦ inl (
          resp.status,
          forwarded_headers http resp.headers,
          body_frames max 0 resp.chunks,
          rw fits,
          omega (arith, payload-body_frames max 0 resp.chunks),
        )
      ]

  forward-IsFramed :
      (max : ℕ) (m : Metrics) (call : Call)
      → max < usize_max
      → IsFramed max (forward http max m call).items
  unfolding forward
  forward-IsFramed max m call h = elim (Result-cases (http.send call)) [
    | inl (resp, e) ↦ rw (e, forward) (response_items-IsFramed max resp h)
    | inr (timeout, e) ↦
        inr (if timeout then 504 else 502, codes "upstream request failed", rw (e, forward))
  ]

  -- Every request is answered by a head and then a payload that is within the limit, or by the two
  -- frames of an error.
  pub proxy_handler-IsFramed :
      (max : ℕ) (table : RouteTable) (m : Metrics) (req : Inbound)
      → max < usize_max
      → IsFramed max (proxy_handler http max table m req).items
  unfolding proxy_handler
  proxy_handler-IsFramed max table m req h = elim (Bool-cases (ltb max (length req.body))) [
    | inl large ↦ inr (413, codes "request body too large", rw large)
    | inr small ↦ elim (Option-cases (select table req.host req.path)) [
      | inl no_route ↦ inr (404, codes "no route matched", rw small (rw no_route))
      | inr (route, selected) ↦ elim (Option-cases (http.method_of req.method)) [
        | inl invalid ↦ inr (400, codes "invalid method", rw small (rw selected (rw invalid)))
        | inr (method, allowed) ↦ rw small (rw selected (rw allowed (forward-IsFramed max m _ h)))
      ]
    ]
  ]
