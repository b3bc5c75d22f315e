-- ===== src/Ws/Upgrade.antt =====
-- `is_attested_ws_upgrade`, `build_upstream_ws_url` and `ws_upgrade_handler` of src/ws.rs.
pub mod Accepted
pub mod Url
use archetype_proxy_server.Prelude.{
  ℕ, Bool, true, false, ◌&&◌, ◌||◌, not, Option, none, some, List, [], ◌∷◌, ◌++◌, Result, ok, err,
  is_some, is_some_and, and_then, ok_or, ◌>>=◌, ◌>>◌, ensure, if◌then◌else◌, take,
}
use archetype_proxy_server.Text.{
  Str, codes, str_eq, eq_ignore_ascii_case, trim_end_matches, is_slash, strip_prefix, starts_with,
}
use archetype_proxy_server.Config.Route.{Route, RouteTable, select}
use archetype_proxy_server.Proxy.Types.{Headers, header, Request, Response}

-- `to_str` of a header's value is a parameter. The name of the header is that of the SDK, which
-- src/ws.rs quotes as `Attest-Base-ID`; a `HeaderMap` has it in lower case.
unfoldable pub is_attested_ws_upgrade : (List ℕ → Option Str) → Request → Bool
unfolding str_eq header eq_ignore_ascii_case
is_attested_ws_upgrade to_str req =
    if not (str_eq req.method (codes "GET"))
    then false
    else is_some_and (λ v. eq_ignore_ascii_case v (codes "websocket"))
        (and_then (header (codes "upgrade") req.headers) to_str)
      && is_some (header (codes "attest-base-id") req.headers)

abbrev pub query_suffix : Option Str → Str
query_suffix none = []
query_suffix (some q) = b'?' ∷ q

-- The base of the URL, by the prefixes that the source tries in turn.
abbrev ws_base : (base upstream : Str) → (https http : Option Str) → Result Str Str
ws_base base upstream (some rest) http = ok (codes "wss://" ++ rest)
ws_base base upstream none (some rest) = ok (codes "ws://" ++ rest)
ws_base base upstream none none =
    if starts_with base (codes "ws://") || starts_with base (codes "wss://")
    then ok base
    else err (codes "unsupported upstream scheme: " ++ upstream)

unfoldable pub build_upstream_ws_url : Str → Str → Option Str → Result Str Str
build_upstream_ws_url upstream path query = do
  let base = trim_end_matches is_slash upstream
  front ←
      ws_base base upstream (strip_prefix base (codes "https://"))
        (strip_prefix base (codes "http://"))
  ok (front ++ path ++ query_suffix query)

-- `WsRequestMeta`
pub record WsRequestMeta : Type 0 where
  pub host : Str
  pub path : Str
  pub query : Option Str
  pub base_id : Option Str

-- `WsKeys`, without the algorithm, which is the SDK's value.
pub record WsKeys (A : Type 0) : Type 0 where
  pub server_write_key : List ℕ
  pub server_write_iv : List ℕ
  pub client_write_key : List ℕ
  pub client_write_iv : List ℕ
  pub algorithm : A

-- The session registry of the SDK.
pub record Sessions : Type 1 where
  pub AtbId : Type 0
  pub AttestSession : Type 0
  pub Algorithm : Type 0
  pub parse : Str → Option AtbId
  pub get : AtbId → Option AttestSession
  pub is_alive : AttestSession → Bool
  -- the bytes of the session's id
  pub id : AttestSession → List ℕ
  pub cipher_suite_to_aead : AttestSession → Algorithm
  -- `peek_keys`: the server's key and initial vector, then the client's
  pub peek_keys : AttestSession → Option (List ℕ × List ℕ × List ℕ × List ℕ)

-- An upgrade: the URL that is dialled, the keys and the associated data.
pub record Upgraded (A : Type 0) : Type 0 where
  pub url : Str
  pub keys : WsKeys A
  pub aad : List ℕ

module _ (s : Sessions) where
  abbrev keys_of :
      s.Algorithm → Option (List ℕ × List ℕ × List ℕ × List ℕ) → Option (WsKeys s.Algorithm)
  keys_of algorithm none = none
  keys_of algorithm (some (server_key, server_iv, client_key, client_iv)) = some (record {
    server_write_key = server_key;
    server_write_iv = take 12 server_iv;
    client_write_key = client_key;
    client_write_iv = take 12 client_iv;
    algorithm = algorithm;
  })

  unfoldable pub from_session : s.AttestSession → Option (WsKeys s.Algorithm)
  from_session session = keys_of (s.cipher_suite_to_aead session) (s.peek_keys session)

  unfoldable pub session_aad : s.AttestSession → List ℕ
  session_aad session = codes "openhttpa:" ++ s.id session

  abbrev plain : ℕ → Str → Response
  plain status message = record { status = status; message = message }

  abbrev url_response : Result Str Str → Result Response Str
  url_response (ok url) = ok url
  url_response (err e) = err (plain 502 (codes "invalid upstream WS target"))

  unfoldable pub ws_upgrade_handler :
      RouteTable → WsRequestMeta → Result Response (Upgraded s.Algorithm)
  ws_upgrade_handler table meta = do
    id ←
        ok_or (and_then meta.base_id s.parse)
          (plain 401 (codes "attest-base-id header missing or invalid"))
    session ← ok_or (s.get id) (plain 401 (codes "AtB session not found or expired"))
    ensure (s.is_alive session) (plain 401 (codes "AtB session not in attested state"))
    route ← ok_or (select table meta.host meta.path) (plain 404 (codes "no route matched"))
    url ← url_response (build_upstream_ws_url route.upstream meta.path meta.query)
    keys ← ok_or (from_session session) (plain 401 (codes "session keys unavailable"))
    ok (record { url = url; keys = keys; aad = session_aad session })
