-- ===== src/Ws/Upgrade/Accepted.antt =====
-- When an upgrade is accepted.
use archetype_proxy_server.Prelude.{
  ℕ, ◌≡◌, refl, ap, ◌∙◌, inl, inr, Option, none, List, ◌++◌, take, Option-cases, arith, ◌↔◌, true,
  some, Result, ok, err, ok_or, ensure, ok_or-eq-ok, ensure-eq-ok, and_then, >>=-eq-ok,
}
use archetype_proxy_server.Text.{Str, codes}
use archetype_proxy_server.Config.Route.{Route, RouteTable, select}
use archetype_proxy_server.Ws.Upgrade.Url.{IsDialled, build_upstream_ws_url_iff}
use archetype_proxy_server.Ws.Upgrade.{
  Sessions, WsKeys, keys_of, WsRequestMeta, Upgraded, ws_upgrade_handler, from_session, session_aad,
  build_upstream_ws_url, url_response,
}

module _ (s : Sessions) where
  -- The keys of an upgrade: those of the session, the initial vectors cut to twelve bytes.
  pub record HasKeys (session : s.AttestSession) (keys : WsKeys s.Algorithm) : Type 0 where
    pub server_iv : List ℕ
    pub client_iv : List ℕ
    pub peeked :
        s.peek_keys session
        ≡ some (keys.server_write_key, server_iv, keys.client_write_key, client_iv)
    pub server_cut : keys.server_write_iv ≡ take 12 server_iv
    pub client_cut : keys.client_write_iv ≡ take 12 client_iv
    pub cipher : keys.algorithm ≡ s.cipher_suite_to_aead session

  from_session_sound :
      (session : s.AttestSession) (keys : WsKeys s.Algorithm)
      → from_session s session ≡ some keys
      → HasKeys session keys
  unfolding from_session
  from_session_sound session keys h = elim (Option-cases (s.peek_keys session)) [
    | inl e ↦ absurd (ground arith)
    | inr ((server_key, server_iv, client_key, client_iv), e) ↦
        let made : WsKeys s.Algorithm = record {
          server_write_key = server_key;
          server_write_iv = take 12 server_iv;
          client_write_key = client_key;
          client_write_iv = take 12 client_iv;
          algorithm = s.cipher_suite_to_aead session;
        } in
        let computed : from_session s session ≡ some made =
          ap (keys_of s (s.cipher_suite_to_aead session)) e in
        let same : made ≡ keys = cc in
        rw (← same) (record {
          server_iv = server_iv;
          client_iv = client_iv;
          peeked = e;
          server_cut = refl;
          client_cut = refl;
          cipher = refl;
        })
  ]

  from_session_complete :
      (session : s.AttestSession) (keys : WsKeys s.Algorithm)
      → HasKeys session keys
      → from_session s session ≡ some keys
  unfolding from_session
  from_session_complete session keys h =
      ap (keys_of s (s.cipher_suite_to_aead session)) h.peeked
      ∙ rw (← h.server_cut, ← h.client_cut, ← h.cipher) refl

  -- A live session, a route whose upstream has a scheme that can be dialled, and the URL, the keys
  -- and the associated data that they give.
  pub record IsGranted (table : RouteTable) (meta : WsRequestMeta) (u : Upgraded s.Algorithm)
      : Type 0 where
    pub text : Str
    pub id : s.AtbId
    pub session : s.AttestSession
    pub route : Route
    pub named : meta.base_id ≡ some text
    pub parsed : s.parse text ≡ some id
    pub known : s.get id ≡ some session
    pub alive : s.is_alive session ≡ true
    pub selected : select table meta.host meta.path ≡ some route
    pub dialled : IsDialled route.upstream meta.path meta.query u.url
    pub keys : HasKeys session u.keys
    pub aad : u.aad ≡ codes "openhttpa:" ++ s.id session

  url_response-eq-ok : (r : Result Str Str) {u : Str} → url_response s r ≡ ok u → r ≡ ok u
  url_response-eq-ok (ok v) h = cc
  url_response-eq-ok (err e) h = cc

  named_id :
      (o : Option Str) {id : s.AtbId}
      → and_then o s.parse ≡ some id
      → (text : Str) × (o ≡ some text) × (s.parse text ≡ some id)
  named_id none h = absurd cc
  named_id (some text) h = (text, refl, h)

  ws_upgrade_handler_sound :
      (table : RouteTable) (meta : WsRequestMeta) (u : Upgraded s.Algorithm)
      → ws_upgrade_handler s table meta ≡ ok u
      → IsGranted table meta u
  unfolding ws_upgrade_handler session_aad
  ws_upgrade_handler_sound table meta u h =
      let (id, parsed, h₁) = >>=-eq-ok (ok_or (and_then meta.base_id s.parse) _) _ h in
      let (session, known, h₂) = >>=-eq-ok (ok_or (s.get id) _) _ h₁ in
      let (_, alive, h₃) = >>=-eq-ok (ensure (s.is_alive session) _) _ h₂ in
      let (route, selected, h₄) = >>=-eq-ok (ok_or (select table meta.host meta.path) _) _ h₃ in
      let (url, built, h₅) =
        >>=-eq-ok (url_response s (build_upstream_ws_url route.upstream meta.path meta.query)) _
          h₄ in
      let (keys, derived, h₆) = >>=-eq-ok (ok_or (from_session s session) _) _ h₅ in
      let same : record { url = url; keys = keys; aad = session_aad s session } ≡ u = cc in
      let (text, named, read) = named_id meta.base_id (ok_or-eq-ok _ _ parsed) in
      rw (← same) (record {
        text = text;
        id = id;
        session = session;
        route = route;
        named = named;
        parsed = read;
        known = ok_or-eq-ok _ _ known;
        alive = ensure-eq-ok _ _ alive;
        selected = ok_or-eq-ok _ _ selected;
        dialled =
            (build_upstream_ws_url_iff route.upstream meta.path meta.query url).0
              (url_response-eq-ok _ built);
        keys = from_session_sound session keys (ok_or-eq-ok _ _ derived);
        aad = refl;
      })

  ws_upgrade_handler_complete :
      (table : RouteTable) (meta : WsRequestMeta) (u : Upgraded s.Algorithm)
      → IsGranted table meta u
      → ws_upgrade_handler s table meta ≡ ok u
  unfolding ws_upgrade_handler session_aad
  ws_upgrade_handler_complete table meta u g =
      let built =
        (build_upstream_ws_url_iff g.route.upstream meta.path meta.query u.url).1 g.dialled in
      let derived = from_session_complete g.session u.keys g.keys in
      rw (g.named, g.parsed, g.known, g.alive, g.selected, built, derived, g.aad) refl

  -- An upgrade is accepted exactly where the request names a session that is known and alive, a
  -- route is selected whose upstream begins with one of the four schemes, and the session gives
  -- its keys; it is then dialled at the upstream's base in the scheme of a WebSocket, with the path
  -- and the query of the request, under those keys and the associated data of the session.
  pub ws_upgrade_handler_iff :
      (table : RouteTable) (meta : WsRequestMeta) (u : Upgraded s.Algorithm)
      → (ws_upgrade_handler s table meta ≡ ok u) ↔ IsGranted table meta u
  ws_upgrade_handler_iff table meta u =
      (ws_upgrade_handler_sound table meta u, ws_upgrade_handler_complete table meta u)
