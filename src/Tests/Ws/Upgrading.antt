-- ===== src/Tests/Ws/Upgrading.antt =====
-- Runs of the upgrade in src/ws.rs.
use archetype_proxy_server.Prelude.{◌≡◌, ◌↔◌, true, none, some, [], ◌∷◌, ok}
use archetype_proxy_server.Text.{Str, codes}
use archetype_proxy_server.Config.Kinds.{Source}
use archetype_proxy_server.Config.Route.{RouteTable, new}
use archetype_proxy_server.Ws.Upgrade.{Sessions, WsRequestMeta, Upgraded, ws_upgrade_handler}
use archetype_proxy_server.Ws.Upgrade.Accepted.{IsGranted, ws_upgrade_handler_iff}

-- One session, under every id.
abbrev one_session : Sessions
one_session = record {
  AtbId = Str;
  AttestSession = Unit {0};
  Algorithm = Unit {0};
  parse = λ text. some text;
  get = λ id. some tt;
  is_alive = λ session. true;
  id = λ session. codes "1";
  cipher_suite_to_aead = λ session. tt;
  peek_keys = λ session. some (1 ∷ [], 2 ∷ [], 3 ∷ [], 4 ∷ []);
}

abbrev table : RouteTable
table = new (
    record {
      name = codes "api";
      host = [];
      path_prefix = codes "/ws";
      upstream = codes "http://api:8080/";
      strict_attestation = none;
      source = Source.file;
    }
    ∷ [])

abbrev meta : WsRequestMeta
meta = record { host = codes "api"; path = codes "/ws"; query = none; base_id = some (codes "1") }

abbrev upgraded : Upgraded (Unit {0})
upgraded = record {
  url = codes "ws://api:8080/ws";
  keys = record {
    server_write_key = 1 ∷ [];
    server_write_iv = 2 ∷ [];
    client_write_key = 3 ∷ [];
    client_write_iv = 4 ∷ [];
    algorithm = tt;
  };
  aad = codes "openhttpa:1";
}

ws_upgrade_handler_iff_example :
    (ws_upgrade_handler one_session table meta ≡ ok upgraded)
    ↔ IsGranted one_session table meta upgraded
ws_upgrade_handler_iff_example = ws_upgrade_handler_iff one_session table meta upgraded
