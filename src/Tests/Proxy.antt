-- ===== src/Tests/Proxy.antt =====
-- Runs of src/proxy.rs.
pub mod Opening
use archetype_proxy_server.Prelude.{
  ℕ, ◌+◌, ◌≤◌, ◌≡◌, ◌≢◌, ◌⊎◌, inl, inr, refl, Bool, true, false, Option, none, some, List, [], ◌∷◌,
  All, any, map, Result, ok, err, arith,
}
use archetype_proxy_server.Text.{Str, codes, str_eq, split, to_ascii_lowercase, trim, is_whitespace}
use archetype_proxy_server.Config.Kinds.{Source}
use archetype_proxy_server.Config.Route.{Route, RouteTable, new}
use archetype_proxy_server.Metrics
use archetype_proxy_server.Metrics.{Metrics}
use archetype_proxy_server.Proxy.Types.{
  header, Http, Call, UpstreamResponse, Item, StreamFrame, head, body,
}
use archetype_proxy_server.Proxy.Decrypt.{pre_decrypt_cap, usize_max}
use archetype_proxy_server.Proxy.Decrypt.Bytes.{pre_decrypt_cap_bounds, envelope_size}
use archetype_proxy_server.Proxy.Forward.{
  Inbound, proxy_handler, body_frames, forwarded_headers, nominated, static_hop_by_hop,
  nominated_in,
}
use archetype_proxy_server.Proxy.Forward.Stream.{payload, payload-body_frames, body_frames_within}
use archetype_proxy_server.Proxy.Forward.Headers.{
  forwarded_headers-ne, nominated_by, forwarded_headers-second_connection,
}
use archetype_proxy_server.Proxy.Forward.Handler.{
  proxy_handler-calls, proxy_handler-IsFramed, IsCall, IsFramed, IsRefused, IsCounted,
}

-- An upstream that answers every call alike.
abbrev echo : Http
echo = record {
  to_str = λ bytes. some bytes;
  method_of = λ name. some name;
  send = λ call. ok (record {
    status = 200;
    headers = (codes "x-id", codes "7") ∷ [];
    content_length = some 3;
    chunks = some (1 ∷ 2 ∷ []) ∷ some (3 ∷ []) ∷ [];
  });
  elapsed = λ call. 1000;
}

abbrev table : RouteTable
table = new (
    record {
      name = codes "api";
      host = [];
      path_prefix = codes "/v1";
      upstream = codes "http://api:8080/";
      strict_attestation = none;
      source = Source.file;
    }
    ∷ [])

abbrev inbound : Inbound
inbound = record {
  method = codes "POST";
  path = codes "/v1/chat";
  query = some (codes "a=b");
  host = codes "api.internal";
  body = 5 ∷ 6 ∷ [];
}

proxy_handler-calls_example :
    (IsRefused echo 4 table inbound
      × ((proxy_handler echo 4 table Metrics.new inbound).calls ≡ [])
      × ((proxy_handler echo 4 table Metrics.new inbound).metrics ≡ Metrics.new))
    ⊎ ((call : Call) × IsCall echo 4 table inbound call
        × ((proxy_handler echo 4 table Metrics.new inbound).calls ≡ call ∷ [])
        × IsCounted echo call Metrics.new (proxy_handler echo 4 table Metrics.new inbound).metrics)
proxy_handler-calls_example = proxy_handler-calls echo 4 table Metrics.new inbound

proxy_handler-IsFramed_example :
    IsFramed echo 4 (proxy_handler echo 4 table Metrics.new inbound).items
proxy_handler-IsFramed_example =
    proxy_handler-IsFramed echo 4 table Metrics.new inbound (omega arith)

abbrev chunks : List (List ℕ)
chunks = (1 ∷ 2 ∷ []) ∷ (3 ∷ []) ∷ []

payload-body_frames_example : 0 + payload (body_frames 2 0 (map some chunks)) ≤ 2
payload-body_frames_example = payload-body_frames 2 0 (map some chunks) (omega arith) (omega arith)

-- The headers of an upstream that nominates one of them.
abbrev headers : List (Str × List ℕ)
headers =
    (codes "connection", codes "close, X-Secret ")
    ∷ (codes "x-secret", codes "1")
    ∷ (codes "te", codes "t")
    ∷ (codes "x-id", codes "7")
    ∷ []

-- The first Connection header names `X-Secret` in capitals, between spaces.
forwarded_headers-ne_example : All (λ h. h.0 ≢ codes "x-secret") (forwarded_headers echo headers)
unfolding header str_eq to_ascii_lowercase is_whitespace
forwarded_headers-ne_example = forwarded_headers-ne echo headers (codes "x-secret") (
    nominated_by (codes "close,") (codes " ") (codes "X-Secret") (codes " ") [] refl
      (inr (codes "close", refl)) (inl refl) (refl, tt) (refl, tt)
      (refl, (refl, (refl, (refl, (refl, (refl, (refl, (refl, tt))))))))
      (refl, (refl, (refl, (refl, (refl, (refl, (refl, (refl, tt)))))))) refl refl)

forwarded_headers-second_connection_example :
    forwarded_headers echo (
      (codes "connection", codes "close")
      ∷ (codes "connection", codes "x-secret")
      ∷ (codes "x-secret", codes "1")
      ∷ [])
    ≡ (codes "x-secret", codes "1") ∷ []
unfolding str_eq split to_ascii_lowercase trim
forwarded_headers-second_connection_example =
    forwarded_headers-second_connection echo (codes "close") (codes "x-secret") (codes "1")
      (codes "close") (codes "x-secret") (codes "1") refl refl refl refl
