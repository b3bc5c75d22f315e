-- ===== src/Tests/Proxy/Opening.antt =====
-- Runs of `DecryptedRequest::from_request`, with ciphers that do nothing and a MAC that is its
-- message's length.
use archetype_proxy_server.Prelude.{ℕ, ◌≡◌, ◌⊎◌, refl, true, none, some, [], ◌∷◌, length, ok, err}
use archetype_proxy_server.Text.{codes, str_eq}
use archetype_proxy_server.Metrics
use archetype_proxy_server.Metrics.{Metrics, inc_decrypt_failures}
use archetype_proxy_server.Proxy.Types.{Sdk, Request, Response, header}
use archetype_proxy_server.Proxy.Decrypt.{
  DecryptedRequest, Prepared, prepare, from_request, real_method, decrypt, open_request, be_bytes,
}
use archetype_proxy_server.Proxy.Decrypt.Authentic.{
  IsAuthentic, from_request-IsAuthentic, from_request-refused, IsBlind, IsVerified, IsOpening,
}

-- A ticket of nonce 1 whose MAC is one number, the length of the message that it vouches for.
abbrev toy : ℕ → Sdk
toy mac = record {
  Session = Unit {0};
  Keys = Unit {0};
  session_of = λ req. ok tt;
  decode_attest_ticket = λ headers. ok (1, mac ∷ []);
  to_bytes = λ bytes limit. some bytes;
  envelope = λ bytes. some bytes;
  hex_decode = λ text. some text;
  to_str = λ bytes. some bytes;
  method_of = λ name. some name;
  keys_for_trr = λ session nonce. ok tt;
  hmac_init = λ keys. true;
  ahl = λ method path query authority headers. ok path;
  verify_mac = λ keys message mac. str_eq (length message ∷ []) mac;
  client_write_iv = λ keys. 0 ∷ 0 ∷ 0 ∷ 0 ∷ 0 ∷ 0 ∷ 0 ∷ 0 ∷ 0 ∷ 0 ∷ 0 ∷ 0 ∷ [];
  key_setup = λ keys. true;
  aad = λ session. [];
  open_body = λ keys nonce aad ciphertext. some ciphertext;
}

abbrev request : Request
request = record {
  method = codes "POST";
  uri_path = codes "/v1";
  uri_query = none;
  uri_authority = none;
  original_uri = none;
  headers = (codes "host", codes "api") ∷ [];
  body = 7 ∷ 8 ∷ [];
}

abbrev opened : DecryptedRequest (toy 11)
opened = record {
  session = tt;
  method = codes "POST";
  path = codes "/v1";
  query = none;
  host = codes "api";
  body = 7 ∷ 8 ∷ [];
}

from_request-IsAuthentic_example : IsAuthentic (toy 11) request opened × (Metrics.new ≡ Metrics.new)
unfolding from_request prepare decrypt open_request real_method str_eq header
from_request-IsAuthentic_example =
    from_request-IsAuthentic (toy 11) 1024 Metrics.new Metrics.new request opened refl

-- The MAC is of another message.
abbrev rejected : Response
rejected = record { status = 401; message = codes "Invalid header MAC" }

from_request-refused_example :
    ((prepare (toy 12) 1024 request ≡ err rejected)
      × (inc_decrypt_failures Metrics.new ≡ Metrics.new))
    ⊎ ((p : Prepared (toy 12)) × (prepare (toy 12) 1024 request ≡ ok p)
        × (inc_decrypt_failures Metrics.new ≡ inc_decrypt_failures Metrics.new)
        × (IsBlind (toy 12) rejected
            ⊎ (IsVerified (toy 12) request p × IsOpening (toy 12) rejected)))
unfolding from_request prepare decrypt open_request str_eq header be_bytes
from_request-refused_example =
    from_request-refused (toy 12) 1024 Metrics.new (inc_decrypt_failures Metrics.new) request
      rejected refl
