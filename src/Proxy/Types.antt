-- ===== src/Proxy/Types.antt =====
-- Requests, responses and frames, and what src/proxy.rs takes from the crates openhttpa, axum,
-- http, hmac and reqwest.
use archetype_proxy_server.Prelude.{
  ℕ, Bool, Option, none, some, List, [], ◌∷◌, Result, if◌then◌else◌,
}
use archetype_proxy_server.Text.{Str, str_eq}

-- `HeaderMap`: names are in lower case. A value is its bytes.
abbrev pub Headers : Type 0
Headers = List (Str × List ℕ)

-- `HeaderMap::get` returns the first value of a name.
unfoldable pub header : Str → Headers → Option (List ℕ)
unfolding str_eq
header name [] = none
header name ((k, v) ∷ more) = if str_eq k name then some v else header name more

-- A response in plain text, by its status code and its message.
pub record Response : Type 0 where
  pub status : ℕ
  pub message : Str

pub record Request : Type 0 where
  pub method : Str
  pub uri_path : Str
  pub uri_query : Option Str
  pub uri_authority : Option Str
  -- the extension `OriginalUri`: its path and its query
  pub original_uri : Option (Str × Option Str)
  pub headers : Headers
  pub body : List ℕ

-- `StreamFrame` of src/envelope.rs
pub data StreamFrame : Type 0 where
  head : (status : ℕ) (headers : List (Str × Str)) → StreamFrame
  body : List ℕ → StreamFrame

-- An item of the stream that is sealed: a frame, or `LlmError::Transport`.
abbrev pub Item : Type 0
Item = Result Str StreamFrame

-- `TrailerError`, of which the source tells one case apart.
pub data TicketError : Type 0 where
  missing malformed : TicketError

-- The calls of other crates.
pub record Sdk : Type 1 where
  pub Session : Type 0
  pub Keys : Type 0
  -- `OpenHttpaSession::from_request_parts`
  pub session_of : Request → Result Response Session
  pub decode_attest_ticket : Headers → Result TicketError (ℕ × List ℕ)
  -- `axum::body::to_bytes(body, limit)`
  pub to_bytes : List ℕ → ℕ → Option (List ℕ)
  -- `serde_json::from_slice::<CiphertextBody>`, its one field
  pub envelope : List ℕ → Option Str
  pub hex_decode : Str → Option (List ℕ)
  -- `HeaderValue::to_str`
  pub to_str : List ℕ → Option Str
  -- `Method::from_bytes`
  pub method_of : Str → Option Str
  -- `with_keys_for_trr`: the keys that the closure is run on, or the error
  pub keys_for_trr : Session → ℕ → Result Str Keys
  -- whether `Hmac::new_from_slice` takes the MAC key
  pub hmac_init : Keys → Bool
  -- `update_ahl`: the bytes that it feeds to the MAC
  pub ahl : (method path : Str) → Option Str → (authority : Str) → Headers → Result Str (List ℕ)
  -- `verify_slice` of the message against the MAC
  pub verify_mac : Keys → List ℕ → List ℕ → Bool
  -- twelve bytes
  pub client_write_iv : Keys → List ℕ
  -- whether `BoundAeadKey::new` takes the key
  pub key_setup : Keys → Bool
  pub aad : Session → List ℕ
  -- `BoundAeadKey::open` by nonce, associated data and ciphertext
  pub open_body : Keys → List ℕ → List ℕ → List ℕ → Option (List ℕ)

-- The upstream's answer; a chunk that could not be read is `none`.
pub record UpstreamResponse : Type 0 where
  pub status : ℕ
  pub headers : Headers
  pub content_length : Option ℕ
  pub chunks : List (Option (List ℕ))

-- One request to an upstream.
pub record Call : Type 0 where
  pub method : Str
  pub url : Str
  pub body : List ℕ

-- `reqwest`: the answer to a call or whether it timed out, and the nanoseconds that passed.
pub record Http : Type 0 where
  pub to_str : List ℕ → Option Str
  pub method_of : Str → Option Str
  pub send : Call → Result Bool UpstreamResponse
  pub elapsed : Call → ℕ
