-- ===== src/Proxy/Decrypt.antt =====
-- `DecryptedRequest::from_request` of src/proxy.rs.
pub mod Bytes
pub mod Authentic
use archetype_proxy_server.Prelude.{
  ℕ, zero, suc, ◌+◌, ◌*◌, ◌-◌, ◌/◌, ◌%◌, ◌^◌, min, bit_xor, Bool, true, false, not, Option, none,
  some, List, [], ◌∷◌, ◌++◌, Result, ok, err, ok_or, ◌>>=◌, ◌>>◌, ensure, take, drop, is_empty,
  unwrap_or, and_then, if◌then◌else◌,
}
use archetype_proxy_server.Text.{Str, codes, u64_bound}
use archetype_proxy_server.Metrics.{Metrics, inc_decrypt_failures}
use archetype_proxy_server.Proxy.Types.{
  Headers, header, Response, Request, TicketError, missing, malformed, Sdk,
}

-- `usize::saturating_add` and `usize::saturating_mul`, on 64 bits
abbrev pub usize_max : ℕ
usize_max = u64_bound - 1

abbrev pub saturating_add : ℕ → ℕ → ℕ
saturating_add a b = min (a + b) usize_max

abbrev saturating_mul : ℕ → ℕ → ℕ
saturating_mul a b = min (a * b) usize_max

-- The cap on the encrypted envelope.
unfoldable pub pre_decrypt_cap : ℕ → ℕ
pre_decrypt_cap max_body_bytes =
    saturating_add (saturating_mul (saturating_add max_body_bytes 16) 2) 64

-- `n.to_be_bytes()`, the bytes of the low `k` ones, the highest first
unfoldable pub be_bytes : ℕ → ℕ → List ℕ
be_bytes zero n = []
be_bytes (suc k) n = n / 256 ^ k % 256 ∷ be_bytes k n

unfoldable pub xor_bytes : List ℕ → List ℕ → List ℕ
xor_bytes [] ys = []
xor_bytes (x ∷ xs) [] = x ∷ xs
xor_bytes (x ∷ xs) (y ∷ ys) = bit_xor x y ∷ xor_bytes xs ys

-- The nonce of a message: its counter is laid over the last eight bytes of the initial vector.
unfoldable pub nonce_bytes : List ℕ → ℕ → List ℕ
unfolding be_bytes xor_bytes
nonce_bytes iv n = take 4 iv ++ xor_bytes (drop 4 iv) (be_bytes 8 n)

abbrev plain : ℕ → Str → Response
plain status message = record { status = status; message = message }

module _ (sdk : Sdk) where
  open sdk use {Session, Keys}

  pub record DecryptedRequest : Type 0 where
    pub session : Session
    pub method : Str
    pub path : Str
    pub query : Option Str
    pub host : Str
    pub body : List ℕ

  -- What is at hand before the keys are asked for.
  pub record Prepared : Type 0 where
    pub session : Session
    pub nonce : ℕ
    pub mac : List ℕ
    pub ciphertext : List ℕ
    pub path : Str
    pub query : Option Str
    pub authority : Str

  abbrev ticket_response : Result TicketError (ℕ × List ℕ) → Result Response (ℕ × List ℕ)
  ticket_response (ok ticket) = ok ticket
  ticket_response (err missing) = err (plain 401 (codes "Invalid Attest-Ticket format"))
  ticket_response (err malformed) = err (plain 400 (codes "Invalid Attest-Ticket format"))

  -- The path and the query as the client saw them.
  abbrev request_path : Request → Str
  request_path req = elim req.original_uri [ none ↦ req.uri_path | some u ↦ u.0 ]

  abbrev request_query : Request → Option Str
  request_query req = elim req.original_uri [ none ↦ req.uri_query | some u ↦ u.1 ]

  -- The authority of the URI, or the Host header.
  abbrev request_authority : Request → Str
  request_authority req = elim req.uri_authority [
    | some a ↦ a
    | none ↦ unwrap_or (and_then (header (codes "host") req.headers) sdk.to_str) []
  ]

  unfoldable pub prepare : ℕ → Request → Result Response Prepared
  unfolding header pre_decrypt_cap
  prepare max_body_bytes req = do
    session ← sdk.session_of req
    ticket ← ticket_response (sdk.decode_attest_ticket req.headers)
    bytes ←
        ok_or (sdk.to_bytes req.body (pre_decrypt_cap max_body_bytes))
          (plain 413 (codes "Encrypted request envelope too large"))
    parsed ← ok_or (sdk.envelope bytes) (plain 400 (codes "Invalid request envelope"))
    ciphertext ← ok_or (sdk.hex_decode parsed) (plain 400 (codes "Invalid ciphertext hex"))
    ensure (not (is_empty (request_authority req)))
        (plain 400 (codes "Missing Host / authority header — required for AHL integrity"))
    ok (record {
      session = session;
      nonce = ticket.0;
      mac = ticket.1;
      ciphertext = ciphertext;
      path = request_path req;
      query = request_query req;
      authority = request_authority req;
    })

  abbrev ahl_response : Result Str (List ℕ) → Result Response (List ℕ)
  ahl_response (ok bytes) = ok bytes
  ahl_response (err e) = err (plain 400 (codes "AHL error: " ++ e))

  -- The closure that `with_keys_for_trr` runs: first the MAC, then the body.
  unfoldable pub open_request : Request → Prepared → Keys → Result Response (List ℕ)
  unfolding nonce_bytes be_bytes
  open_request req p keys = do
    ensure (sdk.hmac_init keys) (plain 500 (codes "HMAC init failed"))
    covered ← ahl_response (sdk.ahl req.method p.path p.query p.authority req.headers)
    ensure (sdk.verify_mac keys (be_bytes 8 p.nonce ++ covered) p.mac)
        (plain 401 (codes "Invalid header MAC"))
    ensure (sdk.key_setup keys) (plain 500 (codes "Key setup failed"))
    ok_or
        (sdk.open_body keys (nonce_bytes (sdk.client_write_iv keys) p.nonce) (sdk.aad p.session)
          p.ciphertext)
        (plain 400 (codes "Decryption failed"))

  unfoldable pub decrypt : Request → Prepared → Result Response (List ℕ)
  decrypt req p = elim (sdk.keys_for_trr p.session p.nonce) [
    | err e ↦ err (plain 401 e)
    | ok keys ↦ open_request req p keys
  ]

  -- The method in the header that the MAC covers, else the method on the wire.
  unfoldable pub real_method : Request → Str
  unfolding header
  real_method req =
      unwrap_or
        (and_then (and_then (header (codes "attest-real-method") req.headers) sdk.to_str)
          sdk.method_of)
        req.method

  unfoldable pub from_request : ℕ → Metrics → Request → Metrics × Result Response DecryptedRequest
  from_request max_body_bytes metrics req = elim (prepare max_body_bytes req) [
    | err response ↦ (metrics, err response)
    | ok p ↦ elim (decrypt req p) [
      | err response ↦ (inc_decrypt_failures metrics, err response)
      | ok plaintext ↦ (
        metrics,
        ok (record {
          session = p.session;
          method = real_method req;
          path = p.path;
          query = p.query;
          host = p.authority;
          body = plaintext;
        }),
      )
    ]
  ]
