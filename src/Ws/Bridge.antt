-- ===== src/Ws/Bridge.antt =====
-- `run_bridge` of src/ws.rs: the loop of each direction, over the messages that its socket receives
-- until it ends. Which of the two ends the bridge is the choice of `select!`.
pub mod Inbound
use archetype_proxy_server.Prelude.{
  ℕ, Bool, true, false, Option, none, some, List, [], ◌∷◌, ◌++◌, Result, ok, err, length, ltb,
  if◌then◌else◌,
}
use archetype_proxy_server.Text.{Str, codes, len}
use archetype_proxy_server.Ws.Frame.{
  Aead, InPayload, max_ws_frame, msg_text, msg_binary, decode_inbound, encode_outbound,
}

-- The messages of axum and of tungstenite. `raw` is `UpMessage::Frame`.
pub data Message : Type 0 where
  text : Str → Message
  binary ping pong : List ℕ → Message
  close raw : Message

-- What an iteration does with the message received: nothing, send one, close, or return an error.
pub data Handling (S : Type 0) : Type 0 where
  skip closing : Handling S
  forward : S → Message → (context : Str) → Handling S
  stop : Str → Handling S

-- How a loop ends, and the messages that it sent.
pub record Pump : Type 0 where
  pub sent : List Message
  pub outcome : Result Str (Unit {0})

abbrev after : Message → Pump → Pump
after m p = record { sent = m ∷ p.sent; outcome = p.outcome }

abbrev closed : Option Str → Pump
closed none = record { sent = Message.close ∷ []; outcome = ok tt }
closed (some e) = record { sent = []; outcome = ok tt }

-- A loop by its body. `send` is the sink, which fails or not on what was sent before.
module _ {S : Type 0} (send : List Message → Message → Option Str)
    (handle : S → Result Str Message → Handling S) where
  unfoldable pub pump : S → List Message → List (Result Str Message) → Pump
  pump s before [] = record { sent = []; outcome = ok tt }
  pump s before (m ∷ more) = elim (handle s m) [
    | skip ↦ pump s before more
    | closing ↦ closed (send before Message.close)
    | stop e ↦ record { sent = []; outcome = err e }
    | forward next out context ↦ elim (send before out) [
      | none ↦ after out (pump next (before ++ out ∷ []) more)
      | some e ↦ record { sent = []; outcome = err (context ++ e) }
    ]
  ]

module _ (aead : Aead) where
  open aead use {SealKey, OpenKey}

  -- `InPayload` as the upstream's message
  abbrev pub message : InPayload → Message
  message (InPayload.text t) = Message.text t
  message (InPayload.binary b) = Message.binary b

  abbrev relay : ℕ × Result Str InPayload → Handling ℕ
  relay (last, ok p) = forward last (message p) (codes "upstream send failed: ")
  relay (last, err e) = stop e

  -- The body of `client_to_upstream`: its state is the last counter.
  unfoldable pub on_client : OpenKey → (iv aad : List ℕ) → ℕ → Result Str Message → Handling ℕ
  on_client key iv aad last (err e) = stop (codes "client WS recv error: " ++ e)
  on_client key iv aad last (ok (Message.binary bytes)) =
      if ltb max_ws_frame (length bytes)
      then stop (codes "inbound WS frame exceeds cap")
      else relay (decode_inbound aead bytes key iv aad last)
  on_client key iv aad last (ok (Message.ping p)) =
      forward last (Message.ping p) (codes "upstream ping failed: ")
  on_client key iv aad last (ok (Message.pong p)) =
      forward last (Message.pong p) (codes "upstream pong failed: ")
  on_client key iv aad last (ok Message.close) = closing
  on_client key iv aad last (ok (Message.text t)) = skip
  on_client key iv aad last (ok Message.raw) = skip

  unfoldable pub client_to_upstream :
      (List Message → Message → Option Str)
      → OpenKey
      → (iv aad : List ℕ) → List (Result Str Message)
      → Pump
  client_to_upstream send key iv aad messages = pump send (on_client key iv aad) 0 [] messages

  abbrev seal : SealKey × Result Str (List ℕ) → Handling SealKey
  seal (key, ok frame) = forward key (Message.binary frame) (codes "client send failed: ")
  seal (key, err e) = stop e

  -- The body of `upstream_to_client`: its state is the key, which counts its nonces.
  unfoldable pub on_upstream : List ℕ → SealKey → Result Str Message → Handling SealKey
  unfolding len
  on_upstream aad key (err e) = stop (codes "upstream WS recv error: " ++ e)
  on_upstream aad key (ok (Message.text t)) =
      if ltb max_ws_frame (len t)
      then stop (codes "upstream text frame exceeds cap")
      else seal (encode_outbound aead msg_text (aead.as_bytes t) key aad)
  on_upstream aad key (ok (Message.binary b)) =
      if ltb max_ws_frame (length b)
      then stop (codes "upstream binary frame exceeds cap")
      else seal (encode_outbound aead msg_binary b key aad)
  on_upstream aad key (ok (Message.ping p)) =
      forward key (Message.ping p) (codes "client ping failed: ")
  on_upstream aad key (ok (Message.pong p)) =
      forward key (Message.pong p) (codes "client pong failed: ")
  on_upstream aad key (ok Message.close) = closing
  on_upstream aad key (ok Message.raw) = skip

  unfoldable pub upstream_to_client :
      (List Message → Message → Option Str) → SealKey → List ℕ → List (Result Str Message) → Pump
  upstream_to_client send key aad messages = pump send (on_upstream aad) key [] messages
