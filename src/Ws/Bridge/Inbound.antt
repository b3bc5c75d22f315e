-- ===== src/Ws/Bridge/Inbound.antt =====
-- What reaches the upstream.
use archetype_proxy_server.Prelude.{
  ℕ, suc, ◌≤◌, ◌<◌, ◌≡◌, inl, inr, Option, List, [], ◌∷◌, ◌++◌, Result, ok, err, Result-cases,
  Bool-cases, Option-cases, length, take, ltb, arith, All, All-imp, ap, sym,
}
use archetype_proxy_server.Text.{Str}
use archetype_proxy_server.Ws.Frame.{Aead, InPayload, max_ws_frame, extract_counter, decode_inbound}
use archetype_proxy_server.Ws.Frame.Replay.{IsOpened, decode_inbound_iff}
use archetype_proxy_server.Ws.Bridge.{Message, pump, message, on_client, client_to_upstream}

-- The binary frames received.
unfoldable pub frames : List (Result Str Message) → List (List ℕ)
frames [] = []
frames (ok (Message.binary bytes) ∷ more) = bytes ∷ frames more
frames (m ∷ more) = frames more

-- The messages with a payload, among those sent.
unfoldable pub payloads : List Message → List Message
payloads [] = []
payloads (Message.text t ∷ more) = Message.text t ∷ payloads more
payloads (Message.binary b ∷ more) = Message.binary b ∷ payloads more
payloads (m ∷ more) = payloads more

module _ (aead : Aead) (key : aead.OpenKey) (iv aad : List ℕ) where
  -- Each frame opens to the message beside it, and its counter exceeds the one before.
  pub data IsAccepted : ℕ → List (List ℕ) → List Message → Type 0 where
    nothing : {last : ℕ} → IsAccepted last [] []
    accept :
        {last : ℕ} {frame : List ℕ} {p : InPayload} {rest : List (List ℕ)} {out : List Message}
        → length frame ≤ max_ws_frame
        → IsOpened aead frame key iv aad last p
        → IsAccepted (extract_counter (take 12 frame) iv) rest out
        → IsAccepted last (frame ∷ rest) (message aead p ∷ out)

  -- The counters of accepted frames are all above the last one, and ascend.
  pub IsAccepted-counters :
      {last : ℕ} {fs : List (List ℕ)} {out : List Message}
      → IsAccepted last fs out
      → All (λ f. last < extract_counter (take 12 f) iv) fs
  IsAccepted-counters nothing = tt
  IsAccepted-counters (accept small o more) =
      (o.fresh, All-imp (λ f above. omega (arith, o.fresh, above)) _ (IsAccepted-counters more))

  -- One message received, by the handling it gets.
  Claim :
      (List Message → Message → Option Str) → ℕ → List Message → List (Result Str Message) → Type 0
  Claim send last before messages =
      (k : ℕ) × IsAccepted last (take k (frames messages))
        (payloads (pump send (on_client aead key iv aad) last before messages).sent)

  -- A payload that was decoded and sent, before the rest of the run.
  sent-IsAccepted :
      (last : ℕ) (frame : List ℕ) (p : InPayload) (rest : List (List ℕ)) (out : List Message)
      → length frame ≤ max_ws_frame
      → IsOpened aead frame key iv aad last p
      → IsAccepted (extract_counter (take 12 frame) iv) rest (payloads out)
      → IsAccepted last (frame ∷ rest) (payloads (message aead p ∷ out))
  unfolding payloads
  sent-IsAccepted last frame (InPayload.text t) rest out small o more = accept small o more
  sent-IsAccepted last frame (InPayload.binary b) rest out small o more = accept small o more

  pump-IsAccepted :
      (send : List Message → Message → Option Str) (last : ℕ) (before : List Message)
      (messages : List (Result Str Message))
      → Claim send last before messages
  unfolding Claim pump on_client frames payloads
  pump-IsAccepted send last before [] = (0, nothing)
  pump-IsAccepted send last before (err e ∷ more) = (0, nothing)
  pump-IsAccepted send last before (ok (Message.text t) ∷ more) =
      pump-IsAccepted send last before more
  pump-IsAccepted send last before (ok Message.raw ∷ more) = pump-IsAccepted send last before more
  pump-IsAccepted send last before (ok Message.close ∷ more) =
      elim (Option-cases (send before Message.close)) [
        | inl sent ↦ (0, rw sent nothing)
        | inr (e, refused) ↦ (0, rw refused nothing)
      ]
  pump-IsAccepted send last before (ok (Message.ping p) ∷ more) =
      elim (Option-cases (send before (Message.ping p))) [
        | inl sent ↦
            let (k, h) = pump-IsAccepted send last (before ++ Message.ping p ∷ []) more in
            (k, rw sent h)
        | inr (e, refused) ↦ (0, rw refused nothing)
      ]
  pump-IsAccepted send last before (ok (Message.pong p) ∷ more) =
      elim (Option-cases (send before (Message.pong p))) [
        | inl sent ↦
            let (k, h) = pump-IsAccepted send last (before ++ Message.pong p ∷ []) more in
            (k, rw sent h)
        | inr (e, refused) ↦ (0, rw refused nothing)
      ]
  pump-IsAccepted send last before (ok (Message.binary bytes) ∷ more) =
      elim (Bool-cases (ltb max_ws_frame (length bytes))) [
        | inl over ↦ (0, rw (over, payloads, pump, on_client) nothing)
        | inr small ↦ elim (Result-cases (decode_inbound aead bytes key iv aad last).1) [
          | inr (e, refused) ↦
              (0, rw (small, decoded last bytes (err e) refused, payloads, pump, on_client) nothing)
          | inl (p, got) ↦
              let next : ℕ = (decode_inbound aead bytes key iv aad last).0 in
              let both = decoded last bytes (ok p) got in
              let (counter, o) = (decode_inbound_iff aead bytes key iv aad last next p).0 both in
              elim (Option-cases (send before (message aead p))) [
                | inr (e, refused) ↦
                    (0, rw (small, both, refused, payloads, pump, on_client) nothing)
                | inl sent ↦
                    let (k, h) = pump-IsAccepted send next (before ++ message aead p ∷ []) more in
                    (
                      suc k,
                      rw (small, both, sent, payloads, pump, on_client, frames)
                          (sent-IsAccepted last bytes p _ _ (ground arith) o (rw (sym counter) h)),
                    )
              ]
        ]
      ]
    where
      decoded :
          (last : ℕ) (bytes : List ℕ) (r : Result Str InPayload)
          → (decode_inbound aead bytes key iv aad last).1 ≡ r
          → decode_inbound aead bytes key iv aad last
            ≡ ((decode_inbound aead bytes key iv aad last).0, r)
      decoded last bytes r e = ap (λ x. ((decode_inbound aead bytes key iv aad last).0, x)) e

  -- What reaches the upstream is the payload of the first binary frames received, each opened under
  -- a counter above the one before, and in their order.
  pub client_to_upstream-IsAccepted :
      (send : List Message → Message → Option Str) (messages : List (Result Str Message))
      → (k : ℕ) × IsAccepted 0
          (take k (frames messages))
          (payloads (client_to_upstream aead send key iv aad messages).sent)
  unfolding client_to_upstream Claim
  client_to_upstream-IsAccepted send messages = pump-IsAccepted send 0 [] messages
