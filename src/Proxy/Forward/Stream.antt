-- ===== src/Proxy/Forward/Stream.antt =====
-- The body frames of a response.
use archetype_proxy_server.Prelude.{
  ℕ, ◌+◌, ◌≤◌, ◌<◌, ◌≡◌, refl, ap₂, Option, none, some, List, [], ◌∷◌, map, ok, err, length, arith,
}
use archetype_proxy_server.Proxy.Types.{head, body, Item}
use archetype_proxy_server.Proxy.Decrypt.{saturating_add, usize_max}
use archetype_proxy_server.Proxy.Forward.{body_frames}

-- The payload bytes of a stream.
abbrev pub payload : List Item → ℕ
payload [] = 0
payload (ok (body c) ∷ items) = length c + payload items
payload (ok (head status headers) ∷ items) = payload items
payload (err e ∷ items) = payload items

over_cap :
    (max acc : ℕ) (chunks : List (Option (List ℕ)))
    → max < acc
    → max < usize_max
    → payload (body_frames max acc chunks) ≡ 0
unfolding body_frames
over_cap max acc [] h k = refl
over_cap max acc (none ∷ chunks) h k = over_cap max acc chunks h k
over_cap max acc (some c ∷ chunks) h k =
    ground (arith, over_cap max (saturating_add acc (length c)) chunks)

-- Whatever the upstream sends, the frames carry no more than the cap leaves.
pub payload-body_frames :
    (max acc : ℕ) (chunks : List (Option (List ℕ)))
    → acc ≤ max
    → max < usize_max
    → acc + payload (body_frames max acc chunks) ≤ max
unfolding body_frames
payload-body_frames max acc [] h k = omega arith
payload-body_frames max acc (none ∷ chunks) h k = payload-body_frames max acc chunks h k
payload-body_frames max acc (some c ∷ chunks) h k = ground (
  arith,
  over_cap max (saturating_add acc (length c)) chunks,
  payload-body_frames max (saturating_add acc (length c)) chunks,
)

-- A body within the cap is passed on chunk by chunk.
pub body_frames_within :
    (max acc : ℕ) (chunks : List (List ℕ))
    → acc + payload (map (λ c. ok (body c)) chunks) ≤ max
    → max < usize_max
    → body_frames max acc (map some chunks) ≡ map (λ c. ok (body c)) chunks
unfolding body_frames
body_frames_within max acc [] h k = refl
body_frames_within max acc (c ∷ chunks) h k =
    ap₂ ◌∷◌ (ground arith)
      (body_frames_within max (saturating_add acc (length c)) chunks (ground arith) k)
