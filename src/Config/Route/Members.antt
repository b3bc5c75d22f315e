-- ===== src/Config/Route/Members.antt =====
-- The routes of a table are those that it was made of.
use mathlib.Core.List.{Memᴰ}
use mathlib.Core.List.Memᴰ
use archetype_proxy_server.Prelude.{◌↔◌, inl, inr, Bool-cases, List, [], ◌∷◌}
use archetype_proxy_server.Config.Route.{Route, place, sort_routes, new, less_specific}

Memᴰ-place : {x : Route} (r : Route) (rs : List Route) → Memᴰ x (place r rs) → Memᴰ x (r ∷ rs)
unfolding place
Memᴰ-place r [] m = m
Memᴰ-place {x} r (q ∷ qs) m = elim (Bool-cases (less_specific r q)) [
  | inr e ↦ rw (e, place) at m
  | inl e ↦
      let m' : Memᴰ x (q ∷ place r qs) = rw (e, place) at m in
      elim (Memᴰ.cases_cons m') [
        | inl h ↦ Memᴰ.tail (Memᴰ.head h)
        | inr t ↦ elim (Memᴰ.cases_cons (Memᴰ-place r qs t)) [
          | inl h ↦ Memᴰ.head h
          | inr u ↦ Memᴰ.tail (Memᴰ.tail u)
        ]
      ]
]

place-Memᴰ : {x : Route} (r : Route) (rs : List Route) → Memᴰ x (r ∷ rs) → Memᴰ x (place r rs)
unfolding place
place-Memᴰ r [] m = m
place-Memᴰ {x} r (q ∷ qs) m = elim (Bool-cases (less_specific r q)) [
  | inr e ↦ rw (e, place) m
  | inl e ↦
      rw (e, place)
        (elim (Memᴰ.cases_cons m) [
          | inl h ↦ Memᴰ.tail (place-Memᴰ r qs (Memᴰ.head h))
          | inr t ↦ elim (Memᴰ.cases_cons t) [
            | inl h ↦ Memᴰ.head h
            | inr u ↦ Memᴰ.tail (place-Memᴰ r qs (Memᴰ.tail u))
          ]
        ])
]

pub new-Memᴰ_iff : (rs : List Route) (x : Route) → Memᴰ x (new rs).routes ↔ Memᴰ x rs
unfolding new sort_routes
new-Memᴰ_iff [] x = (λ m. m, λ m. m)
new-Memᴰ_iff (r ∷ rs) x = (
  λ m. elim (Memᴰ.cases_cons (Memᴰ-place r (sort_routes rs) m)) [
    | inl h ↦ Memᴰ.head h
    | inr t ↦ Memᴰ.tail ((new-Memᴰ_iff rs x).0 t)
  ],
  λ m. place-Memᴰ r (sort_routes rs) (elim (Memᴰ.cases_cons m) [
    | inl h ↦ Memᴰ.head h
    | inr t ↦ Memᴰ.tail ((new-Memᴰ_iff rs x).1 t)
  ]),
)
