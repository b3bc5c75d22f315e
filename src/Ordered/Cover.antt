-- ===== src/Ordered/Cover.antt =====
-- Maps whose keys are all among some names, and their emptying by the removal of these names.
use mathlib.Core.List.{Memᴰ}
use mathlib.Core.List.Memᴰ.{head, tail, not-nil, append_left, append_right}
use archetype_proxy_server.Prelude.{
  ◌≡◌, ◌≢◌, refl, ◌∙◌, inl, inr, ◌⊎◌, none, List, [], ◌∷◌, ◌++◌, Bool-cases, arith,
}
use archetype_proxy_server.Text.{Str, str_eq}
use archetype_proxy_server.Text.Laws.{eq_of_str_eq, ne_of_str_eq}
use archetype_proxy_server.Ordered.{BTreeMap, get, insert, remove, IsOrdered}
use archetype_proxy_server.Ordered.Laws.{get-insert_ne, get-remove_self, get-remove_ne}
use archetype_proxy_server.Ordered.Keys.{str_ord, str_cmp_refl}

module _ {ℓ} {V : Type ℓ} where
  abbrev pub Covers : List Str → BTreeMap Str V → Type ℓ
  Covers names m = (k : Str) → (get k m ≡ none) ⊎ Memᴰ k names

  pub Covers-insert :
      (names : List Str) (name : Str) (v : V) (m : BTreeMap Str V)
      → Covers names m
      → Covers (names ++ name ∷ []) (insert name v m)
  Covers-insert names name v m h k = elim (Bool-cases (str_eq k name)) [
    | inl same ↦ inr (append_right names (head (eq_of_str_eq k name same)))
    | inr other ↦ elim (h k) [
      | inl e ↦ inl (get-insert_ne k name v m (ne_of_str_eq k name other) ∙ e)
      | inr mem ↦ inr (append_left (name ∷ []) mem)
    ]
  ]

  pub Covers-remove :
      (name : Str) (names : List Str) (m : BTreeMap Str V)
      → IsOrdered m
      → Covers (name ∷ names) m
      → Covers names (remove name m)
  Covers-remove name names m o h k = elim (Bool-cases (str_eq k name)) [
    | inl same ↦ inl (rw (eq_of_str_eq k name same) (get-remove_self name m o))
    | inr other ↦
        let rest : get k (remove name m) ≡ get k m =
          get-remove_ne k name m o (ne_of_str_eq k name other) in
        elim (h k) [
          | inl e ↦ inl (rest ∙ e)
          | inr (head e) ↦ absurd (ne_of_str_eq k name other e)
          | inr (tail t) ↦ inr t
        ]
  ]

  -- A map without a name for its keys is empty.
  pub eq-nil_of_Covers : (m : BTreeMap Str V) → Covers [] m → m ≡ []
  unfolding get
  eq-nil_of_Covers [] h = refl
  eq-nil_of_Covers ((k, v) ∷ m) h = elim (h k) [
    | inl e ↦ absurd (taken e)
    | inr mem ↦ absurd (not-nil mem)
  ]
    where
      taken : get k ((k, v) ∷ m) ≢ none
      taken e = ground (arith, str_cmp_refl k)
