-- ===== src/Config/Route/Select.antt =====
-- The route table against a reference that scans the routes in their given order.
use archetype_proxy_server.Prelude.{
  ◌≡◌, refl, ap, sym, ◌∙◌, ◌↔◌, inl, inr, Bool, true, false, Option, none, some, List, [], ◌∷◌,
  ◌++◌, arith, Bool-cases, Option-cases, if◌then◌else◌, find, All, All-imp, All-append,
}
use mathlib.Core.List.{Perm}
use mathlib.Core.List.Perm
use archetype_proxy_server.Text.{Str}
use archetype_proxy_server.Config.Route.{
  Route, less_specific, matches, place, sort_routes, new, select,
}

-- The order of routes is total and transitive.
less_specific_irrefl : (r : Route) → less_specific r r ≡ false
unfolding less_specific
less_specific_irrefl r = ground arith

pub not_less_trans :
    (a b c : Route)
    → less_specific a b ≡ false
    → less_specific b c ≡ false
    → less_specific a c ≡ false
unfolding less_specific
not_less_trans a b c h k = ground arith

pub less_specific_asym : (a b : Route) → less_specific a b ≡ true → less_specific b a ≡ false
unfolding less_specific
less_specific_asym a b h = ground arith

-- Each route is followed by routes that are not more specific.
abbrev pub IsSorted : List Route → Type 0
IsSorted [] = Unit
IsSorted (r ∷ rs) = All (λ q. less_specific r q ≡ false) rs × IsSorted rs

All-place : (P : Route → Type 0) (r : Route) (rs : List Route) → P r → All P rs → All P (place r rs)
unfolding place
All-place P r [] h a = (h, tt)
All-place P r (q ∷ rs) h (k, a) = elim (Bool-cases (less_specific r q)) [
  | inl e ↦ rw e (k, All-place P r rs h a)
  | inr e ↦ rw e (h, (k, a))
]

place-IsSorted : (r : Route) (rs : List Route) → IsSorted rs → IsSorted (place r rs)
unfolding place
place-IsSorted r [] s = (tt, tt)
place-IsSorted r (q ∷ rs) (a, s) = elim (Bool-cases (less_specific r q)) [
  | inl e ↦ rw e (All-place _ r rs (less_specific_asym r q e) a, place-IsSorted r rs s)
  | inr e ↦ rw e ((e, All-imp (λ x h. not_less_trans r q x e h) rs a), (a, s))
]

pub sort_routes-IsSorted : (rs : List Route) → IsSorted (sort_routes rs)
unfolding sort_routes
sort_routes-IsSorted [] = tt
sort_routes-IsSorted (r ∷ rs) = place-IsSorted r (sort_routes rs) (sort_routes-IsSorted rs)

place-perm : (r : Route) (rs : List Route) → Perm (place r rs) (r ∷ rs)
unfolding place
place-perm r [] = Perm.refl (r ∷ [])
place-perm r (q ∷ rs) = elim (Bool-cases (less_specific r q)) [
  | inl e ↦ rw e (Perm.trans (Perm.cons q (place-perm r rs)) (Perm.swap r q rs))
  | inr e ↦ rw e (Perm.refl (r ∷ q ∷ rs))
]

pub sort_routes-perm : (rs : List Route) → Perm (sort_routes rs) rs
unfolding sort_routes
sort_routes-perm [] = Perm.refl []
sort_routes-perm (r ∷ rs) =
    Perm.trans (place-perm r (sort_routes rs)) (Perm.cons r (sort_routes-perm rs))

-- The reference: of the routes that match, the first of those with the greatest key.
abbrev pub better : Route → Option Route → Option Route
better r none = some r
better r (some q) = if less_specific r q then some q else some r

pub best : Str → Str → List Route → Option Route
best host path [] = none
best host path (r ∷ rs) =
    if matches r host path then better r (best host path rs) else best host path rs

module _ (p : Route → Bool) where
  find_below :
      (r : Route) (rs : List Route)
      → All (λ q. less_specific r q ≡ false) rs
      → better r (find p rs) ≡ some r
  find_below r [] a = refl
  find_below r (q ∷ rs) (h, a) = elim (Bool-cases (p q)) [
    | inl e ↦ rw e (rw h)
    | inr e ↦ rw e (find_below r rs a)
  ]

  find-place :
      (r : Route) (rs : List Route)
      → IsSorted rs
      → find p (place r rs) ≡ (if p r then better r (find p rs) else find p rs)
  unfolding place
  find-place r [] s = refl
  find-place r (q ∷ rs) (a, s) = elim (Bool-cases (less_specific r q)) [
    | inl e ↦ rw e (ground (arith, find-place r rs s))
    | inr e ↦ rw e (elim (Bool-cases (p r)) [
      | inl m ↦
          rw m (sym (find_below r (q ∷ rs) (e, All-imp (λ x h. not_less_trans r q x e h) rs a)))
      | inr m ↦ rw m
    ])
  ]

-- Looking up the sorted table is the reference scan of the routes as they were given.
pub select-new : (rs : List Route) (host path : Str) → select (new rs) host path ≡ best host path rs
unfolding select new best sort_routes
select-new [] host path = refl
select-new (r ∷ rs) host path =
    find-place (λ q. matches q host path) r (sort_routes rs) (sort_routes-IsSorted rs)
    ∙ ap (λ o. if matches r host path then better r o else o) (select-new rs host path)

-- What a selection is: a route of the list that matches, more specific than each matching route
-- before it, and at least as specific as each matching route after it.
pub record IsChosen (host path : Str) (rs : List Route) (r : Route) : Type 0 where
  pub before : List Route
  pub after : List Route
  pub split : rs ≡ before ++ r ∷ after
  pub matched : matches r host path ≡ true
  pub first : All (λ q. matches q host path ≡ true → less_specific q r ≡ true) before
  pub greatest : All (λ q. matches q host path ≡ true → less_specific r q ≡ false) after

best-none :
    (host path : Str) (rs : List Route)
    → best host path rs ≡ none
    → All (λ q. matches q host path ≡ false) rs
unfolding best
best-none host path [] e = tt
best-none host path (r ∷ rs) e = elim (Bool-cases (matches r host path)) [
  | inl m ↦ absurd (some_better (best host path rs) (rw m at e))
  | inr m ↦ (m, best-none host path rs (rw m at e))
]
  where
    some_better : (o : Option Route) → better r o ≡ none → ⊥
    some_better none h = cc
    some_better (some q) h = ground arith

best-some :
    (host path : Str) (rs : List Route) (r : Route)
    → best host path rs ≡ some r
    → IsChosen host path rs r
unfolding best
best-some host path [] r e = cc
best-some host path (q ∷ rs) r e = elim (Bool-cases (matches q host path)) [
  | inr m ↦ later m (best-some host path rs r (rw m at e)) (λ k. cc)
  | inl m ↦ elim (Option-cases (best host path rs)) [
    | inl none_left ↦
        let same : q ≡ r = ground arith in
        record {
          before = [];
          after = rs;
          split = ap (λ x. x ∷ rs) same;
          matched = rw (← same) m;
          first = tt;
          greatest = All-imp (λ x f k. cc) rs (best-none host path rs none_left);
        }
    | inr (c, found) ↦ elim (Bool-cases (less_specific q c)) [
      | inl less ↦
          let same : c ≡ r = ground arith in
          later m (best-some host path rs r (found ∙ ap some same)) (λ k. rw (← same) less)
      | inr more ↦
          let same : q ≡ r = ground arith in here m same (best-some host path rs c found) more
    ]
  ]
]
  where
    later :
        {b : Bool}
        → matches q host path ≡ b
        → IsChosen host path rs r
        → (matches q host path ≡ true → less_specific q r ≡ true)
        → IsChosen host path (q ∷ rs) r
    later m c h = record {
      before = q ∷ c.before;
      after = c.after;
      split = ap (λ xs. q ∷ xs) c.split;
      matched = c.matched;
      first = (h, c.first);
      greatest = c.greatest;
    }

    here :
        {c : Route}
        → matches q host path ≡ true
        → q ≡ r
        → IsChosen host path rs c
        → less_specific q c ≡ false
        → IsChosen host path (q ∷ rs) r
    here {c} m same chosen more = record {
      before = [];
      after = rs;
      split = ap (λ x. x ∷ rs) same;
      matched = rw (← same) m;
      first = tt;
      greatest =
          rw (← same, chosen.split)
            (All-append _ chosen.before (c ∷ chosen.after)
              (All-imp (λ x f k. not_less_trans q c x more (less_specific_asym x c (f k)))
                chosen.before chosen.first)
              (
                λ k. more,
                All-imp (λ x f k. not_less_trans q c x more (f k)) chosen.after chosen.greatest,
              ));
    }

-- A selected route matches the request, is more specific than each matching route given before it
-- and at least as specific as each matching route given after it.
pub select-IsChosen :
    (rs : List Route) (host path : Str) (r : Route)
    → select (new rs) host path ≡ some r
    → IsChosen host path rs r
select-IsChosen rs host path r e = best-some host path rs r (sym (select-new rs host path) ∙ e)

-- Nothing is selected exactly when no route matches.
pub select-eq-none_iff :
    (rs : List Route) (host path : Str)
    → (select (new rs) host path ≡ none) ↔ All (λ q. matches q host path ≡ false) rs
unfolding best
select-eq-none_iff rs host path = (
  λ e. best-none host path rs (sym (select-new rs host path) ∙ e),
  λ a. select-new rs host path ∙ none_matches rs a,
)
  where
    none_matches :
        (qs : List Route) → All (λ q. matches q host path ≡ false) qs → best host path qs ≡ none
    none_matches [] a = refl
    none_matches (q ∷ qs) (m, a) = rw m (none_matches qs a)
