-- ===== src/Ordered/Keys.antt =====
-- The orders of the keys that the program uses: numbers, and texts by their bytes. (UTF-8 keeps
-- the order of code points.)
use Prim.Native.Nat.Ordering.{lt, eq, gt}
use archetype_proxy_server.Prelude.{ℕ, ◌≡◌, refl, compare, Ordering, [], ◌∷◌, arith}
use archetype_proxy_server.Text.{Str}
use archetype_proxy_server.Ordered.{Ord}

pub compare-lt_trans : (m n k : ℕ) → compare m n ≡ lt → compare n k ≡ lt → compare m k ≡ lt
compare-lt_trans m n k below above = ground arith

pub compare-lt_of_gt : (m n : ℕ) → compare m n ≡ gt → compare n m ≡ lt
compare-lt_of_gt m n above = ground arith

pub compare-gt_of_lt : (m n : ℕ) → compare m n ≡ lt → compare n m ≡ gt
compare-gt_of_lt m n below = ground arith

pub compare-eq : (m n : ℕ) → compare m n ≡ eq → m ≡ n
compare-eq m n same = ground arith

pub compare_refl : (n : ℕ) → compare n n ≡ eq
compare_refl n = ground arith

instance abbrev pub nat_ord : Ord ℕ
nat_ord = record {
  cmp = compare;
  reflexive = compare_refl;
  antisymmetric = compare-eq;
  flip_gt = compare-lt_of_gt;
  flip_lt = compare-gt_of_lt;
  transitive = compare-lt_trans;
}

unfoldable pub str_cmp : Str → Str → Ordering
str_cmp [] [] = eq
str_cmp [] (d ∷ t) = lt
str_cmp (c ∷ s) [] = gt
str_cmp (c ∷ s) (d ∷ t) = elim (compare c d) [ lt ↦ lt | eq ↦ str_cmp s t | gt ↦ gt ]

pub str_cmp_refl : (s : Str) → str_cmp s s ≡ eq
unfolding str_cmp
str_cmp_refl [] = refl
str_cmp_refl (c ∷ s) = ground (arith, str_cmp_refl s)

pub str_cmp-eq : (s t : Str) → str_cmp s t ≡ eq → s ≡ t
unfolding str_cmp
str_cmp-eq [] [] h = refl
str_cmp-eq [] (d ∷ t) h = cc
str_cmp-eq (c ∷ s) [] h = cc
str_cmp-eq (c ∷ s) (d ∷ t) h = ground (arith, str_cmp-eq s t)

pub str_cmp-lt_of_gt : (s t : Str) → str_cmp s t ≡ gt → str_cmp t s ≡ lt
unfolding str_cmp
str_cmp-lt_of_gt [] [] h = cc
str_cmp-lt_of_gt [] (d ∷ t) h = cc
str_cmp-lt_of_gt (c ∷ s) [] h = refl
str_cmp-lt_of_gt (c ∷ s) (d ∷ t) h = ground (arith, str_cmp-lt_of_gt s t)

pub str_cmp-gt_of_lt : (s t : Str) → str_cmp s t ≡ lt → str_cmp t s ≡ gt
unfolding str_cmp
str_cmp-gt_of_lt [] [] h = cc
str_cmp-gt_of_lt [] (d ∷ t) h = refl
str_cmp-gt_of_lt (c ∷ s) [] h = cc
str_cmp-gt_of_lt (c ∷ s) (d ∷ t) h = ground (arith, str_cmp-gt_of_lt s t)

pub str_cmp-lt_trans : (s t u : Str) → str_cmp s t ≡ lt → str_cmp t u ≡ lt → str_cmp s u ≡ lt
unfolding str_cmp
str_cmp-lt_trans [] [] u h k = cc
str_cmp-lt_trans [] (d ∷ t) [] h k = cc
str_cmp-lt_trans [] (d ∷ t) (e ∷ u) h k = refl
str_cmp-lt_trans (c ∷ s) [] u h k = cc
str_cmp-lt_trans (c ∷ s) (d ∷ t) [] h k = cc
str_cmp-lt_trans (c ∷ s) (d ∷ t) (e ∷ u) h k = ground (arith, str_cmp-lt_trans s t u)

instance abbrev pub str_ord : Ord Str
str_ord = record {
  cmp = str_cmp;
  reflexive = str_cmp_refl;
  antisymmetric = str_cmp-eq;
  flip_gt = str_cmp-lt_of_gt;
  flip_lt = str_cmp-gt_of_lt;
  transitive = str_cmp-lt_trans;
}

-- Pairs, by the first component and then by the second.
module _ {ℓ κ} {A : Type ℓ} {B : Type κ} (o : Ord A) (q : Ord B) where
  unfoldable pub pair_cmp : A × B → A × B → Ordering
  pair_cmp (a, b) (c, d) = elim (o.cmp a c) [ lt ↦ lt | eq ↦ q.cmp b d | gt ↦ gt ]

  pub pair_cmp_refl : (x : A × B) → pair_cmp x x ≡ eq
  unfolding pair_cmp
  pair_cmp_refl (a, b) = ground (arith, o.reflexive a, q.reflexive b)

  pub pair_cmp-eq : (x y : A × B) → pair_cmp x y ≡ eq → x ≡ y
  unfolding pair_cmp
  pair_cmp-eq (a, b) (c, d) h = ground (arith, o.antisymmetric a c, q.antisymmetric b d)

  pub pair_cmp-lt_of_gt : (x y : A × B) → pair_cmp x y ≡ gt → pair_cmp y x ≡ lt
  unfolding pair_cmp
  pair_cmp-lt_of_gt (a, b) (c, d) h =
      ground (arith, o.antisymmetric a c, o.flip_gt a c, q.flip_gt b d, o.reflexive c)

  pub pair_cmp-gt_of_lt : (x y : A × B) → pair_cmp x y ≡ lt → pair_cmp y x ≡ gt
  unfolding pair_cmp
  pair_cmp-gt_of_lt (a, b) (c, d) h =
      ground (arith, o.antisymmetric a c, o.flip_lt a c, q.flip_lt b d, o.reflexive c)

  pub pair_cmp-lt_trans :
      (x y z : A × B) → pair_cmp x y ≡ lt → pair_cmp y z ≡ lt → pair_cmp x z ≡ lt
  unfolding pair_cmp
  pair_cmp-lt_trans (a, b) (c, d) (e, f) h k = ground (
    arith,
    o.antisymmetric a c,
    o.antisymmetric c e,
    o.transitive a c e,
    q.transitive b d f,
    o.reflexive a,
  )

  abbrev pub pair_ord : Ord (A × B)
  pair_ord = record {
    cmp = pair_cmp;
    reflexive = pair_cmp_refl;
    antisymmetric = pair_cmp-eq;
    flip_gt = pair_cmp-lt_of_gt;
    flip_lt = pair_cmp-gt_of_lt;
    transitive = pair_cmp-lt_trans;
  }
