-- ===== src/Ordered.antt =====
-- `std::collections::BTreeMap`, as the list of its entries in ascending order of keys, over the
-- bound `K: Ord`.
pub mod Laws
pub mod Keys
pub mod Cover
use Prim.Native.Nat.Ordering.{lt, eq, gt}
use archetype_proxy_server.Prelude.{ℕ, ◌≡◌, Ordering, Option, none, some, List, [], ◌∷◌, map, All}

pub record Ord {ℓ} (K : Type ℓ) : Type ℓ where
  pub cmp : K → K → Ordering
  pub transitive : (j k l : K) → cmp j k ≡ lt → cmp k l ≡ lt → cmp j l ≡ lt
  pub flip_gt : (j k : K) → cmp j k ≡ gt → cmp k j ≡ lt
  pub flip_lt : (j k : K) → cmp j k ≡ lt → cmp k j ≡ gt
  pub antisymmetric : (j k : K) → cmp j k ≡ eq → j ≡ k
  pub reflexive : (k : K) → cmp k k ≡ eq

abbrev pub BTreeMap {ℓ κ} : Type ℓ → Type κ → Type (ℓ ⊔ κ)
BTreeMap K V = List (K × V)

module _ {ℓ κ} {K : Type ℓ} {V : Type κ} ⦃o : Ord K⦄ where
  unfoldable pub get : K → BTreeMap K V → Option V
  get k [] = none
  get k ((j, v) ∷ m) = elim (o.cmp k j) [ lt ↦ none | eq ↦ some v | gt ↦ get k m ]

  unfoldable pub insert : K → V → BTreeMap K V → BTreeMap K V
  insert k v [] = (k, v) ∷ []
  insert k v ((j, w) ∷ m) = elim (o.cmp k j) [
    | lt ↦ (k, v) ∷ (j, w) ∷ m
    | eq ↦ (k, v) ∷ m
    | gt ↦ (j, w) ∷ insert k v m
  ]

  unfoldable pub remove : K → BTreeMap K V → BTreeMap K V
  remove k [] = []
  remove k ((j, w) ∷ m) = elim (o.cmp k j) [ lt ↦ (j, w) ∷ m | eq ↦ m | gt ↦ (j, w) ∷ remove k m ]

  -- The keys ascend.
  abbrev pub Above : K → BTreeMap K V → Type 0
  Above k m = All (λ e. o.cmp k e.0 ≡ lt) m

  abbrev pub IsOrdered : BTreeMap K V → Type 0
  IsOrdered [] = Unit
  IsOrdered ((k, v) ∷ m) = Above k m × IsOrdered m

module _ {ℓ κ} {K : Type ℓ} {V : Type κ} where
  abbrev pub keys : BTreeMap K V → List K
  keys m = map (λ e. e.0) m

  abbrev pub values : BTreeMap K V → List V
  values m = map (λ e. e.1) m
