-- ===== src/Ordered/Laws.antt =====
-- A map reads back what was written, and its operations keep the order of its keys.
use Prim.Native.Nat.Ordering.{lt}
use archetype_proxy_server.Prelude.{◌≡◌, ◌≢◌, refl, none, some, [], ◌∷◌, All-imp, arith}
use archetype_proxy_server.Ordered.{Ord, BTreeMap, get, insert, remove, Above, IsOrdered}

module _ {ℓ κ} {K : Type ℓ} {V : Type κ} ⦃o : Ord K⦄ where
  pub get-insert_self : (k : K) (v : V) (m : BTreeMap K V) → get k (insert k v m) ≡ some v
  unfolding get insert
  get-insert_self k v [] = ground (arith, o.reflexive k)
  get-insert_self k v ((j, w) ∷ m) = ground (arith, o.reflexive k, get-insert_self k v m)

  pub get-insert_ne : (p k : K) (v : V) (m : BTreeMap K V) → p ≢ k → get p (insert k v m) ≡ get p m
  unfolding get insert
  get-insert_ne p k v [] n = ground (arith, o.antisymmetric p k)
  get-insert_ne p k v ((j, w) ∷ m) n =
      ground (
        arith,
        o.antisymmetric p k,
        o.antisymmetric k j,
        o.transitive p k j,
        get-insert_ne p k v m n,
      )

  pub get_below : (k p : K) (m : BTreeMap K V) → Above k m → o.cmp p k ≡ lt → get p m ≡ none
  unfolding get
  get_below k p [] a h = refl
  get_below k p ((j, w) ∷ m) (b, a) h = ground (arith, o.transitive p k j h b)

  pub get_at : (k : K) (m : BTreeMap K V) → Above k m → get k m ≡ none
  unfolding get
  get_at k [] a = refl
  get_at k ((j, w) ∷ m) (b, a) = rw (b, get)

  pub get-remove_self : (k : K) (m : BTreeMap K V) → IsOrdered m → get k (remove k m) ≡ none
  unfolding get remove
  get-remove_self k [] h = refl
  get-remove_self k ((j, w) ∷ m) (a, h) =
      ground (arith, o.antisymmetric k j, get_at j m a, get-remove_self k m h)

  pub get-remove_ne :
      (p k : K) (m : BTreeMap K V) → IsOrdered m → p ≢ k → get p (remove k m) ≡ get p m
  unfolding get remove
  get-remove_ne p k [] h n = refl
  get-remove_ne p k ((j, w) ∷ m) (a, h) n =
      ground (
        arith,
        o.antisymmetric k j,
        o.antisymmetric p j,
        get_below j p m a,
        get-remove_ne p k m h n,
      )

  Above-insert :
      (b k : K) (v : V) (m : BTreeMap K V) → o.cmp b k ≡ lt → Above b m → Above b (insert k v m)
  unfolding insert
  Above-insert b k v [] h a = (h, tt)
  Above-insert b k v ((j, w) ∷ m) h (p, a) = ground (arith, Above-insert b k v m h a)

  Above-remove : (b k : K) (m : BTreeMap K V) → Above b m → Above b (remove k m)
  unfolding remove
  Above-remove b k [] a = tt
  Above-remove b k ((j, w) ∷ m) (p, a) = ground (arith, Above-remove b k m a)

  pub insert-IsOrdered : (k : K) (v : V) (m : BTreeMap K V) → IsOrdered m → IsOrdered (insert k v m)
  unfolding insert
  insert-IsOrdered k v [] h = (tt, tt)
  insert-IsOrdered k v ((j, w) ∷ m) (a, h) = ground (
    arith,
    o.antisymmetric k j,
    o.flip_gt k j,
    insert-IsOrdered k v m h,
    Above-insert j k v m,
    Above_lower k j m,
  )
    where
      Above_lower : (b c : K) (n : BTreeMap K V) → o.cmp b c ≡ lt → Above c n → Above b n
      Above_lower b c n h a = All-imp (λ e q. o.transitive b c e.0 h q) n a

  pub remove-IsOrdered : (k : K) (m : BTreeMap K V) → IsOrdered m → IsOrdered (remove k m)
  unfolding remove
  remove-IsOrdered k [] h = tt
  remove-IsOrdered k ((j, w) ∷ m) (a, h) =
      ground (arith, remove-IsOrdered k m h, Above-remove j k m a)
