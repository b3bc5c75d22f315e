-- ===== src/Discovery/Kubernetes/Store.antt =====
-- What `KindStore::apply` commits.
use archetype_proxy_server.Prelude.{
  ◌≡◌, refl, ◌≢◌, Bool, true, false, not, Option, none, some, List, [], ◌∷◌, ◌++◌, is_some,
  unwrap_or, arith, map, ap, subst, append-nil,
}
use archetype_proxy_server.Text.{Str}
use archetype_proxy_server.Ordered.{BTreeMap, get, insert, remove, IsOrdered}
use archetype_proxy_server.Ordered.Keys.{str_ord}
use archetype_proxy_server.Ordered.Laws.{
  get-insert_self, get-insert_ne, get-remove_self, get-remove_ne, insert-IsOrdered,
  remove-IsOrdered,
}
use archetype_proxy_server.Config.Route.{Route}
use archetype_proxy_server.Discovery.Equal.{
  route_eq, entry_eq, eq_of_list_eq, eq_of_entry_eq, eq_of_option_eq, eq_of_route_eq,
}
use archetype_proxy_server.Discovery.Kubernetes.{
  Op, init, init_done, init_apply, apply_one, delete, KindStore, apply, buffered,
}

-- Both maps ascend.
unfoldable pub IsWellFormed : KindStore → Type 0
IsWellFormed st = IsOrdered st.committed × IsOrdered (unwrap_or st.buffer [])

buffered-IsOrdered :
    (key : Str) (route : Option Route) (buffer : Option (BTreeMap Str Route))
    → IsOrdered (unwrap_or buffer [])
    → IsOrdered (unwrap_or (buffered key route buffer) [])
buffered-IsOrdered key (some r) (some buf) b = insert-IsOrdered key r buf b
buffered-IsOrdered key (some r) none b = tt
buffered-IsOrdered key none buffer b = b

pub apply-IsWellFormed : (st : KindStore) (op : Op) → IsWellFormed st → IsWellFormed (apply st op).0
unfolding apply IsWellFormed
apply-IsWellFormed st init (c, b) = (c, tt)
apply-IsWellFormed st init_done (c, b) = (b, tt)
apply-IsWellFormed st (init_apply key route) (c, b) = (c, buffered-IsOrdered key route st.buffer b)
apply-IsWellFormed st (apply_one key (some r)) (c, b) = (insert-IsOrdered key r st.committed c, b)
apply-IsWellFormed st (apply_one key none) (c, b) = (remove-IsOrdered key st.committed c, b)
apply-IsWellFormed st (delete key) (c, b) = (remove-IsOrdered key st.committed c, b)

-- Removing a key that is absent changes nothing, nor does inserting an entry that is present.
remove_absent : (key : Str) (m : BTreeMap Str Route) → get key m ≡ none → remove key m ≡ m
unfolding get remove
remove_absent key [] h = refl
remove_absent key ((j, r) ∷ m) h = ground (arith, remove_absent key m)

insert_present :
    (key : Str) (r : Route) (m : BTreeMap Str Route) → get key m ≡ some r → insert key r m ≡ m
unfolding get insert
insert_present key r [] h = cc
insert_present key r ((j, q) ∷ m) h =
    ground (arith, insert_present key r m, str_ord.antisymmetric key j)

true_of_not : (b : Bool) → not b ≡ false → b ≡ true
true_of_not true h = refl
true_of_not false h = cc

none_of_is_some : (o : Option Route) → is_some o ≡ false → o ≡ none
none_of_is_some none h = refl
none_of_is_some (some r) h = cc

-- Where an operation reports no change, what is committed is the same as before.
pub apply-unchanged :
    (st : KindStore) (op : Op) → (apply st op).1 ≡ false → (apply st op).0.committed ≡ st.committed
unfolding apply
apply-unchanged st init h = refl
apply-unchanged st (init_apply key route) h = refl
apply-unchanged st init_done h =
    eq_of_list_eq entry_eq eq_of_entry_eq (unwrap_or st.buffer []) st.committed (true_of_not _ h)
apply-unchanged st (apply_one key (some r)) h =
    insert_present key r st.committed
      (eq_of_option_eq route_eq eq_of_route_eq (get key st.committed) (some r) (true_of_not _ h))
apply-unchanged st (apply_one key none) h = remove_absent key st.committed (none_of_is_some _ h)
apply-unchanged st (delete key) h = remove_absent key st.committed (none_of_is_some _ h)

-- The last word on an object: its route if it has one, else nothing.
unfoldable pub settled : Op → Option (Str × Option Route)
settled (apply_one key route) = some (key, route)
settled (delete key) = some (key, none)
settled init = none
settled init_done = none
settled (init_apply key route) = none

-- An object that is applied or deleted has its own route committed or none, and every other
-- object keeps what it had.
pub get-apply :
    (st : KindStore) (op : Op) (key : Str) (route : Option Route)
    → IsWellFormed st
    → settled op ≡ some (key, route)
    → (get key (apply st op).0.committed ≡ route)
      × ((other : Str) → other ≢ key → get other (apply st op).0.committed ≡ get other st.committed)
unfolding apply settled IsWellFormed
get-apply st init key route w h = cc
get-apply st init_done key route w h = cc
get-apply st (init_apply k r) key route w h = cc
get-apply st (apply_one k (some r)) key route (c, b) h =
    let same_key : k ≡ key = cc in
    let same_route : some r ≡ route = cc in
    rw (← same_key, ← same_route)
      (get-insert_self k r st.committed, λ other n. get-insert_ne other k r st.committed n)
get-apply st (apply_one k none) key route (c, b) h =
    let same_key : k ≡ key = cc in
    let same_route : none ≡ route = cc in
    rw (← same_key, ← same_route)
      (get-remove_self k st.committed c, λ other n. get-remove_ne other k st.committed c n)
get-apply st (delete k) key route (c, b) h =
    let same_key : k ≡ key = cc in
    let same_route : none ≡ route = cc in
    rw (← same_key, ← same_route)
      (get-remove_self k st.committed c, λ other n. get-remove_ne other k st.committed c n)

-- The operations of a listing: a start and the objects observed, then its end.
abbrev pub observing : List (Str × Option Route) → List Op
observing objects = init ∷ map (λ o. init_apply o.0 o.1) objects

abbrev pub listing : List (Str × Option Route) → List Op
listing objects = observing objects ++ init_done ∷ []

-- The map of the objects observed that have a route.
unfoldable pub observed : BTreeMap Str Route → List (Str × Option Route) → BTreeMap Str Route
observed m [] = m
observed m ((key, some r) ∷ more) = observed (insert key r m) more
observed m ((key, none) ∷ more) = observed m more

unfoldable pub apply_all : KindStore → List Op → KindStore
apply_all st [] = st
apply_all st (op ∷ ops) = apply_all (apply st op).0 ops

-- While a listing goes on, its objects are buffered and what is committed stays.
apply_all-init_apply :
    (c m : BTreeMap Str Route) (objects : List (Str × Option Route)) (more : List Op)
    → apply_all
        (record { committed = c; buffer = some m })
        (map (λ o. init_apply o.0 o.1) objects ++ more)
      ≡ apply_all (record { committed = c; buffer = some (observed m objects) }) more
unfolding apply_all observed apply
apply_all-init_apply c m [] more = refl
apply_all-init_apply c m ((key, some r) ∷ objects) more =
    apply_all-init_apply c (insert key r m) objects more
apply_all-init_apply c m ((key, none) ∷ objects) more = apply_all-init_apply c m objects more

-- A listing commits the objects that it observed with a route and no others, whatever was there
-- before, and until its end nothing of it is committed.
pub apply_all-listing :
    (st : KindStore) (objects : List (Str × Option Route))
    → (apply_all st (listing objects) ≡ record { committed = observed [] objects; buffer = none })
      × ((apply_all st (observing objects)).committed ≡ st.committed)
unfolding apply_all apply
apply_all-listing st objects = (
  apply_all-init_apply st.committed [] objects (init_done ∷ []),
  subst (λ ops. (apply_all st (init ∷ ops)).committed ≡ st.committed)
      (append-nil (map (λ o. init_apply o.0 o.1) objects))
      (ap (λ s. s.committed) (apply_all-init_apply st.committed [] objects [])),
)
