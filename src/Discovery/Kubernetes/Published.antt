-- ===== src/Discovery/Kubernetes/Published.antt =====
-- What the manager was last sent is what the two stores hold.
use archetype_proxy_server.Prelude.{
  ◌≡◌, refl, inl, inr, Bool, true, false, some, List, [], ◌∷◌, ◌++◌, Result, ok, err, unwrap_or,
  first, Bool-cases, ap, sym, ◌∙◌,
}
use archetype_proxy_server.Text.{Str}
use archetype_proxy_server.Ordered.{values}
use archetype_proxy_server.Config.Route.{Route}
use archetype_proxy_server.Discovery.Equal.{
  route_eq, option_eq, list_eq, eq_of_list_eq, eq_of_option_eq, eq_of_route_eq,
}
use archetype_proxy_server.Discovery.Kubernetes.{
  Kind, service, ingress, Op, KindStore, apply, Watcher, started, snapshot, turn, run, after_change,
  publish,
}
use archetype_proxy_server.Discovery.Kubernetes.Store.{apply-unchanged}

-- The loop goes on, and the last snapshot sent, or the empty one, is that of the stores.
pub record IsPublished (w : Watcher) : Type 0 where
  pub open_still : w.closed ≡ false
  pub last : w.last_sent ≡ first w.sent
  pub current : unwrap_or w.last_sent [] ≡ snapshot w.svc_store w.ing_store

module _ (open_for : List Route → Bool) (takes : (rs : List Route) → open_for rs ≡ true) where
  publish-IsPublished :
      (w : Watcher) (svc ing : KindStore) → IsPublished w → IsPublished (publish open_for w svc ing)
  publish-IsPublished w svc ing h =
      let routes = snapshot svc ing in
      elim (Bool-cases (option_eq (list_eq route_eq) w.last_sent (some routes))) [
        | inl same ↦
            let e : w.last_sent ≡ some routes =
              eq_of_option_eq (list_eq route_eq) (eq_of_list_eq route_eq eq_of_route_eq) w.last_sent
                (some routes) same in
            rw same (record { open_still = refl; last = h.last; current = rw e refl })
        | inr different ↦
            rw (different, takes routes) (record { open_still = refl; last = refl; current = refl })
      ]

  after_change-IsPublished :
      (w : Watcher) (svc ing : KindStore) (changed : Bool)
      → (changed ≡ false → snapshot svc ing ≡ snapshot w.svc_store w.ing_store)
      → IsPublished w
      → IsPublished (after_change open_for w svc ing changed)
  after_change-IsPublished w svc ing true same h = publish-IsPublished w svc ing h
  after_change-IsPublished w svc ing false same h = record {
    open_still = refl;
    last = h.last;
    current = h.current ∙ sym (same refl);
  }

  turn-IsPublished :
      (w : Watcher) (item : Result Str (Kind × Op))
      → IsPublished w
      → IsPublished (turn open_for w item)
  unfolding turn
  turn-IsPublished w (err e) h = h
  turn-IsPublished w (ok (service, op)) h =
      after_change-IsPublished w (apply w.svc_store op).0 w.ing_store (apply w.svc_store op).1
        (λ e. ap (λ c. values c ++ values w.ing_store.committed) (apply-unchanged w.svc_store op e))
        h
  turn-IsPublished w (ok (ingress, op)) h =
      after_change-IsPublished w w.svc_store (apply w.ing_store op).0 (apply w.ing_store op).1
        (λ e. ap (λ c. values w.svc_store.committed ++ values c) (apply-unchanged w.ing_store op e))
        h

  run_from :
      (w : Watcher) (items : List (Result Str (Kind × Op)))
      → IsPublished w
      → IsPublished (run open_for w items)
  unfolding run turn
  run_from w [] h = h
  run_from w (item ∷ items) h =
      let next = turn-IsPublished w item h in
      rw (next.open_still, run) (run_from (turn open_for w item) items next)

  -- As long as the manager takes what it is sent, the watcher goes on, and after every run the last
  -- snapshot that it sent is that of the two stores, the empty one if it sent none.
  pub run-IsPublished :
      (items : List (Result Str (Kind × Op))) → IsPublished (run open_for started items)
  run-IsPublished items =
      run_from started items (record { open_still = refl; last = refl; current = refl })
