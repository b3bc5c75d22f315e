-- ===== src/Discovery/Docker/Changes.antt =====
-- The provider sends the routes of the last successful poll, and only when they changed.
use archetype_proxy_server.Prelude.{
  ◌≡◌, ◌≢◌, refl, inl, inr, Bool, true, false, ◌||◌, Option, none, some, List, [], ◌∷◌, first,
  Bool-cases, arith, ap, subst, sym, ◌∙◌, if◌then◌else◌,
}
use archetype_proxy_server.Text.Laws.{str_eq_refl}
use archetype_proxy_server.Config.Kinds.{Source}
use archetype_proxy_server.Config.Route.{Route}
use archetype_proxy_server.Discovery.Equal.{
  bool_eq, source_eq, route_eq, option_eq, list_eq, eq_of_list_eq, eq_of_option_eq, eq_of_route_eq,
}
use archetype_proxy_server.Discovery.Docker.{
  Container, Tick, Poller, started, poll_once, publish, polled, disconnected, turn, run,
}

route_eq_refl : (r : Route) → route_eq r r ≡ true
unfolding route_eq
route_eq_refl r = ground (
  arith,
  str_eq_refl r.name,
  str_eq_refl r.host,
  str_eq_refl r.path_prefix,
  str_eq_refl r.upstream,
  strict r.strict_attestation,
  same r.source,
)
  where
    strict : (o : Option Bool) → option_eq bool_eq o o ≡ true
    strict none = ground arith
    strict (some true) = ground arith
    strict (some false) = ground arith

    same : (s : Source) → source_eq s s ≡ true
    same s = ground arith

list_eq_refl : (rs : List Route) → list_eq route_eq rs rs ≡ true
unfolding list_eq
list_eq_refl [] = refl
list_eq_refl (r ∷ rs) = rw (route_eq_refl r, list_eq_refl rs) refl

different_from :
    (last : Option (List Route)) (rs : List Route)
    → option_eq (list_eq route_eq) last (some rs) ≡ false
    → last ≢ some rs
unfolding option_eq
different_from none rs h e = cc
different_from (some qs) rs h e =
    let same : qs ≡ rs = cc in
    let reflexive : list_eq route_eq qs rs ≡ true = rw same (list_eq_refl rs) in cc

-- No snapshot was sent twice in a row.
unfoldable pub IsChanging : List (List Route) → Type 0
IsChanging [] = Unit
IsChanging (rs ∷ sent) = (first sent ≢ some rs) × IsChanging sent

-- The loop goes on, what it remembers is what it sent last, and it sent changes only.
pub record IsSteady (p : Poller) (current : Option (List Route)) : Type 0 where
  pub open_still : p.closed ≡ false
  pub last_sent : p.last ≡ first p.sent
  pub up_to_date : p.last ≡ current
  pub changes : IsChanging p.sent

-- The routes of the last poll that succeeded: a poll needs a connection, which a failed one drops.
abbrev polled_routes : Option (List Route) → Option (List Container) → Bool × Option (List Route)
polled_routes before none = (false, before)
polled_routes before (some containers) = (true, some (poll_once containers))

unfoldable pub latest : (connected : Bool) → Option (List Route) → List Tick → Option (List Route)
latest connected before [] = before
latest connected before (t ∷ ticks) =
    let (still, routes) =
      if connected || t.connects then polled_routes before t.listed else (false, before) in
    latest still routes ticks

module _ (open_for : List Route → Bool) (takes : (rs : List Route) → open_for rs ≡ true) where
  publish-IsSteady :
      (p : Poller) (current : Option (List Route)) (routes : List Route)
      → IsSteady p current
      → IsSteady (publish open_for p routes) (some routes)
        × ((publish open_for p routes).connected ≡ true)
  unfolding IsChanging
  publish-IsSteady p current routes h =
      elim (Bool-cases (option_eq (list_eq route_eq) p.last (some routes))) [
        | inl same ↦
            let e : p.last ≡ some routes =
              eq_of_option_eq (list_eq route_eq) (eq_of_list_eq route_eq eq_of_route_eq) p.last
                (some routes) same in
            rw same (
              record {
                open_still = refl;
                last_sent = h.last_sent;
                up_to_date = e;
                changes = h.changes;
              },
              refl,
            )
        | inr different ↦
            rw (different, takes routes)
              (
                record {
                  open_still = refl;
                  last_sent = refl;
                  up_to_date = refl;
                  changes =
                      (λ e. different_from p.last routes different (h.last_sent ∙ e), h.changes);
                },
                refl,
              )
      ]

  dropped :
      (p : Poller) (current : Option (List Route))
      → IsSteady p current
      → IsSteady (disconnected p) current
  dropped p current h = record {
    open_still = refl;
    last_sent = h.last_sent;
    up_to_date = h.up_to_date;
    changes = h.changes;
  }

  turn-IsSteady :
      (p : Poller) (current : Option (List Route)) (online : Bool)
      (listed : Option (List Container))
      → IsSteady p current
      → let next = if online then polled open_for p listed else disconnected p in
        let heard = if online then polled_routes current listed else (false, current) in
        IsSteady next heard.1 × (next.connected ≡ heard.0)
  turn-IsSteady p current true (some cs) h = publish-IsSteady p current (poll_once cs) h
  turn-IsSteady p current true none h = (dropped p current h, refl)
  turn-IsSteady p current false listed h = (dropped p current h, refl)

  run_step :
      (p : Poller) (t : Tick) (ticks : List Tick)
      → (turn open_for p t).closed ≡ false
      → run open_for p (t ∷ ticks) ≡ run open_for (turn open_for p t) ticks
  unfolding run
  run_step p t ticks h =
      ap (λ c. if c then turn open_for p t else run open_for (turn open_for p t) ticks) h

  run_from :
      (p : Poller) (current : Option (List Route)) (ticks : List Tick)
      → IsSteady p current
      → IsSteady (run open_for p ticks) (latest p.connected current ticks)
  unfolding run latest turn
  run_from p current [] h = h
  run_from p current (t ∷ ticks) h =
      let (steady, connected) = turn-IsSteady p current (p.connected || t.connects) t.listed h in
      let heard : Bool × Option (List Route) =
        if p.connected || t.connects then polled_routes current t.listed else (false, current) in
      let rest = run_from (turn open_for p t) heard.1 ticks steady in
      subst (λ q. IsSteady q (latest p.connected current (t ∷ ticks)))
        (sym (run_step p t ticks steady.open_still))
        (subst (λ c. IsSteady (run open_for (turn open_for p t) ticks) (latest c heard.1 ticks))
          connected rest)

  -- As long as the manager takes what it is sent, the loop goes on, what it sent last are the
  -- routes of the last successful poll, and no snapshot is sent twice in a row.
  pub run-IsSteady :
      (ticks : List Tick) → IsSteady (run open_for started ticks) (latest false none ticks)
  unfolding IsChanging
  run-IsSteady ticks =
      run_from started none ticks
        (record { open_still = refl; last_sent = refl; up_to_date = refl; changes = tt })
