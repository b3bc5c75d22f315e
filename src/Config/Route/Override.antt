-- ===== src/Config/Route/Override.antt =====
-- Which of two routes for the same requests wins: the dynamic precedence file < discovered.
use archetype_proxy_server.Prelude.{
  ◌≡◌, ◌≢◌, sym, inl, inr, true, false, some, List, [], ◌∷◌, ◌++◌, ◌+◌, arith, All-Memᴰ, subst, ◌∙◌,
}
use mathlib.Core.List.{Memᴰ}
use mathlib.Core.List.Memᴰ
use archetype_proxy_server.Text.{Str, len}
use archetype_proxy_server.Text.Laws.{len-append}
use archetype_proxy_server.Config.Kinds.{Source}
use archetype_proxy_server.Config.Route.{Route, less_specific, matches, new, select}
use archetype_proxy_server.Config.Route.Match.{path_prefix_matches-slash}
use archetype_proxy_server.Config.Route.Select.{select-IsChosen}

-- A route loses to a strictly more specific one that matches whatever it matches.
loses :
    (rs : List Route) (host path : Str) (r q : Route)
    → Memᴰ q rs
    → (matches r host path ≡ true → matches q host path ≡ true)
    → less_specific r q ≡ true
    → less_specific q r ≡ false
    → select (new rs) host path ≢ some r
unfolding less_specific
loses rs host path r q m also less not_less e =
    let c = select-IsChosen rs host path r e in
    let matched = also c.matched in
    elim (Memᴰ.append_cases c.before (subst (λ xs. Memᴰ q xs) c.split m)) [
      | inl early ↦
          let claim =
            All-Memᴰ (λ x. matches x host path ≡ true → less_specific x r ≡ true) c.before c.first
              early in
          cc (claim matched)
      | inr late ↦ elim (Memᴰ.cases_cons late) [
        | inl same ↦
            let loop : less_specific r r ≡ true = subst (λ x. less_specific r x ≡ true) same less in
            absurd (ground arith)
        | inr later ↦
            let claim =
              All-Memᴰ (λ x. matches x host path ≡ true → less_specific r x ≡ false) c.after
                c.greatest later in
            cc (claim matched)
      ]
    ]

-- Where a file route and a discovered route have the same host and the same path prefix, the file
-- route is never selected.
pub select-ne-file :
    (rs : List Route) (host path : Str) (f d : Route)
    → Memᴰ d rs
    → f.source ≡ Source.file
    → d.source ≡ Source.discovered
    → f.host ≡ d.host
    → f.path_prefix ≡ d.path_prefix
    → select (new rs) host path ≢ some f
unfolding less_specific matches
select-ne-file rs host path f d m file discovered hosts prefixes =
    loses rs host path f d m (λ h. rw (← hosts, ← prefixes) h) less not_less
  where
    less : less_specific f d ≡ true
    less = rw (hosts, prefixes, file, discovered) (ground arith)

    not_less : less_specific d f ≡ false
    not_less = rw (hosts, prefixes, file, discovered) (ground arith)

longer_wins :
    (a b : Route)
    → a.host ≡ b.host
    → len b.path_prefix ≡ len a.path_prefix + 1
    → (less_specific a b ≡ true) × (less_specific b a ≡ false)
unfolding less_specific
longer_wins a b hosts longer = (ground arith, ground arith)

-- A slash at the end of the file route's prefix turns this round, though both routes then match
-- the same requests: the discovered route is never selected.
pub select-ne-discovered_of_slash :
    (rs : List Route) (host path : Str) (f d : Route)
    → Memᴰ f rs
    → f.host ≡ d.host
    → f.path_prefix ≡ d.path_prefix ++ b'/' ∷ []
    → (matches f host path ≡ matches d host path) × (select (new rs) host path ≢ some d)
unfolding less_specific matches
select-ne-discovered_of_slash rs host path f d m hosts slash = (
  same,
  loses rs host path d f m (λ h. same ∙ h) (longer_wins d f (sym hosts) longer).0
      (longer_wins d f (sym hosts) longer).1,
)
  where
    same : matches f host path ≡ matches d host path
    same = rw (hosts, slash, path_prefix_matches-slash d.path_prefix path)

    longer : len f.path_prefix ≡ len d.path_prefix + 1
    longer = rw (slash, len-append d.path_prefix (b'/' ∷ []))
