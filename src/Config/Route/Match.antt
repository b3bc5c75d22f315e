-- ===== src/Config/Route/Match.antt =====
-- Which requests a route matches.
use archetype_proxy_server.Prelude.{
  ◌≡◌, subst, refl, ap, ◌↔◌, ◌⊎◌, inl, inr, true, false, Option, none, some, [], ◌∷◌, ◌++◌, ◌∙◌,
  arith, not, ◌&&◌, if◌then◌else◌, is_empty, append-nil,
}
use archetype_proxy_server.Text.{
  Str, trim_end_matches, is_slash, strip_prefix, starts_with, eq_ignore_ascii_case,
  to_ascii_lowercase,
}
use archetype_proxy_server.Text.Laws.{
  append_of_strip_prefix, strip_prefix-append, trim_end_matches-append,
}
use archetype_proxy_server.Text.Case.{eq_ignore_ascii_case_iff}
use archetype_proxy_server.Config.Route.{Route, path_prefix_matches, matches, at_boundary}

-- A prefix without its trailing slashes covers a path: it is empty, or the path is the prefix, or
-- the path goes on after it with a slash.
abbrev pub Covers : Str → Str → Type 0
Covers prefix path =
    (prefix ≡ []) ⊎ (path ≡ prefix) ⊎ ((rest : Str) × (path ≡ prefix ++ b'/' ∷ rest))

at_boundary_sound :
    (p path : Str) (o : Option Str) → strip_prefix path p ≡ o → at_boundary o ≡ true → Covers p path
unfolding starts_with
at_boundary_sound p path none e h = cc
at_boundary_sound p path (some []) e h =
    inr (inl (append_of_strip_prefix path p [] e ∙ append-nil p))
at_boundary_sound p path (some (c ∷ rest)) e h =
    let slash : c ≡ b'/' = ground arith in
    inr (inr (rest, append_of_strip_prefix path p (c ∷ rest) e ∙ ap (λ d. p ++ d ∷ rest) slash))

at_boundary_complete :
    (p path : Str)
    → (path ≡ p) ⊎ ((rest : Str) × (path ≡ p ++ b'/' ∷ rest))
    → at_boundary (strip_prefix path p) ≡ true
unfolding starts_with
at_boundary_complete p path (inl e) =
    let found : strip_prefix path p ≡ some [] =
      rw e (subst (λ q. strip_prefix q p ≡ some []) (append-nil p) (strip_prefix-append p [])) in
    rw found
at_boundary_complete p path (inr (rest, e)) = rw e (rw (strip_prefix-append p (b'/' ∷ rest)))

-- A path prefix matches exactly the paths that its text without trailing slashes covers.
pub path_prefix_matches_iff :
    (prefix path : Str)
    → (path_prefix_matches prefix path ≡ true) ↔ Covers (trim_end_matches is_slash prefix) path
unfolding path_prefix_matches
path_prefix_matches_iff prefix path = go (trim_end_matches is_slash prefix)
  where
    go :
        (p : Str)
        → ((if is_empty p then true else at_boundary (strip_prefix path p)) ≡ true) ↔ Covers p path
    go [] = (λ _. inl refl, λ _. refl)
    go (c ∷ p) = (
      at_boundary_sound (c ∷ p) path _ refl,
      λ cover. elim cover [ inl e ↦ absurd (cc) | inr way ↦ at_boundary_complete (c ∷ p) path way ],
    )

-- The host of a request fits an empty host, and one that agrees up to ASCII case.
abbrev pub HostFits : Str → Str → Type 0
HostFits pattern host = (pattern ≡ []) ⊎ (to_ascii_lowercase host ≡ to_ascii_lowercase pattern)

HostFits-iff :
    (pattern host : Str)
    → ((not (is_empty pattern) && not (eq_ignore_ascii_case host pattern)) ≡ false)
      ↔ HostFits pattern host
HostFits-iff [] host = (λ _. inl refl, λ _. refl)
HostFits-iff (c ∷ pattern) host =
    let same = eq_ignore_ascii_case_iff host (c ∷ pattern) in
    (
      λ h. inr (same.0 (ground arith)),
      λ fit. elim fit [ inl e ↦ absurd (cc) | inr e ↦ rw (same.1 e) ],
    )

-- A route matches a request exactly when its host fits and its prefix covers the path.
pub matches_iff :
    (r : Route) (host path : Str)
    → (matches r host path ≡ true)
      ↔ (HostFits r.host host × Covers (trim_end_matches is_slash r.path_prefix) path)
unfolding matches
matches_iff r host path =
    let hosts = HostFits-iff r.host host in
    let paths = path_prefix_matches_iff r.path_prefix path in
    (λ h. (hosts.0 (ground arith), paths.0 (ground arith)), λ (h, p). rw (hosts.1 h, paths.1 p))

-- Slashes at the end of a prefix do not change what it matches.
pub path_prefix_matches-slash :
    (prefix path : Str)
    → path_prefix_matches (prefix ++ b'/' ∷ []) path ≡ path_prefix_matches prefix path
unfolding path_prefix_matches
path_prefix_matches-slash prefix path =
    rw (trim_end_matches-append is_slash prefix (b'/' ∷ []) (refl, tt))
