-- ===== src/Config/Route.antt =====
-- Routes and the route table of src/config.rs.
pub mod Match
pub mod Members
pub mod Select
pub mod Override
use archetype_proxy_server.Prelude.{
  ℕ, Bool, true, false, ◌&&◌, ◌||◌, not, Option, none, some, List, [], ◌∷◌, compare, Ordering,
  if◌then◌else◌, is_empty, find,
}
use archetype_proxy_server.Text.{
  Str, len, str_eq, eq_ignore_ascii_case, trim_end_matches, is_slash, strip_prefix, starts_with,
}
use archetype_proxy_server.Config.Kinds.{Source, route_rank}

pub record Route : Type 0 where
  pub name : Str
  pub host : Str
  pub path_prefix : Str
  pub upstream : Str
  pub strict_attestation : Option Bool
  pub source : Source

-- `u8::from(!text.is_empty())`
abbrev bonus : Str → ℕ
bonus s = if is_empty s then 0 else 1

unfoldable pub specificity : Route → ℕ × ℕ × ℕ
unfolding len route_rank
specificity r = (bonus r.host, len r.path_prefix, route_rank r.source)

-- `Ord` of the key: tuples compare lexicographically.
abbrev pub lex : ℕ × ℕ × ℕ → ℕ × ℕ × ℕ → Ordering
lex a b = elim (compare a.0 b.0) [
  | Ordering.lt ↦ Ordering.lt
  | Ordering.gt ↦ Ordering.gt
  | Ordering.eq ↦ elim (compare a.1 b.1) [
    | Ordering.lt ↦ Ordering.lt
    | Ordering.gt ↦ Ordering.gt
    | Ordering.eq ↦ compare a.2 b.2
  ]
]

-- `path_prefix_matches`: on segment boundaries, a trailing slash of the prefix ignored.
abbrev at_boundary : Option Str → Bool
at_boundary none = false
at_boundary (some rest) = is_empty rest || starts_with rest (b'/' ∷ [])

unfoldable pub path_prefix_matches : Str → Str → Bool
unfolding trim_end_matches strip_prefix starts_with
path_prefix_matches prefix path =
    let p = trim_end_matches is_slash prefix in
    if is_empty p then true else at_boundary (strip_prefix path p)

unfoldable pub matches : Route → Str → Str → Bool
unfolding path_prefix_matches eq_ignore_ascii_case
matches r host path =
    if not (is_empty r.host) && not (eq_ignore_ascii_case host r.host)
    then false
    else if not (path_prefix_matches r.path_prefix path)
    then false
    else true

pub record RouteTable : Type 0 where
  pub routes : List Route

-- Whether the key of the first route is the smaller one.
unfoldable pub less_specific : Route → Route → Bool
unfolding specificity
less_specific r q = elim (lex (specificity r) (specificity q)) [ Ordering.lt ↦ true | _ ↦ false ]

-- `sort_by_key(|r| Reverse(r.specificity()))`: a stable sort, the greatest key first. An earlier
-- route goes before those that are not more specific than it is.
place : Route → List Route → List Route
place r [] = r ∷ []
place r (q ∷ qs) = if less_specific r q then q ∷ place r qs else r ∷ q ∷ qs

unfoldable pub sort_routes : List Route → List Route
unfolding place less_specific
sort_routes [] = []
sort_routes (r ∷ rs) = place r (sort_routes rs)

-- `RouteTable::new`
unfoldable pub new : List Route → RouteTable
unfolding sort_routes
new routes = record { routes = sort_routes routes }

-- `RouteTable::select`
unfoldable pub select : RouteTable → Str → Str → Option Route
unfolding matches
select t host path = find (λ r. matches r host path) t.routes
