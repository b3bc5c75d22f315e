-- ===== src/Discovery/Labels/Sound.antt =====
-- What the routes of a container are.
use archetype_proxy_server.Prelude.{
  ◌≡◌, refl, Bool, true, false, Option, none, some, List, [], ◌∷◌, ◌++◌, All, All-append,
  if◌then◌else◌, ap, sym, append-nil,
}
use archetype_proxy_server.Text.{Str, codes}
use archetype_proxy_server.Ordered.{BTreeMap, get}
use archetype_proxy_server.Ordered.Keys.{str_ord}
use archetype_proxy_server.Config.Kinds.{discovered}
use archetype_proxy_server.Config.Route.{Route}
use archetype_proxy_server.Discovery.Labels.{
  Labels, Warning, short, is_true, flag, group, named_routes, add_group, or_implicit,
  routes_from_labels,
}

-- A route that was discovered in this container.
pub record IsFrom (id : Str) (r : Route) : Type 0 where
  pub found : r.source ≡ discovered
  pub rest : Str
  pub name : r.name ≡ (codes "docker/" ++ short id ++ rest)

add_group-All :
    (id : Str) (strict : Option Bool) (name : Str) (fields : Labels) (upstream : Option Str)
    (state : List Route × List Warning)
    → All (IsFrom id) state.0
    → All (IsFrom id) (add_group id strict name fields upstream state).0
add_group-All id strict name fields none (routes, warnings) h = h
add_group-All id strict name fields (some upstream) (routes, warnings) h =
    All-append (IsFrom id) routes _ h (record { found = refl; rest = b'/' ∷ name; name = refl }, tt)

named_routes-All :
    (id : Str) (strict : Option Bool) (grouped : BTreeMap Str Labels)
    (state : List Route × List Warning)
    → All (IsFrom id) state.0
    → All (IsFrom id) (named_routes id strict grouped state).0
unfolding named_routes
named_routes-All id strict [] state h = h
named_routes-All id strict ((name, fields) ∷ grouped) state h =
    named_routes-All id strict grouped _
      (add_group-All id strict name fields (get (codes "upstream") fields) state h)

or_implicit-All :
    (id : Str) (strict : Option Bool) (labels : Labels) (upstream : Option Str)
    (state : List Route × List Warning)
    → All (IsFrom id) state.0
    → All (IsFrom id) (or_implicit id strict labels upstream state).0
or_implicit-All id strict labels upstream (r ∷ routes, warnings) h = h
or_implicit-All id strict labels (some upstream) ([], warnings) h = (
  record {
    found = refl;
    rest = [];
    name = ap (λ t. codes "docker/" ++ t) (sym (append-nil (short id)));
  },
  tt,
)
or_implicit-All id strict labels none ([], warnings) h = tt

enabled-All :
    (id : Str) (enabled : Bool) (state : List Route × List Warning)
    → All (IsFrom id) state.0
    → All (IsFrom id) (if enabled then state else ([], [])).0
enabled-All id true state h = h
enabled-All id false state h = tt

-- A container that did not opt in yields no routes. Each route of one that did is marked as
-- discovered, and its name begins with the container's short id.
pub routes_from_labels-IsFrom :
    (id : Str) (labels : Labels)
    → (is_true (flag (codes "archetype.enable") labels) ≡ false
        → routes_from_labels id labels ≡ ([], []))
      × All (IsFrom id) (routes_from_labels id labels).0
unfolding routes_from_labels
routes_from_labels-IsFrom id labels = (
  λ off. rw (off, routes_from_labels) refl,
  enabled-All id (is_true (flag (codes "archetype.enable") labels)) _ (
      or_implicit-All id (flag (codes "archetype.attestation.strict") labels) labels
        (get (codes "archetype.upstream") labels) _
        (named_routes-All id _ (group labels ([], [])).0 ([], (group labels ([], [])).1) tt)),
)
