-- ===== src/Discovery/Labels.antt =====
-- src/discovery/labels.rs: routes from the labels of a container.
pub mod Sound
use archetype_proxy_server.Prelude.{
  Bool, true, false, Option, none, some, List, [], ◌∷◌, ◌++◌, take, unwrap_or, and_then, or_option,
  if◌then◌else◌,
}
use archetype_proxy_server.Text.{Str, codes, strip_prefix, rsplit_once, to_ascii_lowercase}
use archetype_proxy_server.Ordered.{BTreeMap, get, insert}
use archetype_proxy_server.Ordered.Keys.{str_ord}
use archetype_proxy_server.Config.Kinds.{discovered, parse_bool_token}
use archetype_proxy_server.Config.Route.{Route}

-- The messages of the source, with what they quote.
pub data Warning : Type 0 where
  malformed_label : (key : Str) → Warning
  missing_upstream : (name : Str) → Warning
  no_routes : (short_id : Str) → Warning

abbrev pub Labels : Type 0
Labels = BTreeMap Str Str

-- `short`
abbrev pub short : Str → Str
short id = take 12 id

abbrev pub flag : Str → Labels → Option Bool
flag key labels = and_then (get key labels) parse_bool_token

abbrev pub is_true : Option Bool → Bool
is_true (some true) = true
is_true (some false) = false
is_true none = false

-- `entry(name).or_default().insert(field, v)`
abbrev insert_field : Str → Str → Str → BTreeMap Str Labels → BTreeMap Str Labels
insert_field name field v grouped =
    insert name (insert field v (unwrap_or (get name grouped) [])) grouped

-- What one label adds to the groups and to the warnings, by its name and field, if it has them.
abbrev add_label :
    Str
    → Str
    → Option (Option (Str × Str))
    → BTreeMap Str Labels × List Warning
    → BTreeMap Str Labels × List Warning
add_label k v none (grouped, warnings) = (grouped, warnings)
add_label k v (some none) (grouped, warnings) = (grouped, warnings ++ malformed_label k ∷ [])
add_label k v (some (some (name, field))) (grouped, warnings) =
    (insert_field name (to_ascii_lowercase field) v grouped, warnings)

-- The name and the field of a label under the prefix of routes.
abbrev name_and_field : Str → Option (Option (Str × Str))
name_and_field k =
    and_then (strip_prefix k (codes "archetype.route.")) (λ rest. some (rsplit_once b'.' rest))

unfoldable pub group :
    Labels → BTreeMap Str Labels × List Warning → BTreeMap Str Labels × List Warning
group [] state = state
group ((k, v) ∷ labels) state = group labels (add_label k v (name_and_field k) state)

abbrev named_route : Str → Option Bool → Str → Labels → Str → Route
named_route id global_strict name fields upstream = record {
  name = codes "docker/" ++ short id ++ b'/' ∷ name;
  host = unwrap_or (get (codes "host") fields) [];
  path_prefix = unwrap_or (get (codes "pathprefix") fields) [];
  upstream = upstream;
  strict_attestation = or_option (flag (codes "strict") fields) global_strict;
  source = discovered;
}

abbrev pub add_group :
    Str
    → Option Bool
    → Str
    → Labels
    → Option Str
    → List Route × List Warning
    → List Route × List Warning
add_group id global_strict name fields none (routes, warnings) =
    (routes, warnings ++ missing_upstream name ∷ [])
add_group id global_strict name fields (some upstream) (routes, warnings) =
    (routes ++ named_route id global_strict name fields upstream ∷ [], warnings)

unfoldable pub named_routes :
    Str → Option Bool → BTreeMap Str Labels → List Route × List Warning → List Route × List Warning
named_routes id global_strict [] state = state
named_routes id global_strict ((name, fields) ∷ grouped) state =
    named_routes id global_strict grouped
      (add_group id global_strict name fields (get (codes "upstream") fields) state)

abbrev implicit_route : Str → Option Bool → Labels → Str → Route
implicit_route id global_strict labels upstream = record {
  name = codes "docker/" ++ short id;
  host = unwrap_or (get (codes "archetype.host") labels) [];
  path_prefix = unwrap_or (get (codes "archetype.pathprefix") labels) [];
  upstream = upstream;
  strict_attestation = global_strict;
  source = discovered;
}

abbrev pub or_implicit :
    Str → Option Bool → Labels → Option Str → List Route × List Warning → List Route × List Warning
or_implicit id global_strict labels upstream (r ∷ routes, warnings) = (r ∷ routes, warnings)
or_implicit id global_strict labels (some upstream) ([], warnings) =
    (implicit_route id global_strict labels upstream ∷ [], warnings)
or_implicit id global_strict labels none ([], warnings) =
    ([], warnings ++ no_routes (short id) ∷ [])

unfoldable pub routes_from_labels : Str → Labels → List Route × List Warning
routes_from_labels container_id labels =
    let global_strict = flag (codes "archetype.attestation.strict") labels in
    let (grouped, malformed) = group labels ([], []) in
    if is_true (flag (codes "archetype.enable") labels)
    then or_implicit container_id global_strict labels (get (codes "archetype.upstream") labels)
        (named_routes container_id global_strict grouped ([], malformed))
    else ([], [])
