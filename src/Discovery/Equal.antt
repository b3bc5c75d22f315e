-- ===== src/Discovery/Equal.antt =====
-- `PartialEq` of routes, of their lists and of the entries of a map, as src/config.rs derives it.
use archetype_proxy_server.Prelude.{
  ◌≡◌, refl, Bool, true, false, ◌&&◌, Option, none, some, List, [], ◌∷◌, arith, ap₂,
}
use archetype_proxy_server.Text.{Str, str_eq}
use archetype_proxy_server.Text.Laws.{eq_of_str_eq}
use archetype_proxy_server.Config.Kinds.{Source, default, file, discovered, env, cli}
use archetype_proxy_server.Config.Route.{Route}

unfoldable pub bool_eq : Bool → Bool → Bool
bool_eq true b = b
bool_eq false true = false
bool_eq false false = true

unfoldable pub source_eq : Source → Source → Bool
source_eq default default = true
source_eq file file = true
source_eq discovered discovered = true
source_eq env env = true
source_eq cli cli = true
source_eq a b = false

module _ {ℓ} {A : Type ℓ} (eq : A → A → Bool) where
  unfoldable pub option_eq : Option A → Option A → Bool
  option_eq none none = true
  option_eq none (some b) = false
  option_eq (some a) none = false
  option_eq (some a) (some b) = eq a b

  unfoldable pub list_eq : List A → List A → Bool
  list_eq [] [] = true
  list_eq [] (b ∷ bs) = false
  list_eq (a ∷ as') [] = false
  list_eq (a ∷ as') (b ∷ bs) = eq a b && list_eq as' bs

unfoldable pub route_eq : Route → Route → Bool
unfolding str_eq option_eq bool_eq source_eq
route_eq a b =
    str_eq a.name b.name
    && str_eq a.host b.host
    && str_eq a.path_prefix b.path_prefix
    && str_eq a.upstream b.upstream
    && option_eq bool_eq a.strict_attestation b.strict_attestation
    && source_eq a.source b.source

abbrev pub entry_eq : Str × Route → Str × Route → Bool
entry_eq (j, r) (k, q) = str_eq j k && route_eq r q

-- What the tests of equality decide.
pub eq_of_bool_eq : (a b : Bool) → bool_eq a b ≡ true → a ≡ b
unfolding bool_eq
eq_of_bool_eq true b h = cc
eq_of_bool_eq false true h = cc
eq_of_bool_eq false false h = refl

pub eq_of_source_eq : (a b : Source) → source_eq a b ≡ true → a ≡ b
unfolding source_eq
eq_of_source_eq a b h = ground arith

module _ {ℓ} {A : Type ℓ} (eq : A → A → Bool) (sound : (a b : A) → eq a b ≡ true → a ≡ b) where
  pub eq_of_option_eq : (a b : Option A) → option_eq eq a b ≡ true → a ≡ b
  unfolding option_eq
  eq_of_option_eq none none h = refl
  eq_of_option_eq none (some b) h = cc
  eq_of_option_eq (some a) none h = cc
  eq_of_option_eq (some a) (some b) h = ground (arith, sound a b)

  pub eq_of_list_eq : (as' bs : List A) → list_eq eq as' bs ≡ true → as' ≡ bs
  unfolding list_eq
  eq_of_list_eq [] [] h = refl
  eq_of_list_eq [] (b ∷ bs) h = cc
  eq_of_list_eq (a ∷ as') [] h = cc
  eq_of_list_eq (a ∷ as') (b ∷ bs) h = ground (arith, sound a b, eq_of_list_eq as' bs)

&&-split : (a b : Bool) → (a && b) ≡ true → (a ≡ true) × (b ≡ true)
&&-split true b h = (refl, h)
&&-split false b h = cc

pub eq_of_route_eq : (a b : Route) → route_eq a b ≡ true → a ≡ b
unfolding route_eq
eq_of_route_eq a b h =
    let head : Bool = str_eq a.name b.name && str_eq a.host b.host in
    let middle : Bool =
      head && str_eq a.path_prefix b.path_prefix && str_eq a.upstream b.upstream in
    let strict_eq : Bool = option_eq bool_eq a.strict_attestation b.strict_attestation in
    let (h₁, c) = &&-split (middle && strict_eq) (source_eq a.source b.source) h in
    let (h₂, s) = &&-split middle strict_eq h₁ in
    let (h₃, u) =
      &&-split (head && str_eq a.path_prefix b.path_prefix) (str_eq a.upstream b.upstream) h₂ in
    let (h₄, p) = &&-split head (str_eq a.path_prefix b.path_prefix) h₃ in
    let (n, o) = &&-split (str_eq a.name b.name) (str_eq a.host b.host) h₄ in
    let name = eq_of_str_eq a.name b.name n in
    let host = eq_of_str_eq a.host b.host o in
    let path_prefix = eq_of_str_eq a.path_prefix b.path_prefix p in
    let upstream = eq_of_str_eq a.upstream b.upstream u in
    let strict =
      eq_of_option_eq bool_eq eq_of_bool_eq a.strict_attestation b.strict_attestation s in
    let source = eq_of_source_eq a.source b.source c in
    λ i. record {
      name = name i;
      host = host i;
      path_prefix = path_prefix i;
      upstream = upstream i;
      strict_attestation = strict i;
      source = source i;
    }

pub eq_of_entry_eq : (a b : Str × Route) → entry_eq a b ≡ true → a ≡ b
eq_of_entry_eq (j, r) (k, q) h =
    let (key, route) = &&-split (str_eq j k) (route_eq r q) h in
    ap₂ (λ x y. (x, y)) (eq_of_str_eq j k key) (eq_of_route_eq r q route)
