-- ===== src/Ws/Upgrade/Url.antt =====
-- The URL that is dialled.
use archetype_proxy_server.Prelude.{
  ◌≡◌, ◌⊎◌, ◌↔◌, sym, refl, ap, ◌∙◌, inl, inr, Option, none, some, [], ◌∷◌, ◌++◌, Result, ok,
  Bool-cases, Option-cases, >>=-eq-ok, arith,
}
use archetype_proxy_server.Text.{Str, codes, starts_with, strip_prefix, trim_end_matches, is_slash}
use archetype_proxy_server.Text.Laws.{append_of_strip_prefix, append_of_starts_with}
use archetype_proxy_server.Ws.Upgrade.{build_upstream_ws_url, query_suffix, ws_base}

-- A base with its scheme, and the same with the scheme of a WebSocket: TLS stays TLS.
pub data HasScheme (base front : Str) : Type 0 where
  tls :
      (rest : Str)
      → base ≡ codes "https://" ++ rest
      → front ≡ codes "wss://" ++ rest
      → HasScheme base front
  plain :
      (rest : Str)
      → base ≡ codes "http://" ++ rest
      → front ≡ codes "ws://" ++ rest
      → HasScheme base front
  tls_socket : (rest : Str) → base ≡ codes "wss://" ++ rest → front ≡ base → HasScheme base front
  plain_socket : (rest : Str) → base ≡ codes "ws://" ++ rest → front ≡ base → HasScheme base front

-- The URL for an upstream: its base with the scheme of a WebSocket, the path, and the query after
-- a question mark if there is one.
pub record IsDialled (upstream path : Str) (query : Option Str) (url : Str) : Type 0 where
  pub front : Str
  pub tail : Str
  pub scheme : HasScheme (trim_end_matches is_slash upstream) front
  pub joined : url ≡ front ++ path ++ tail
  pub asked : ((query ≡ none) × (tail ≡ [])) ⊎ ((q : Str) × (query ≡ some q) × (tail ≡ b'?' ∷ q))

asked_of :
    (query : Option Str)
    → ((query ≡ none) × (query_suffix query ≡ []))
      ⊎ ((q : Str) × (query ≡ some q) × (query_suffix query ≡ b'?' ∷ q))
asked_of none = inl (refl, refl)
asked_of (some q) = inr (q, refl, refl)

suffix_of :
    (query : Option Str) (tail : Str)
    → ((query ≡ none) × (tail ≡ [])) ⊎ ((q : Str) × (query ≡ some q) × (tail ≡ b'?' ∷ q))
    → tail ≡ query_suffix query
suffix_of none tail (inl (e, t)) = t
suffix_of none tail (inr (q, e, t)) = absurd cc
suffix_of (some r) tail (inl (e, t)) = absurd cc
suffix_of (some r) tail (inr (q, e, t)) = cc

abbrev front_of : (base upstream : Str) → Result Str Str
front_of base upstream =
    ws_base base upstream (strip_prefix base (codes "https://"))
      (strip_prefix base (codes "http://"))

front_of_sound :
    (base upstream front : Str) → front_of base upstream ≡ ok front → HasScheme base front
front_of_sound base upstream front h = elim (Option-cases (strip_prefix base (codes "https://"))) [
  | inr (rest, e) ↦
      let same : codes "wss://" ++ rest ≡ front = ground arith in
      tls rest (append_of_strip_prefix base (codes "https://") rest e) (sym same)
  | inl no_tls ↦ elim (Option-cases (strip_prefix base (codes "http://"))) [
    | inr (rest, e) ↦
        let same : codes "ws://" ++ rest ≡ front = ground arith in
        plain rest (append_of_strip_prefix base (codes "http://") rest e) (sym same)
    | inl no_http ↦ elim (Bool-cases (starts_with base (codes "ws://"))) [
      | inl e ↦
          let (rest, cut) = append_of_starts_with base (codes "ws://") e in
          plain_socket rest cut (ground arith)
      | inr no_ws ↦ elim (Bool-cases (starts_with base (codes "wss://"))) [
        | inl e ↦
            let (rest, cut) = append_of_starts_with base (codes "wss://") e in
            tls_socket rest cut (ground arith)
        | inr no_wss ↦ absurd (ground arith)
      ]
    ]
  ]
]

front_of_complete :
    (base upstream front : Str) → HasScheme base front → front_of base upstream ≡ ok front
unfolding strip_prefix starts_with
front_of_complete base upstream front (tls rest b f) = rw (b, f) refl
front_of_complete base upstream front (plain rest b f) = rw (b, f) refl
front_of_complete base upstream front (tls_socket rest b f) = rw (f, b) refl
front_of_complete base upstream front (plain_socket rest b f) = rw (f, b) refl

-- The URL that is built is the one that is to be dialled, and it is built whenever there is one.
pub build_upstream_ws_url_iff :
    (upstream path : Str) (query : Option Str) (url : Str)
    → (build_upstream_ws_url upstream path query ≡ ok url) ↔ IsDialled upstream path query url
unfolding build_upstream_ws_url
build_upstream_ws_url_iff upstream path query url = (sound, complete)
  where
    sound : build_upstream_ws_url upstream path query ≡ ok url → IsDialled upstream path query url
    sound h =
        let base = trim_end_matches is_slash upstream in
        let (front, e, rest) = >>=-eq-ok (front_of base upstream) _ h in
        record {
          front = front;
          tail = query_suffix query;
          scheme = front_of_sound base upstream front e;
          joined = sym (cc);
          asked = asked_of query;
        }

    complete :
        IsDialled upstream path query url → build_upstream_ws_url upstream path query ≡ ok url
    complete d =
        let e = front_of_complete (trim_end_matches is_slash upstream) upstream d.front d.scheme in
        let t = suffix_of query d.tail d.asked in
        rw (e) (ap ok (ap (λ x. d.front ++ path ++ x) (sym t) ∙ sym d.joined))
