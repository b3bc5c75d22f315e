-- ===== src/Proxy/Forward/Headers.antt =====
-- Which headers of the upstream reach the client.
use mathlib.Core.List.{Memᴰ}
use mathlib.Core.List.Memᴰ
use archetype_proxy_server.Prelude.{
  ℕ, ◌≡◌, ◌≢◌, ◌⊎◌, sym, ap, ◌∙◌, is_empty, Option, All-Memᴰ, refl, inl, inr, Bool, true, false,
  some, List, [], ◌∷◌, ◌++◌, arith, All, any, All-imp, Bool-cases, Option-cases,
}
use archetype_proxy_server.Text.{Str, codes, str_eq, to_ascii_lowercase, is_whitespace}
use archetype_proxy_server.Text.Laws.{str_eq_refl}
use archetype_proxy_server.Config.Tpm.{is_comma}
use archetype_proxy_server.Proxy.Types
use archetype_proxy_server.Proxy.Types.{Http, header}
use archetype_proxy_server.Proxy.Forward.Nominated.{nominated_in-word}
use archetype_proxy_server.Proxy.Forward.{
  static_hop_by_hop, nominated, is_stripped, keep_headers, forwarded_headers, nominated_in, and_str,
}

-- The hop-by-hop headers of RFC 7230, and the length, which is set anew.
abbrev pub hop_by_hop : List Str
hop_by_hop =
    codes "connection"
    ∷ codes "keep-alive"
    ∷ codes "proxy-authenticate"
    ∷ codes "proxy-authorization"
    ∷ codes "te"
    ∷ codes "trailer"
    ∷ codes "transfer-encoding"
    ∷ codes "upgrade"
    ∷ codes "content-length"
    ∷ []

-- A header that must not be forwarded, for the value of the Connection header: it is one of the
-- list, or it is, in lower case, a word of that value, which stands between commas or at an end,
-- with blanks around it.
pub data IsHopByHop (connection : Option Str) (name : Str) : Type 0 where
  listed : Memᴰ name hop_by_hop → IsHopByHop connection name
  nominated_by :
      (before lead word trail after : Str)
      → connection ≡ some (before ++ ((lead ++ word ++ trail) ++ after))
      → (before ≡ []) ⊎ ((b : Str) × (before ≡ b ++ b',' ∷ []))
      → (after ≡ []) ⊎ ((a : Str) × (after ≡ b',' ∷ a))
      → All (λ c. is_whitespace c ≡ true) lead
      → All (λ c. is_whitespace c ≡ true) trail
      → All (λ c. is_whitespace c ≡ false) word
      → All (λ c. is_comma c ≡ false) word
      → is_empty word ≡ false
      → to_ascii_lowercase word ≡ name
      → IsHopByHop connection name

any_of_Memᴰ : {name : Str} (names : List Str) → Memᴰ name names → any (str_eq name) names ≡ true
any_of_Memᴰ [] m = absurd (Memᴰ.not-nil m)
any_of_Memᴰ {name} (n ∷ names) m = elim (Memᴰ.cases_cons m) [
  | inl e ↦ let same : str_eq name n ≡ true = rw e (str_eq_refl n) in rw same refl
  | inr t ↦ elim (Bool-cases (str_eq name n)) [
    | inl e ↦ rw e refl
    | inr e ↦ rw e (any_of_Memᴰ names t)
  ]
]

any_append_true : (p : Str → Bool) (xs ys : List Str) → any p ys ≡ true → any p (xs ++ ys) ≡ true
any_append_true p [] ys h = h
any_append_true p (x ∷ xs) ys h = ground (arith, any_append_true p xs ys h)

any_append_left : (p : Str → Bool) (xs ys : List Str) → any p xs ≡ true → any p (xs ++ ys) ≡ true
any_append_left p [] ys h = cc
any_append_left p (x ∷ xs) ys h = ground (arith, any_append_left p xs ys)

hop_by_hop-listed : (name : Str) → Memᴰ name hop_by_hop → any (str_eq name) static_hop_by_hop ≡ true
unfolding str_eq
hop_by_hop-listed name m =
    All-Memᴰ (λ n. any (str_eq n) static_hop_by_hop ≡ true) hop_by_hop
      (refl, (refl, (refl, (refl, (refl, (refl, (refl, (refl, (refl, tt))))))))) m

module _ (http : Http) where
  keep_headers-All :
      (stripped : Str → Bool) (headers : Types.Headers)
      → All (λ h. stripped h.0 ≡ false) (keep_headers http stripped headers)
  unfolding keep_headers
  keep_headers-All stripped [] = tt
  keep_headers-All stripped ((name, value) ∷ more) = elim (Bool-cases (stripped name)) [
    | inl s ↦ rw s (keep_headers-All stripped more)
    | inr k ↦ elim (Option-cases (http.to_str value)) [
      | inl n ↦ rw k (rw n (keep_headers-All stripped more))
      | inr (v, t) ↦ rw k (rw t (k, keep_headers-All stripped more))
    ]
  ]

  -- The text of the first Connection header.
  abbrev pub connection_value : Types.Headers → Option Str
  connection_value headers = and_str http (header (codes "connection") headers)

  IsHopByHop-is_stripped :
      (headers : Types.Headers) (name : Str)
      → IsHopByHop (connection_value headers) name
      → is_stripped http headers name ≡ true
  unfolding is_stripped nominated
  IsHopByHop-is_stripped headers name (listed m) =
      any_append_true (str_eq name) (nominated http headers) static_hop_by_hop
        (hop_by_hop-listed name m)
  IsHopByHop-is_stripped headers name
        (nominated_by before lead word trail after v b a l t w c n e) =
      any_append_left (str_eq name) (nominated http headers) static_hop_by_hop
        (rw (← e, v) (nominated_in-word before lead word trail after b a l t w c n))

  -- No header that reaches the client has the name of a hop-by-hop header, or one that the
  -- upstream's first Connection header nominates in any case and between any blanks.
  pub forwarded_headers-ne :
      (headers : Types.Headers) (name : Str)
      → IsHopByHop (connection_value headers) name
      → All (λ h. h.0 ≢ name) (forwarded_headers http headers)
  unfolding forwarded_headers
  forwarded_headers-ne headers name h =
      All-imp
        (λ e kept same.
          let stripped = IsHopByHop-is_stripped headers name h in
          let clash : true ≡ false =
            sym stripped ∙ ap (is_stripped http headers) (sym same) ∙ kept in
          absurd cc)
        (forwarded_headers http headers) (keep_headers-All (is_stripped http headers) headers)

  any_append_false :
      (p : Str → Bool) (xs ys : List Str)
      → any p xs ≡ false
      → any p ys ≡ false
      → any p (xs ++ ys) ≡ false
  any_append_false p [] ys h k = k
  any_append_false p (x ∷ xs) ys h k = ground (arith, any_append_false p xs ys)

  kept_last :
      (all : Types.Headers) (first second value : List ℕ) (name text : Str)
      → is_stripped http all (codes "connection") ≡ true
      → is_stripped http all name ≡ false
      → http.to_str value ≡ some text
      → keep_headers http
          (is_stripped http all)
          ((codes "connection", first) ∷ (codes "connection", second) ∷ (name, value) ∷ [])
        ≡ (name, text) ∷ []
  unfolding keep_headers
  kept_last all first second value name text cut kept v = rw (cut, kept, v)

  -- The names are those of the first Connection header.
  nominated_first :
      (value : List ℕ) (more : Types.Headers) (names : Str)
      → http.to_str value ≡ some names
      → nominated http ((codes "connection", value) ∷ more) ≡ nominated_in (some names)
  unfolding nominated header str_eq
  nominated_first value more names e = rw e

  connection_listed : any (str_eq (codes "connection")) static_hop_by_hop ≡ true
  unfolding str_eq
  connection_listed = refl

  connection_stripped :
      (headers : Types.Headers) → is_stripped http headers (codes "connection") ≡ true
  unfolding is_stripped
  connection_stripped headers =
      any_append_true (str_eq (codes "connection")) (nominated http headers) static_hop_by_hop
        connection_listed

  -- Of two Connection headers only the first is read: a header that the second one nominates, and
  -- that the first and the static list do not name, reaches the client, whatever the second says.
  pub forwarded_headers-second_connection :
      (first second value : List ℕ) (names name text : Str)
      → http.to_str first ≡ some names
      → any (str_eq name) (nominated_in (some names)) ≡ false
      → any (str_eq name) static_hop_by_hop ≡ false
      → http.to_str value ≡ some text
      → forwarded_headers http
          ((codes "connection", first) ∷ (codes "connection", second) ∷ (name, value) ∷ [])
        ≡ (name, text) ∷ []
  unfolding forwarded_headers is_stripped
  forwarded_headers-second_connection first second value names name text f n s v =
      let headers : Types.Headers =
        (codes "connection", first) ∷ (codes "connection", second) ∷ (name, value) ∷ [] in
      let cut = connection_stripped headers in
      let named : any (str_eq name) (nominated http headers) ≡ false =
        rw (nominated_first first ((codes "connection", second) ∷ (name, value) ∷ []) names f) n in
      let kept : is_stripped http headers name ≡ false =
        any_append_false (str_eq name) (nominated http headers) static_hop_by_hop named s in
      kept_last headers first second value name text cut kept v
