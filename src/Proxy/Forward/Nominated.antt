-- ===== src/Proxy/Forward/Nominated.antt =====
-- The names that the value of a Connection header nominates.
use mathlib.Core.List.{Memᴰ}
use mathlib.Core.List.Memᴰ
use archetype_proxy_server.Prelude.{
  ℕ, ◌≡◌, ◌⊎◌, refl, sym, ap, ◌∙◌, inl, inr, true, false, not, some, List, [], ◌∷◌, ◌++◌, map,
  arith, All, any, filter, is_empty, Bool-cases,
}
use archetype_proxy_server.Text.{Str, str_eq, trim, split, to_ascii_lowercase, is_whitespace}
use archetype_proxy_server.Text.Laws.{str_eq_refl, trim-word}
use archetype_proxy_server.Text.Split.{split-Memᴰ}
use archetype_proxy_server.Config.Tpm.{is_comma}
use archetype_proxy_server.Proxy.Forward.{nominated_in}

not_comma : (s : Str) → All (λ c. is_whitespace c ≡ true) s → All (λ c. is_comma c ≡ false) s
unfolding is_whitespace
not_comma [] h = tt
not_comma (c ∷ s) (w, h) = (ground arith, not_comma s h)

All-append : (P : ℕ → Type 0) (xs ys : Str) → All P xs → All P ys → All P (xs ++ ys)
All-append P [] ys h k = k
All-append P (x ∷ xs) ys (p, h) k = (p, All-append P xs ys h k)

-- The trimmed and lower-cased pieces that are not empty.
abbrev as_name : Str → Str
as_name piece = to_ascii_lowercase (trim piece)

any-pieces :
    {piece : Str} (name : Str) (pieces : List Str)
    → Memᴰ piece pieces
    → as_name piece ≡ name
    → is_empty name ≡ false
    → any (str_eq name) (filter (λ t. not (is_empty t)) (map as_name pieces)) ≡ true
any-pieces name [] m e n = absurd (Memᴰ.not-nil m)
any-pieces {piece} name (s ∷ pieces) m e n = elim (Memᴰ.cases_cons m) [
  | inl same ↦
      let here : as_name s ≡ name = ap as_name (sym same) ∙ e in rw (here, n, str_eq_refl name) refl
  | inr t ↦ elim (Bool-cases (is_empty (as_name s))) [
    | inl empty ↦ rw empty (any-pieces name pieces t e n)
    | inr full ↦ elim (Bool-cases (str_eq name (as_name s))) [
      | inl same ↦ rw (full, same) refl
      | inr other ↦ rw (full, other) (any-pieces name pieces t e n)
    ]
  ]
]

pub nominated_in-word :
    (before lead word trail after : Str)
    → (before ≡ []) ⊎ ((b : Str) × (before ≡ b ++ b',' ∷ []))
    → (after ≡ []) ⊎ ((a : Str) × (after ≡ b',' ∷ a))
    → All (λ c. is_whitespace c ≡ true) lead
    → All (λ c. is_whitespace c ≡ true) trail
    → All (λ c. is_whitespace c ≡ false) word
    → All (λ c. is_comma c ≡ false) word
    → is_empty word ≡ false
    → any
        (str_eq (to_ascii_lowercase word))
        (nominated_in (some (before ++ ((lead ++ word ++ trail) ++ after))))
      ≡ true
unfolding to_ascii_lowercase
nominated_in-word before lead [] trail after b a l t w c n = absurd cc
nominated_in-word before lead (d ∷ word) trail after b a l t w c n =
    any-pieces (to_ascii_lowercase (d ∷ word))
      (split is_comma (before ++ ((lead ++ (d ∷ word) ++ trail) ++ after)))
      (split-Memᴰ is_comma before (lead ++ (d ∷ word) ++ trail) after
        (elim b [ inl e ↦ inl e | inr (x, e) ↦ inr (x, b',', e, refl) ])
        (All-append _ (lead ++ (d ∷ word)) trail (All-append _ lead (d ∷ word) (not_comma lead l) c)
          (not_comma trail t))
        (elim a [ inl e ↦ inl e | inr (x, e) ↦ inr (b',', x, e, refl) ]))
      (ap to_ascii_lowercase (trim-word lead (d ∷ word) trail l w t (λ e. absurd cc))) refl
