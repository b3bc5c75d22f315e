-- ===== src/Text/Case.antt =====
-- ASCII case.
use archetype_proxy_server.Prelude.{
  ℕ, ◌≡◌, ◌≤◌, ◌+◌, refl, sym, ap, ◌∙◌, ◌↔◌, Bool, true, false, ◌&&◌, [], ◌∷◌, map, arith, leb,
  Bool-cases, inl, inr,
}
use archetype_proxy_server.Text.{
  Str, lower, to_ascii_lowercase, eq_ignore_ascii_case, trim_start_matches, trim_end_matches, trim,
  is_whitespace, keep,
}
use archetype_proxy_server.Text.Laws.{str_eq_iff}

pub lower_idem : (c : ℕ) → lower (lower c) ≡ lower c
unfolding lower
lower_idem c = ground arith

pub to_ascii_lowercase_idem :
    (s : Str) → to_ascii_lowercase (to_ascii_lowercase s) ≡ to_ascii_lowercase s
unfolding to_ascii_lowercase
to_ascii_lowercase_idem [] = refl
to_ascii_lowercase_idem (c ∷ s) = cc (lower_idem c, to_ascii_lowercase_idem s)

-- Two texts agree up to ASCII case exactly when their lower-case forms are one text.
pub eq_ignore_ascii_case_iff :
    (s t : Str) → (eq_ignore_ascii_case s t ≡ true) ↔ (to_ascii_lowercase s ≡ to_ascii_lowercase t)
unfolding eq_ignore_ascii_case
eq_ignore_ascii_case_iff s t = str_eq_iff (to_ascii_lowercase s) (to_ascii_lowercase t)

-- A test that does not tell the case of letters apart trims the lower-case text alike.
module _ (p : ℕ → Bool) (blind : (c : ℕ) → p (lower c) ≡ p c) where
  pub trim_start_matches-lower :
      (s : Str)
      → trim_start_matches p (to_ascii_lowercase s) ≡ to_ascii_lowercase (trim_start_matches p s)
  unfolding trim_start_matches to_ascii_lowercase
  trim_start_matches-lower [] = refl
  trim_start_matches-lower (c ∷ s) = rw (blind c) (ground (arith, trim_start_matches-lower s))

  keep-lower : (c : ℕ) (s : Str) → keep p (lower c) (map lower s) ≡ map lower (keep p c s)
  keep-lower c [] = rw (blind c) (ground arith)
  keep-lower c (d ∷ s) = refl

  pub trim_end_matches-lower :
      (s : Str)
      → trim_end_matches p (to_ascii_lowercase s) ≡ to_ascii_lowercase (trim_end_matches p s)
  unfolding trim_end_matches to_ascii_lowercase
  trim_end_matches-lower [] = refl
  trim_end_matches-lower (c ∷ s) =
      ap (keep p (lower c)) (trim_end_matches-lower s) ∙ keep-lower c (trim_end_matches p s)

is_whitespace-lower : (c : ℕ) → is_whitespace (lower c) ≡ is_whitespace c
unfolding is_whitespace lower
is_whitespace-lower c = elim (Bool-cases (leb b'A' c && leb c b'Z')) [
  | inl e ↦ rw e (
      blank_no (c + 32) (ground arith) (ground arith)
      ∙ sym (blank_no c (ground arith) (ground arith)))
  | inr e ↦ rw e
]
  where
    blank_no : (c : ℕ) → b'A' ≤ c → c ≤ b'z' → is_whitespace c ≡ false
    blank_no c h k = ground arith

pub trim-to_ascii_lowercase : (s : Str) → trim (to_ascii_lowercase s) ≡ to_ascii_lowercase (trim s)
unfolding trim
trim-to_ascii_lowercase s =
    ap (trim_end_matches is_whitespace)
      (trim_start_matches-lower is_whitespace is_whitespace-lower s)
    ∙ trim_end_matches-lower is_whitespace is_whitespace-lower (trim_start_matches is_whitespace s)
