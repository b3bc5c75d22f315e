-- ===== src/Text/Laws.antt =====
-- Equality, prefixes and trimming of texts.
use archetype_proxy_server.Prelude.{
  ℕ, ◌+◌, ◌≡◌, refl, ap, ap₂, sym, ◌∙◌, length, length-append, ◌↔◌, ◌≢◌, inl, inr, Bool, true,
  false, some, [], ◌∷◌, ◌++◌, arith, All, Bool-cases,
}
use archetype_proxy_server.Text.{
  len, Str, str_eq, strip_prefix, starts_with, trim_start_matches, trim_end_matches, keep, trim,
  is_whitespace,
}

pub str_eq_refl : (s : Str) → str_eq s s ≡ true
unfolding str_eq
str_eq_refl [] = refl
str_eq_refl (c ∷ s) = ground (arith, str_eq_refl s)

pub eq_of_str_eq : (s t : Str) → str_eq s t ≡ true → s ≡ t
unfolding str_eq
eq_of_str_eq [] [] h = refl
eq_of_str_eq [] (d ∷ t) h = cc
eq_of_str_eq (c ∷ s) [] h = cc
eq_of_str_eq (c ∷ s) (d ∷ t) h = ground (arith, eq_of_str_eq s t)

pub str_eq_iff : (s t : Str) → (str_eq s t ≡ true) ↔ (s ≡ t)
str_eq_iff s t = (eq_of_str_eq s t, λ e. rw e (str_eq_refl t))

pub ne_of_str_eq : (s t : Str) → str_eq s t ≡ false → s ≢ t
ne_of_str_eq s t h e = let same : str_eq s t ≡ true = rw e (str_eq_refl t) in cc

-- A prefix is stripped exactly when the text begins with it.
pub append_of_strip_prefix : (s p r : Str) → strip_prefix s p ≡ some r → s ≡ p ++ r
unfolding strip_prefix
append_of_strip_prefix s [] r h = ground arith
append_of_strip_prefix [] (c ∷ p) r h = cc
append_of_strip_prefix (d ∷ s) (c ∷ p) r h = ground (arith, append_of_strip_prefix s p r)

pub strip_prefix-append : (p r : Str) → strip_prefix (p ++ r) p ≡ some r
unfolding strip_prefix
strip_prefix-append [] r = refl
strip_prefix-append (c ∷ p) r = ground (arith, strip_prefix-append p r)

pub starts_with-append : (p r : Str) → starts_with (p ++ r) p ≡ true
unfolding starts_with
starts_with-append [] r = refl
starts_with-append (c ∷ p) r = ground (arith, starts_with-append p r)

pub append_of_starts_with : (s p : Str) → starts_with s p ≡ true → (r : Str) × (s ≡ p ++ r)
unfolding starts_with
append_of_starts_with s [] h = (s, refl)
append_of_starts_with [] (c ∷ p) h = absurd cc
append_of_starts_with (d ∷ s) (c ∷ p) h =
    let d_c : d ≡ c = ground arith in
    let (r, e) = append_of_starts_with s p (ground arith) in (r, ap₂ (◌∷◌) d_c e)

-- What is trimmed at the end is a suffix of characters that pass the test.
pub trim_end_matches_split :
    (p : ℕ → Bool) (s : Str) → (r : Str) × (s ≡ trim_end_matches p s ++ r) × All (λ c. p c ≡ true) r
unfolding trim_end_matches
trim_end_matches_split p [] = ([], refl, tt)
trim_end_matches_split p (c ∷ s) = go (trim_end_matches p s) (trim_end_matches_split p s)
  where
    go :
        (t : Str)
        → (r : Str) × (s ≡ t ++ r) × All (λ c. p c ≡ true) r
        → (r : Str) × (c ∷ s ≡ keep p c t ++ r) × All (λ c. p c ≡ true) r
    go [] (r, e, a) = elim (Bool-cases (p c)) [
      | inl h ↦ (c ∷ r, rw h (ap (◌∷◌ c) e), (h, a))
      | inr h ↦ (r, rw h (ap (◌∷◌ c) e), a)
    ]
    go (d ∷ t) (r, e, a) = (r, ap (◌∷◌ c) e, a)

-- Trimming keeps a text that ends in another character.
pub trim_end_matches_idem :
    (p : ℕ → Bool) (s : Str) → trim_end_matches p (trim_end_matches p s) ≡ trim_end_matches p s
unfolding trim_end_matches
trim_end_matches_idem p [] = refl
trim_end_matches_idem p (c ∷ s) = go (trim_end_matches p s) (trim_end_matches_idem p s)
  where
    go : (t : Str) → trim_end_matches p t ≡ t → trim_end_matches p (keep p c t) ≡ keep p c t
    go [] e = elim (Bool-cases (p c)) [ inl h ↦ rw h | inr h ↦ rw h (rw h) ]
    go (d ∷ t) e = rw e

pub trim_end_matches-eq-nil :
    (p : ℕ → Bool) (r : Str) → All (λ c. p c ≡ true) r → trim_end_matches p r ≡ []
unfolding trim_end_matches
trim_end_matches-eq-nil p [] h = refl
trim_end_matches-eq-nil p (c ∷ r) (h, a) = rw (trim_end_matches-eq-nil p r a) (rw h)

-- Characters that pass the test may be added at the end.
pub trim_end_matches-append :
    (p : ℕ → Bool) (s r : Str)
    → All (λ c. p c ≡ true) r
    → trim_end_matches p (s ++ r) ≡ trim_end_matches p s
unfolding trim_end_matches
trim_end_matches-append p [] r h = trim_end_matches-eq-nil p r h
trim_end_matches-append p (c ∷ s) r h = ap (keep p c) (trim_end_matches-append p s r h)

-- What is left by trimming does not end in such a character.
pub trim_end_matches-ne :
    (p : ℕ → Bool) (s front : Str) (c : ℕ) → p c ≡ true → trim_end_matches p s ≢ front ++ c ∷ []
trim_end_matches-ne p s front c h e =
    let (r, cut, _) = trim_end_matches_split p front in
    let again : front ++ c ∷ [] ≡ trim_end_matches p front =
      sym e
      ∙ sym (trim_end_matches_idem p s)
      ∙ ap (trim_end_matches p) e
      ∙ trim_end_matches-append p front (c ∷ []) (h, tt) in
    let longer : length front + 1 ≡ length (trim_end_matches p front) =
      sym (length-append front (c ∷ [])) ∙ ap length again in
    let shorter : length front ≡ length (trim_end_matches p front) + length r =
      ap length cut ∙ length-append (trim_end_matches p front) r in
    absurd (omega arith)

-- A word is what is left when the blanks around it are trimmed.
pub trim_start_matches-word :
    (p : ℕ → Bool) (lead word rest : Str)
    → All (λ c. p c ≡ true) lead
    → All (λ c. p c ≡ false) word
    → word ≢ []
    → trim_start_matches p (lead ++ word ++ rest) ≡ word ++ rest
unfolding trim_start_matches
trim_start_matches-word p [] [] rest h k ne = absurd (ne refl)
trim_start_matches-word p [] (c ∷ word) rest h (n, k) ne = rw n
trim_start_matches-word p (c ∷ lead) word rest (y, h) k ne =
    rw y (trim_start_matches-word p lead word rest h k ne)

trim_end_matches-word :
    (p : ℕ → Bool) (word : Str) → All (λ c. p c ≡ false) word → trim_end_matches p word ≡ word
unfolding trim_end_matches
trim_end_matches-word p [] h = refl
trim_end_matches-word p (c ∷ word) (n, h) = rw (trim_end_matches-word p word h) (go word)
  where
    go : (t : Str) → keep p c t ≡ c ∷ t
    go [] = rw n
    go (d ∷ t) = refl

pub trim-word :
    (lead word trail : Str)
    → All (λ c. is_whitespace c ≡ true) lead
    → All (λ c. is_whitespace c ≡ false) word
    → All (λ c. is_whitespace c ≡ true) trail
    → word ≢ []
    → trim (lead ++ word ++ trail) ≡ word
unfolding trim
trim-word lead word trail l w t ne =
    ap (trim_end_matches is_whitespace)
      (trim_start_matches-word is_whitespace lead word trail l w ne)
    ∙ trim_end_matches-append is_whitespace word trail t
    ∙ trim_end_matches-word is_whitespace word w

pub len-append : (s t : Str) → len (s ++ t) ≡ len s + len t
unfolding len
len-append [] t = omega arith
len-append (c ∷ s) t = omega (arith, len-append s t)
