-- ===== src/Text/Split.antt =====
-- Cutting texts at a separator.
use mathlib.Core.List.{Memᴰ}
use archetype_proxy_server.Prelude.{
  ℕ, Bool, ◌≡◌, ◌⊎◌, refl, false, none, some, [], ◌∷◌, ◌++◌, List, true, ap, ◌∙◌, append_assoc,
  append-nil, arith, All, ◌==◌, Bool-cases, Option-cases, inl, inr,
}
use archetype_proxy_server.Text.{Str, split_once, rsplit_once, split, prepend}

-- The text has no character `c`.
abbrev pub Lacks : ℕ → Str → Type 0
Lacks c s = All (λ d. (d == c) ≡ false) s

pub rsplit_once-eq-none : (c : ℕ) (s : Str) → rsplit_once c s ≡ none → Lacks c s
unfolding rsplit_once
rsplit_once-eq-none c [] h = tt
rsplit_once-eq-none c (d ∷ s) h = ground (arith, rsplit_once-eq-none c s)

-- Cutting at the last separator: the text is put together again by the separator, which the
-- second piece does not hold.
pub rsplit_once_sound :
    (c : ℕ) (s a b : Str) → rsplit_once c s ≡ some (a, b) → (s ≡ a ++ c ∷ b) × Lacks c b
unfolding rsplit_once
rsplit_once_sound c [] a b h = cc
rsplit_once_sound c (d ∷ s) a b h = elim (Option-cases (rsplit_once c s)) [
  | inl e ↦ ground (arith, rsplit_once-eq-none c s)
  | inr ((x, y), e) ↦ ground (arith, rsplit_once_sound c s x y)
]

-- A text with a separator is cut.
pub rsplit_once-append : (c : ℕ) (a b : Str) → Lacks c b → rsplit_once c (a ++ c ∷ b) ≡ some (a, b)
unfolding rsplit_once
rsplit_once-append c [] b h = rw (rsplit_once-eq-none_of_Lacks c b h, rsplit_once) (ground arith)
  where
    rsplit_once-eq-none_of_Lacks : (c : ℕ) (s : Str) → Lacks c s → rsplit_once c s ≡ none
    rsplit_once-eq-none_of_Lacks c [] h = refl
    rsplit_once-eq-none_of_Lacks c (d ∷ s) (p, h) = rw (rsplit_once-eq-none_of_Lacks c s h) (rw p)
rsplit_once-append c (d ∷ a) b h = rw (rsplit_once-append c a b h)

-- Cutting at the first separator.
pub split_once_sound :
    (c : ℕ) (s a b : Str) → split_once c s ≡ some (a, b) → (s ≡ a ++ c ∷ b) × Lacks c a
unfolding split_once
split_once_sound c [] a b h = cc
split_once_sound c (d ∷ s) a b h = elim (Option-cases (split_once c s)) [
  | inl e ↦ ground arith
  | inr ((x, y), e) ↦ ground (arith, split_once_sound c s x y)
]

-- Cutting at every separator.
module _ (p : ℕ → Bool) where
  split-piece : (s : Str) → All (λ c. p c ≡ false) s → split p s ≡ s ∷ []
  unfolding split
  split-piece [] h = refl
  split-piece (c ∷ s) (n, h) = rw n (ap (prepend c) (split-piece s h))

  -- There is always a first piece.
  split-cons : (s : Str) → (w : Str) × (ws : List Str) × (split p s ≡ w ∷ ws)
  unfolding split
  split-cons [] = ([], [], refl)
  split-cons (c ∷ s) = elim (Bool-cases (p c)) [
    | inl e ↦ ([], split p s, rw e refl)
    | inr e ↦ let (w, ws, h) = split-cons s in (c ∷ w, ws, rw e (ap (prepend c) h))
  ]

  -- The pieces of a text are those before a separator and those after it.
  pub split-append :
      (b : Str) (c : ℕ) (s : Str) → p c ≡ true → split p (b ++ c ∷ s) ≡ split p b ++ split p s
  unfolding split
  split-append [] c s h = rw h refl
  split-append (d ∷ b) c s h = elim (Bool-cases (p d)) [
    | inl e ↦ rw (e, split) (ap (◌∷◌ []) (split-append b c s h))
    | inr e ↦
        let (w, ws, first) = split-cons b in
        rw (e, split) (ap (prepend d) (split-append b c s h) ∙ rw first refl)
  ]

  -- The first piece.
  split-first :
      (s after : Str)
      → All (λ c. p c ≡ false) s
      → (after ≡ []) ⊎ ((c : ℕ) × (a : Str) × (after ≡ c ∷ a) × (p c ≡ true))
      → Memᴰ s (split p (s ++ after))
  split-first s after h (inl e) = rw (e, append-nil s, split-piece s h) (Memᴰ.head refl)
  split-first s after h (inr (c, a, e, cut)) =
      rw (e, split-append s c a cut, split-piece s h) (Memᴰ.head refl)

  -- A piece between separators, or at an end of the text.
  pub split-Memᴰ :
      (before s after : Str)
      → (before ≡ []) ⊎ ((b : Str) × (c : ℕ) × (before ≡ b ++ c ∷ []) × (p c ≡ true))
      → All (λ c. p c ≡ false) s
      → (after ≡ []) ⊎ ((c : ℕ) × (a : Str) × (after ≡ c ∷ a) × (p c ≡ true))
      → Memᴰ s (split p (before ++ (s ++ after)))
  split-Memᴰ before s after (inl e) h more = rw e (split-first s after h more)
  split-Memᴰ before s after (inr (b, c, e, cut)) h more =
      let whole : before ++ (s ++ after) ≡ b ++ c ∷ (s ++ after) =
        ap (λ x. x ++ (s ++ after)) e ∙ append_assoc b (c ∷ []) (s ++ after) in
      rw (whole, split-append b c (s ++ after) cut)
        (in_right (split p b) (split-first s after h more))
    where
      in_right : {x : Str} (xs : List Str) {ys : List Str} → Memᴰ x ys → Memᴰ x (xs ++ ys)
      in_right [] m = m
      in_right (y ∷ xs) m = Memᴰ.tail (in_right xs m)
