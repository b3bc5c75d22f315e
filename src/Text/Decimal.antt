-- ===== src/Text/Decimal.antt =====
-- The digits of a number are read back as the number: the bound of the loop that prints is enough.
use archetype_proxy_server.Prelude.{
  ℕ, zero, suc, ◌+◌, ◌*◌, ◌-◌, ◌/◌, ◌%◌, ◌<◌, ◌≡◌, refl, false, some, [], ◌∷◌, arith, is_empty,
  Bool-cases, ltb, ltb→lt, ap, subst, ◌∙◌, inl, inr, ◌≤◌,
}
use archetype_proxy_server.Text.{Str, decimal_loop, decimal, digits_value, parse_uint}

-- A first digit is read.
digits_value-digit :
    (bound acc d : ℕ) (s : Str)
    → d < 10
    → acc * 10 + d < bound
    → digits_value bound acc ((b'0' + d) ∷ s) ≡ digits_value bound (acc * 10 + d) s
unfolding digits_value
digits_value-digit bound acc d s small h =
    let digit : (b'0' + d) - b'0' ≡ d = omega arith in rw digit (ground arith)

digits_value-decimal_loop :
    (bound f n : ℕ) (acc : Str)
    → n < f
    → n < bound
    → digits_value bound 0 (decimal_loop f n acc) ≡ digits_value bound n acc
unfolding decimal_loop
digits_value-decimal_loop bound zero n acc enough h = absurd (omega arith)
digits_value-decimal_loop bound (suc f) n acc enough h = elim (Bool-cases (ltb n 10)) [
  | inl small ↦
      let whole : 0 * 10 + n ≡ n = omega arith in
      rw small (
        digits_value-digit bound 0 n acc (ltb→lt n 10 small) (omega arith)
        ∙ ap (λ v. digits_value bound v acc) whole)
  | inr large ↦
      let ten : 10 ≤ n = ground arith in
      let n_split : (n / 10) * 10 + n % 10 ≡ n = omega arith in
      rw large (
        digits_value-decimal_loop bound f (n / 10) ((b'0' + n % 10) ∷ acc) (omega arith)
          (omega arith)
        ∙ digits_value-digit bound (n / 10) (n % 10) acc (omega arith) (omega arith)
        ∙ ap (λ v. digits_value bound v acc) n_split)
]

not_empty : (f n c : ℕ) (acc : Str) → is_empty (decimal_loop f n (c ∷ acc)) ≡ false
unfolding decimal_loop
not_empty zero n c acc = refl
not_empty (suc f) n c acc = ground (arith, not_empty f (n / 10) (b'0' + n % 10) (c ∷ acc))

is_empty-decimal_loop : (f n : ℕ) → is_empty (decimal_loop (suc f) n []) ≡ false
unfolding decimal_loop
is_empty-decimal_loop f n = ground (arith, not_empty f (n / 10) (b'0' + n % 10) [])

parse_uint-digits :
    (bound v : ℕ) (s : Str)
    → is_empty s ≡ false
    → digits_value bound 0 s ≡ some v
    → parse_uint bound s ≡ some v
unfolding parse_uint digits_value
parse_uint-digits bound v [] e h = cc
parse_uint-digits bound v (c ∷ s) e h = ground arith

-- A number below the bound is printed and read back.
parse_uint-decimal : (bound n : ℕ) → n < bound → parse_uint bound (decimal n) ≡ some n
unfolding decimal digits_value
parse_uint-decimal bound n h =
    let steps : suc n ≡ n + 1 = omega arith in
    parse_uint-digits bound n (decimal n)
      (subst (λ f. is_empty (decimal_loop f n []) ≡ false) steps (is_empty-decimal_loop n n))
      (digits_value-decimal_loop bound (n + 1) n [] (omega arith) h)
