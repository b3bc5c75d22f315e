-- ===== src/Text.antt =====
-- Rust's `str` as the list of its code points, with the methods of the standard library that the
-- program calls on text.
pub mod Laws
pub mod Split
pub mod Case
mod Decimal
use Prim.Native.Char.{code}
use archetype_proxy_server.Prelude.{
  ℕ, zero, suc, ◌+◌, ◌-◌, ◌*◌, ◌/◌, ◌%◌, ◌^◌, String, Bool, true, false, ◌&&◌, ◌||◌, Option, none,
  some, List, [], ◌∷◌, ◌++◌, map, ltb, leb, ◌==◌, if◌then◌else◌, is_empty, map_some, and_then, any,
}

abbrev pub Str : Type 0
Str = List ℕ

-- A literal of the source.
abbrev pub codes : String → Str
codes String.[] = []
codes (String.◌∷◌ c s) = code c ∷ codes s

-- `==` on `str`
unfoldable pub str_eq : Str → Str → Bool
str_eq [] [] = true
str_eq [] (d ∷ t) = false
str_eq (c ∷ s) [] = false
str_eq (c ∷ s) (d ∷ t) = c == d && str_eq s t

-- The byte length of a code point in UTF-8, and `str::len`.
unfoldable pub utf8_len : ℕ → ℕ
utf8_len c = if ltb c 0x80 then 1 else if ltb c 0x800 then 2 else if ltb c 0x10000 then 3 else 4

unfoldable pub len : Str → ℕ
unfolding utf8_len
len [] = 0
len (c ∷ s) = utf8_len c + len s

-- `char::is_whitespace`, the Unicode property White_Space
unfoldable pub is_whitespace : ℕ → Bool
is_whitespace c =
    leb 9 c && leb c 13
    || c == 32
    || c == 133
    || c == 160
    || c == 5760
    || leb 8192 c && leb c 8202
    || c == 8232
    || c == 8233
    || c == 8239
    || c == 8287
    || c == 12288

unfoldable pub trim_start_matches : (ℕ → Bool) → Str → Str
trim_start_matches p [] = []
trim_start_matches p (c ∷ s) = if p c then trim_start_matches p s else c ∷ s

-- One character put before a text that was trimmed at its end.
abbrev keep : (ℕ → Bool) → ℕ → Str → Str
keep p c [] = if p c then [] else c ∷ []
keep p c (d ∷ s) = c ∷ d ∷ s

unfoldable pub trim_end_matches : (ℕ → Bool) → Str → Str
trim_end_matches p [] = []
trim_end_matches p (c ∷ s) = keep p c (trim_end_matches p s)

unfoldable pub trim : Str → Str
unfolding trim_start_matches trim_end_matches is_whitespace
trim s = trim_end_matches is_whitespace (trim_start_matches is_whitespace s)

-- `trim_end_matches('/')`
abbrev pub is_slash : ℕ → Bool
is_slash c = c == b'/'

-- `s.strip_prefix(p)` and `s.starts_with(p)`
unfoldable pub strip_prefix : Str → Str → Option Str
strip_prefix s [] = some s
strip_prefix [] (c ∷ p) = none
strip_prefix (d ∷ s) (c ∷ p) = if d == c then strip_prefix s p else none

unfoldable pub starts_with : Str → Str → Bool
starts_with s [] = true
starts_with [] (c ∷ p) = false
starts_with (d ∷ s) (c ∷ p) = d == c && starts_with s p

unfoldable pub lower : ℕ → ℕ
lower c = if leb b'A' c && leb c b'Z' then c + 32 else c

unfoldable pub to_ascii_lowercase : Str → Str
unfolding lower
to_ascii_lowercase s = map lower s

unfoldable pub eq_ignore_ascii_case : Str → Str → Bool
unfolding to_ascii_lowercase str_eq
eq_ignore_ascii_case s t = str_eq (to_ascii_lowercase s) (to_ascii_lowercase t)

-- A character put before the first piece.
abbrev prepend : ℕ → List Str → List Str
prepend c [] = (c ∷ []) ∷ []
prepend c (s ∷ pieces) = (c ∷ s) ∷ pieces

-- `str::split` by a test on characters: n separators leave n + 1 pieces.
unfoldable pub split : (ℕ → Bool) → Str → List Str
split p [] = [] ∷ []
split p (c ∷ s) = if p c then [] ∷ split p s else prepend c (split p s)

-- `str::split_once` and `str::rsplit_once`, at the first and at the last occurrence
unfoldable pub split_once : ℕ → Str → Option (Str × Str)
split_once c [] = none
split_once c (d ∷ s) =
    if d == c then some ([], s) else map_some (λ cut. (d ∷ cut.0, cut.1)) (split_once c s)

unfoldable pub rsplit_once : ℕ → Str → Option (Str × Str)
rsplit_once c [] = none
rsplit_once c (d ∷ s) = elim (rsplit_once c s) [
  | some cut ↦ some (d ∷ cut.0, cut.1)
  | none ↦ if d == c then some ([], s) else none
]

-- `slice::join`
unfoldable pub join : Str → List Str → Str
join sep [] = []
join sep (s ∷ []) = s
join sep (s ∷ t ∷ rest) = s ++ sep ++ join sep (t ∷ rest)

-- `usize::to_string`: the digits before `acc`; a number has at most `n + 1` of them.
decimal_loop : ℕ → ℕ → Str → Str
decimal_loop zero n acc = acc
decimal_loop (suc f) n acc =
    let more = decimal_loop f (n / 10) ((b'0' + n % 10) ∷ acc) in
    if ltb n 10 then (b'0' + n) ∷ acc else more

unfoldable pub decimal : ℕ → Str
unfolding decimal_loop
decimal n = decimal_loop (n + 1) n []

-- `str::parse` of an unsigned integer below `bound`: digits, after at most one plus sign.
abbrev is_digit : ℕ → Bool
is_digit c = leb b'0' c && leb c b'9'

digits_value : ℕ → ℕ → Str → Option ℕ
digits_value bound acc [] = some acc
digits_value bound acc (c ∷ s) =
    let next = acc * 10 + (c - b'0') in
    let rest = digits_value bound next s in if is_digit c && ltb next bound then rest else none

unfoldable pub parse_uint : ℕ → Str → Option ℕ
unfolding digits_value
parse_uint bound [] = none
parse_uint bound (c ∷ s) =
    if c == b'+'
    then if is_empty s then none else digits_value bound 0 s
    else digits_value bound 0 (c ∷ s)

abbrev pub u32_bound : ℕ
u32_bound = 2 ^ 32

abbrev pub u64_bound : ℕ
u64_bound = 2 ^ 64
