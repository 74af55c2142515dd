-- ===== src/Text/Strings.antt =====
-- The functions of Go's `strings` and `strconv` that the program calls, on code points.
pub mod Laws
use rightsizer.Prelude.{
  ℕ, ◌+◌, ◌-◌, ◌*◌, ◌^◌, Bool, true, false, ◌&&◌, ◌||◌, Option, none, some, List, [], ◌∷◌, ltb, leb,
  ◌==◌, if◌then◌else◌, ℤ, pos, negsuc,
}
use rightsizer.Text.{Text}

-- `unicode.IsSpace`
pub is_space : ℕ → Bool
is_space c =
    (leb 9 c && leb c 13)
    || c == 32
    || c == 0x85
    || c == 0xa0
    || c == 0x1680
    || (leb 0x2000 c && leb c 0x200a)
    || c == 0x2028
    || c == 0x2029
    || c == 0x202f
    || c == 0x205f
    || c == 0x3000

unfoldable pub trim_left : Text → Text
unfolding is_space
trim_left [] = []
trim_left (c ∷ t) = elim (is_space c) [ true ↦ trim_left t | false ↦ c ∷ t ]

keep_space : ℕ → Text → Text
unfolding is_space
keep_space c [] = if is_space c then [] else c ∷ []
keep_space c (d ∷ t) = c ∷ d ∷ t

unfoldable pub trim_right : Text → Text
unfolding keep_space
trim_right [] = []
trim_right (c ∷ t) = keep_space c (trim_right t)

-- `strings.TrimSpace`
unfoldable pub trim_space : Text → Text
unfolding trim_left trim_right
trim_space t = trim_right (trim_left t)

-- What follows the prefix, if the text begins with it.
abbrev pub starts_with : Text → Text → Option Text
starts_with [] t = some t
starts_with (p ∷ ps) [] = none
starts_with (p ∷ ps) (c ∷ t) = elim (p == c) [ true ↦ starts_with ps t | false ↦ none ]

abbrev or_whole : Text → Option Text → Text
or_whole t none = t
or_whole t (some r) = r

-- `strings.TrimPrefix`
unfoldable pub trim_prefix : Text → Text → Text
trim_prefix p t = or_whole t (starts_with p t)

abbrev cons_fst : ℕ → Text × Option Text → Text × Option Text
cons_fst c (a, b) = (c ∷ a, b)

-- `strings.Cut` at a one-character separator: what is before it and, if it occurs, what is after.
unfoldable pub cut : ℕ → Text → Text × Option Text
cut sep [] = ([], none)
cut sep (c ∷ t) = elim (c == sep) [ true ↦ ([], some t) | false ↦ cons_fst c (cut sep t) ]

abbrev cons_first : ℕ → List Text → List Text
cons_first c [] = (c ∷ []) ∷ []
cons_first c (x ∷ xs) = (c ∷ x) ∷ xs

-- `strings.Split` at a one-character separator.
unfoldable pub split : ℕ → Text → List Text
split sep [] = [] ∷ []
split sep (c ∷ t) = elim (c == sep) [ true ↦ [] ∷ split sep t | false ↦ cons_first c (split sep t) ]

abbrev pub has : ℕ → Text → Bool
has c [] = false
has c (d ∷ t) = c == d || has c t

-- `strings.ContainsAny`
unfoldable pub contains_any : Text → Text → Bool
contains_any [] set = false
contains_any (c ∷ t) set = has c set || contains_any t set

abbrev pub is_digit : ℕ → Bool
is_digit c = leb b'0' c && leb c b'9'

unfoldable pub all_digits : Text → Bool
all_digits [] = true
all_digits (c ∷ t) = is_digit c && all_digits t

-- The result of `strconv.Atoi`; an error comes with the value that is returned beside it.
pub data Atoi : Type 0 where
  converted : ℤ → Atoi
  syntax_error : Atoi
  range_error : ℤ → Atoi

pub data Uint : Type 0 where
  number : ℕ → Uint
  no_number : Uint
  too_large : Uint

-- The loop of `strconv.ParseUint` in base 10 over the bytes left.
unfoldable pub parse_uint : ℕ → Text → Uint
parse_uint n [] = number n
parse_uint n (c ∷ t) = elim (is_digit c) [
  | false ↦ no_number
  | true ↦ elim (ltb (n * 10 + (c - b'0')) (2 ^ 64)) [
    | false ↦ too_large
    | true ↦ parse_uint (n * 10 + (c - b'0')) t
  ]
]

-- `negsuc n` is -(n + 1); -0 is 0.
abbrev negate : ℕ → ℤ
negate n = if n == 0 then pos 0 else negsuc (n - 1)

abbrev signed : Bool → Uint → Atoi
signed negative no_number = syntax_error
signed true too_large = range_error (negsuc (2 ^ 63 - 1))
signed false too_large = range_error (pos (2 ^ 63 - 1))
signed true (number n) =
    if ltb (2 ^ 63) n then range_error (negsuc (2 ^ 63 - 1)) else converted (negate n)
signed false (number n) =
    if ltb n (2 ^ 63) then converted (pos n) else range_error (pos (2 ^ 63 - 1))

abbrev magnitude : Text → Uint
magnitude [] = no_number
magnitude (c ∷ t) = parse_uint 0 (c ∷ t)

-- `strconv.Atoi` on a 64-bit machine.
unfoldable pub atoi : Text → Atoi
unfolding parse_uint
atoi [] = syntax_error
atoi (c ∷ t) =
    if c == b'-'
    then signed true (magnitude t)
    else if c == b'+'
    then signed false (magnitude t)
    else signed false (magnitude (c ∷ t))

unfoldable pub atoi_value : Atoi → ℤ
atoi_value (converted z) = z
atoi_value syntax_error = pos 0
atoi_value (range_error z) = z

abbrev utf8_width : ℕ → ℕ
utf8_width c = if ltb c 0x80 then 1 else if ltb c 0x800 then 2 else if ltb c 0x10000 then 3 else 4

-- `len(p)`, in bytes
unfoldable pub byte_length : Text → ℕ
byte_length [] = 0
byte_length (c ∷ t) = utf8_width c + byte_length t
