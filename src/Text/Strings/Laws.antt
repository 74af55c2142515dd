-- ===== src/Text/Strings/Laws.antt =====
-- Laws of the string functions on texts of digits and of other printable ASCII characters.
use rightsizer.Prelude.{
  ℕ, ◌+◌, ◌-◌, ◌*◌, ◌^◌, ◌≤◌, ◌<◌, ◌≡◌, refl, ap, ◌∙◌, ◌≢◌, true, false, none, some, [], ◌∷◌, ◌++◌,
  arith, lt→ltb, pos, All,
}
use rightsizer.Text.{Text}
use rightsizer.Text.Strings.{
  is_space, trim_left, keep_space, trim_right, trim_space, cut, split, is_digit, all_digits,
  converted, number, parse_uint, atoi,
}

abbrev pub Graphic : ℕ → Type 0
Graphic c = (33 ≤ c) × (c ≤ 126)

is_space-Graphic : (c : ℕ) → Graphic c → is_space c ≡ false
unfolding is_space
is_space-Graphic c g = ground arith

trim_left-Graphic : (t : Text) → All Graphic t → trim_left t ≡ t
unfolding trim_left
trim_left-Graphic [] g = refl
trim_left-Graphic (c ∷ t) g = rw (is_space-Graphic c g.0, trim_left)

keep_space-Graphic : (c : ℕ) (t : Text) → Graphic c → keep_space c t ≡ c ∷ t
unfolding keep_space
keep_space-Graphic c [] g = rw (is_space-Graphic c g)
keep_space-Graphic c (d ∷ t) g = refl

trim_right-Graphic : (t : Text) → All Graphic t → trim_right t ≡ t
unfolding trim_right
trim_right-Graphic [] g = refl
trim_right-Graphic (c ∷ t) g =
    keep_space-Graphic c (trim_right t) g.0 ∙ ap (◌∷◌ c) (trim_right-Graphic t g.1)

pub trim_space-Graphic : (t : Text) → All Graphic t → trim_space t ≡ t
unfolding trim_space
trim_space-Graphic t g = ap trim_right (trim_left-Graphic t g) ∙ trim_right-Graphic t g

-- No character of the text is the separator.
abbrev pub Lacks : ℕ → Text → Type 0
Lacks sep = All (λ c. c ≢ sep)

pub cut-Lacks : (sep : ℕ) (t : Text) → Lacks sep t → cut sep t ≡ (t, none)
unfolding cut
cut-Lacks sep [] h = refl
cut-Lacks sep (c ∷ t) h = ground (arith, cut-Lacks sep t h.1)

pub cut-append : (sep : ℕ) (t u : Text) → Lacks sep t → cut sep (t ++ sep ∷ u) ≡ (t, some u)
unfolding cut
cut-append sep [] u h = ground arith
cut-append sep (c ∷ t) u h = ground (arith, cut-append sep t u h.1)

pub split-Lacks : (sep : ℕ) (t : Text) → Lacks sep t → split sep t ≡ t ∷ []
unfolding split
split-Lacks sep [] h = refl
split-Lacks sep (c ∷ t) h = ground (arith, split-Lacks sep t h.1)

pub split-append : (sep : ℕ) (t u : Text) → Lacks sep t → split sep (t ++ sep ∷ u) ≡ t ∷ split sep u
unfolding split
split-append sep [] u h = ground arith
split-append sep (c ∷ t) u h = ground (arith, split-append sep t u h.1)

-- The number that a text of decimal digits stands for, behind the digits read so far.
abbrev pub decimal : ℕ → Text → ℕ
decimal n [] = n
decimal n (c ∷ t) = decimal (n * 10 + (c - b'0')) t

decimal-le : (n : ℕ) (t : Text) → n ≤ decimal n t
decimal-le n [] = omega arith
decimal-le n (c ∷ t) = omega (arith, decimal-le (n * 10 + (c - b'0')) t)

parse_uint-decimal :
    (n : ℕ) (t : Text)
    → all_digits t ≡ true
    → decimal n t < 2 ^ 64
    → parse_uint n t ≡ number (decimal n t)
unfolding parse_uint all_digits
parse_uint-decimal n [] d h = refl
parse_uint-decimal n (c ∷ t) d h =
    rw (head.0, lt→ltb (n * 10 + (c - b'0')) (2 ^ 64) below, parse_uint)
      (parse_uint-decimal (n * 10 + (c - b'0')) t head.1 h)
  where
    head : (is_digit c ≡ true) × (all_digits t ≡ true)
    head = ground arith

    below : n * 10 + (c - b'0') < 2 ^ 64
    below = omega (arith, decimal-le (n * 10 + (c - b'0')) t)

abbrev pub IsNumeral : Text → Type 0
IsNumeral t = (t ≢ []) × (all_digits t ≡ true) × (decimal 0 t < 2 ^ 63)

pub atoi-decimal : (t : Text) → IsNumeral t → atoi t ≡ converted (pos (decimal 0 t))
unfolding atoi all_digits
atoi-decimal [] h = absurd (h.0 refl)
atoi-decimal (c ∷ t) h =
    ground (arith, parse_uint-decimal 0 (c ∷ t), lt→ltb (decimal 0 (c ∷ t)) (2 ^ 63) h.2)
