-- ===== src/Version.antt =====
-- internal/version/version.go: which release is newer than the one installed.
-- A version is a text of code points; `strings` and `strconv` are modelled in Text/Strings.antt.
pub mod Order
pub mod Syntax
mod Tests
use rightsizer.Prelude.{
  ℕ, ◌+◌, ◌<◌, Bool, true, false, not, ◌&&◌, ◌||◌, Option, none, some, List, [], ◌∷◌, ltb, ◌==◌,
  if◌then◌else◌, ℤ, pos, sub_ℕ, ltℤ,
}
use rightsizer.Text.{Text, codes}
use rightsizer.Text.Strings.{
  trim_space, trim_prefix, cut, split, contains_any, starts_with, all_digits, Atoi, converted,
  syntax_error, range_error, atoi, atoi_value,
}

pub record Parsed : Type 0 where
  pub core : ℕ × ℕ × ℕ
  -- 0 for alpha, 1 for beta, 2 for rc and 3 for a final release
  pub kind : ℕ
  pub n : ℕ

pub pre : Parsed → Bool
pre p = ltb p.kind 3

-- What is left of `preSuffix` after the word: an optional dot and digits up to the end.
pub number_suffix : Text → Option Text
unfolding trim_prefix all_digits
number_suffix t = let ds = trim_prefix (codes ".") t in if all_digits ds then some ds else none

-- The first word of `words` that the suffix begins with, its index and the digits after it.
pub suffix_from : ℕ → List Text → Text → Option (ℕ × Text)
unfolding number_suffix
suffix_from kind [] t = none
suffix_from kind (w ∷ ws) t = elim (starts_with w t) [
  | none ↦ suffix_from (kind + 1) ws t
  | some rest ↦ elim (number_suffix rest) [ none ↦ none | some ds ↦ some (kind, ds) ]
]

-- `preSuffix.FindStringSubmatch`, and the map from its first group to the kind.
pub pre_suffix : Text → Option (ℕ × Text)
unfolding suffix_from
pre_suffix = suffix_from 0 (codes "alpha" ∷ codes "beta" ∷ codes "rc" ∷ [])

abbrev nonnegative : ℤ → Option ℕ
nonnegative (ℤ.pos m) = some m
nonnegative (ℤ.negsuc m) = none

accept : Atoi → Option ℕ
accept (converted z) = nonnegative z
accept syntax_error = none
accept (range_error z) = none

-- One part of the core: `Atoi` succeeds, is not negative, and the part has no sign.
pub parse_part : Text → Option ℕ
unfolding accept atoi contains_any
parse_part p = elim (accept (atoi p)) [
  | none ↦ none
  | some m ↦ if contains_any p (codes "+-") then none else some m
]

infixl 5 ◌>>=◌
abbrev ◌>>=◌ {ℓ κ} : {A : Type ℓ} {B : Type κ} → Option A → (A → Option B) → Option B
none >>= f = none
some a >>= f = f a

pub parse_core : List Text → Option (ℕ × ℕ × ℕ)
unfolding parse_part
parse_core (a ∷ b ∷ c ∷ []) = do
  x ← parse_part a
  y ← parse_part b
  z ← parse_part c
  some (x, y, z)
parse_core _ = none

-- `out.n, _ = strconv.Atoi(m[2])`: an error is dropped and its value is kept.
pub parse_suffix : Option Text → Option (ℕ × ℕ)
unfolding pre_suffix atoi atoi_value
parse_suffix none = some (3, 0)
parse_suffix (some t) = elim (pre_suffix t) [
  | none ↦ none
  | some (kind, ds) ↦ elim (nonnegative (atoi_value (atoi ds))) [
    | none ↦ none
    | some m ↦ some (kind, m)
  ]
]

pub parse : Text → Option Parsed
unfolding parse_suffix parse_core trim_space trim_prefix cut split
parse v =
    let (core, suffix) = cut b'-' (trim_prefix (codes "v") (trim_space v)) in
    do
      (kind, n) ← parse_suffix suffix
      c ← parse_core (split b'.' core)
      some (record { core = c; kind = kind; n = n })

-- Go subtracts `int`s. Both are at least 0, so the difference does not overflow.
pub differ : ℕ → ℕ → ℤ → ℤ
differ a b rest = if not (a == b) then sub_ℕ a b else rest

pub compare : Parsed → Parsed → ℤ
unfolding differ
compare a b =
    differ a.core.0 b.core.0
      (differ a.core.1 b.core.1 (differ a.core.2 b.core.2 (differ a.kind b.kind (sub_ℕ a.n b.n))))

abbrev newer_parsed : Option Parsed → Option Parsed → Bool
newer_parsed (some l) (some c) = ltℤ (pos 0) (compare l c)
newer_parsed _ _ = false

-- `NewerAny`: pre-releases are offered too.
pub newer_any : Text → Text → Bool
newer_any latest current = newer_parsed (parse latest) (parse current)

abbrev final_only : Option Parsed → Bool → Bool
final_only (some l) b = if pre l then false else b
final_only none b = false

-- `Newer`
pub newer : Text → Text → Bool
newer latest current = final_only (parse latest) (newer_parsed (parse latest) (parse current))

abbrev pre_option : Option Parsed → Bool
pre_option (some p) = pre p
pre_option none = false

-- `IsPre`
pub is_pre : Text → Bool
is_pre v = pre_option (parse v)

abbrev is_some : Option Parsed → Bool
is_some (some p) = true
is_some none = false

-- `Valid`
pub valid : Text → Bool
valid v = is_some (parse v)
