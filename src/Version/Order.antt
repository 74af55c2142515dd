-- ===== src/Version/Order.antt =====
-- `Newer` and `NewerAny` of internal/version/version.go against the order of releases.
use rightsizer.Prelude.{
  ℕ, ◌<◌, ◌≡◌, ◌≢◌, refl, ap, ◌↔◌, ◌⊎◌, inl, inr, true, not, ◌&&◌, Option, none, some, List, [],
  ◌∷◌, arith, ℤ, pos, sub_ℕ, ltℤ, ◌==◌, Bool-cases, length, dec_lt,
}
use rightsizer.Text.{Text}
use rightsizer.Version.{
  Parsed, parse, differ, compare, newer_parsed, newer_any, newer, is_pre, valid, is_some,
  final_only, pre_option,
}

-- The order of dictionaries.
abbrev pub LexLt : List ℕ → List ℕ → Type 0
LexLt [] ys = ⊥
LexLt (x ∷ xs) [] = ⊥
LexLt (x ∷ xs) (y ∷ ys) = (x < y) ⊎ ((x ≡ y) × LexLt xs ys)

-- A release by importance: major, minor, patch, then alpha < beta < rc < final, then its number.
abbrev pub rank : Parsed → List ℕ
rank p = p.core.0 ∷ p.core.1 ∷ p.core.2 ∷ p.kind ∷ p.n ∷ []

abbrev pub IsLater : Option Parsed → Option Parsed → Type 0
IsLater (some l) (some c) = LexLt (rank c) (rank l)
IsLater _ _ = ⊥

LexLt-trans : (xs ys zs : List ℕ) → LexLt xs ys → LexLt ys zs → LexLt xs zs
LexLt-trans [] ys zs h k = absurd h
LexLt-trans (x ∷ xs) [] zs h k = absurd h
LexLt-trans (x ∷ xs) (y ∷ ys) [] h k = absurd k
LexLt-trans (x ∷ xs) (y ∷ ys) (z ∷ zs) (inl h) (inl k) = inl (omega arith)
LexLt-trans (x ∷ xs) (y ∷ ys) (z ∷ zs) (inl h) (inr (e, k)) = inl (omega arith)
LexLt-trans (x ∷ xs) (y ∷ ys) (z ∷ zs) (inr (e, h)) (inl k) = inl (omega arith)
LexLt-trans (x ∷ xs) (y ∷ ys) (z ∷ zs) (inr (e, h)) (inr (f, k)) =
    inr (omega arith, LexLt-trans xs ys zs h k)

LexLt-irrefl : (xs : List ℕ) → ¬ LexLt xs xs
LexLt-irrefl [] h = h
LexLt-irrefl (x ∷ xs) (inl h) = omega arith
LexLt-irrefl (x ∷ xs) (inr (e, h)) = LexLt-irrefl xs h

abbrev IsPos : ℤ → Type 0
IsPos z = ltℤ (pos 0) z ≡ true

sub_ℕ-IsPos : (a b : ℕ) → IsPos (sub_ℕ a b) ↔ LexLt (b ∷ []) (a ∷ [])
sub_ℕ-IsPos a b = (λ h. ground arith, λ h. ground arith)

differ-IsPos :
    (a b : ℕ) (z : ℤ) (P : Type 0) → IsPos z ↔ P → IsPos (differ a b z) ↔ ((b < a) ⊎ ((b ≡ a) × P))
unfolding differ
differ-IsPos a b z P (f, g) = elim (Bool-cases (a == b)) [
  | inl same ↦ rw same (
    λ h. inr (ground arith, f h),
    λ h. elim h [ inl lt ↦ absurd (ground arith) | inr (e, p) ↦ g p ],
  )
  | inr apart ↦ rw apart (λ h. inl (ground arith), λ h. ground arith)
]

compare-IsPos : (l c : Parsed) → IsPos (compare l c) ↔ LexLt (rank c) (rank l)
unfolding compare
compare-IsPos l c = differ-IsPos l.core.0 c.core.0 _ _ (
    differ-IsPos l.core.1 c.core.1 _ _ (
      differ-IsPos l.core.2 c.core.2 (differ l.kind c.kind last) _
        (differ-IsPos l.kind c.kind last _ (sub_ℕ-IsPos l.n c.n))))
  where
    last : ℤ
    last = sub_ℕ l.n c.n

newer_parsed_iff : (l c : Option Parsed) → (newer_parsed l c ≡ true) ↔ IsLater l c
newer_parsed_iff none c = (λ h. cc, λ h. absurd h)
newer_parsed_iff (some l) none = (λ h. cc, λ h. absurd h)
newer_parsed_iff (some l) (some c) = compare-IsPos l c

-- `newer_any` offers a text exactly when both are versions and it ranks later.
pub newer_any_iff :
    (latest current : Text)
    → (newer_any latest current ≡ true) ↔ IsLater (parse latest) (parse current)
unfolding newer_any
newer_any_iff latest current = newer_parsed_iff (parse latest) (parse current)

IsLater-trans : (a b c : Option Parsed) → IsLater a b → IsLater b c → IsLater a c
IsLater-trans none b c h k = absurd h
IsLater-trans (some a) none c h k = absurd h
IsLater-trans (some a) (some b) none h k = absurd k
IsLater-trans (some a) (some b) (some c) h k = LexLt-trans (rank c) (rank b) (rank a) k h

IsLater-irrefl : (a : Option Parsed) → ¬ IsLater a a
IsLater-irrefl none h = h
IsLater-irrefl (some a) h = LexLt-irrefl (rank a) h

-- Offers chain: if a is newer than b and b than c, then a is newer than c, and c is not newer than a.
pub newer_any_trans :
    (a b c : Text)
    → newer_any a b ≡ true
    → newer_any b c ≡ true
    → (newer_any a c ≡ true) × (newer_any c a ≢ true)
newer_any_trans a b c h k = (
  (newer_any_iff a c).1 chain,
  λ back. IsLater-irrefl (parse a) (IsLater-trans _ _ _ chain ((newer_any_iff c a).0 back)),
)
  where
    chain : IsLater (parse a) (parse c)
    chain =
        IsLater-trans (parse a) (parse b) (parse c) ((newer_any_iff a b).0 h)
          ((newer_any_iff b c).0 k)

LexLt-total : (xs ys : List ℕ) → length xs ≡ length ys → LexLt xs ys ⊎ (LexLt ys xs ⊎ (xs ≡ ys))
LexLt-total [] [] e = inr (inr refl)
LexLt-total [] (y ∷ ys) e = absurd (omega arith)
LexLt-total (x ∷ xs) [] e = absurd (omega arith)
LexLt-total (x ∷ xs) (y ∷ ys) e = elim (dec_lt x y) [
  | yes p ↦ inl (inl p)
  | no p ↦ elim (dec_lt y x) [
    | yes q ↦ inr (inl (inl q))
    | no q ↦ ground (arith, LexLt-total xs ys (omega arith))
  ]
]

Parsed-eq : (p q : Parsed) → rank p ≡ rank q → p ≡ q
Parsed-eq p q e = ground arith

parsed_total :
    (a b : Option Parsed)
    → is_some a ≡ true
    → is_some b ≡ true
    → IsLater b a ⊎ (IsLater a b ⊎ (a ≡ b))
parsed_total none b h k = cc
parsed_total (some a) none h k = cc
parsed_total (some a) (some b) h k = elim (LexLt-total (rank a) (rank b) refl) [
  | inl p ↦ inl p
  | inr (inl p) ↦ inr (inl p)
  | inr (inr e) ↦ inr (inr (ap some (Parsed-eq a b e)))
]

-- Of two valid versions one is newer, unless they parse alike.
pub newer_any_total :
    (a b : Text)
    → valid a ≡ true
    → valid b ≡ true
    → (newer_any b a ≡ true) ⊎ ((newer_any a b ≡ true) ⊎ (parse a ≡ parse b))
unfolding valid
newer_any_total a b h k = elim (parsed_total (parse a) (parse b) h k) [
  | inl p ↦ inl ((newer_any_iff b a).1 p)
  | inr (inl p) ↦ inr (inl ((newer_any_iff a b).1 p))
  | inr (inr e) ↦ inr (inr e)
]

final_only_lem :
    (l : Option Parsed) (c : Option Parsed)
    → final_only l (newer_parsed l c) ≡ (newer_parsed l c && not (pre_option l))
final_only_lem none c = refl
final_only_lem (some l) c = ground arith

-- The release channel offers what the pre-release channel does, less the pre-releases.
pub newer_lem :
    (latest current : Text)
    → newer latest current ≡ (newer_any latest current && not (is_pre latest))
unfolding newer newer_any is_pre
newer_lem latest current = final_only_lem (parse latest) (parse current)
