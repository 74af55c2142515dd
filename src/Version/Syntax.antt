-- ===== src/Version/Syntax.antt =====
-- Which texts `parse` of internal/version/version.go reads, and as what.
use mathlib.Core.List.{append-nil}
use rightsizer.Prelude.{
  ℕ, ◌<◌, ◌≡◌, refl, ap, ◌∙◌, ◌≢◌, true, false, Option, none, some, [], ◌∷◌, ◌++◌, arith, All,
  All-append,
}
use rightsizer.Text.{Text, codes}
use rightsizer.Text.Strings.{
  is_digit, all_digits, contains_any, atoi_value, trim_prefix, cut, split,
}
use rightsizer.Text.Strings.Laws.{
  Graphic, Lacks, IsNumeral, decimal, trim_space-Graphic, cut-Lacks, cut-append, split-Lacks,
  split-append, atoi-decimal,
}
use rightsizer.Version.{Parsed, parse, parse_part, parse_core, parse_suffix, pre_suffix}

pub data Stage : Type 0 where
  alpha beta rc : Stage

-- The words of the release process, in its order.
abbrev pub word : Stage → Text
word alpha = codes "alpha"
word beta = codes "beta"
word rc = codes "rc"

abbrev pub stage_kind : Stage → ℕ
stage_kind alpha = 0
stage_kind beta = 1
stage_kind rc = 2

pub data Label : Type 0 where
  final : Label
  candidate : Stage → Text → Label

-- A version by its numerals: major, minor, patch and the label.
pub record Release : Type 0 where
  pub major : Text
  pub minor : Text
  pub patch : Text
  pub label : Label

abbrev pub IsLabel : Label → Type 0
IsLabel final = Unit {0}
IsLabel (candidate s ds) = IsNumeral ds

abbrev pub IsRelease : Release → Type 0
IsRelease r = IsNumeral r.major × IsNumeral r.minor × IsNumeral r.patch × IsLabel r.label

abbrev pub core_text : Release → Text
core_text r = r.major ++ b'.' ∷ (r.minor ++ b'.' ∷ r.patch)

abbrev pub label_text : Label → Text
label_text final = []
label_text (candidate s ds) = b'-' ∷ (word s ++ b'.' ∷ ds)

-- The text of a version, such as v1.4.0-rc.1.
abbrev pub print : Release → Text
print r = b'v' ∷ (core_text r ++ label_text r.label)

-- What stands behind the dash.
abbrev label_suffix : Label → Option Text
label_suffix final = none
label_suffix (candidate s ds) = some (word s ++ b'.' ∷ ds)

abbrev pub label_value : Label → ℕ × ℕ
label_value final = (3, 0)
label_value (candidate s ds) = (stage_kind s, decimal 0 ds)

abbrev pub release_value : Release → Parsed
release_value r = record {
  core = (decimal 0 r.major, decimal 0 r.minor, decimal 0 r.patch);
  kind = (label_value r.label).0;
  n = (label_value r.label).1;
}

All-of_digits :
    (P : ℕ → Type 0)
    → ((c : ℕ) → is_digit c ≡ true → P c)
    → (t : Text) → all_digits t ≡ true
    → All P t
unfolding all_digits
All-of_digits P f [] h = tt
All-of_digits P f (c ∷ t) h = (f c (ground arith), All-of_digits P f t (ground arith))

digit-Graphic : (c : ℕ) → is_digit c ≡ true → Graphic c
digit-Graphic c h = ground arith

digit-ne : (s c : ℕ) → s < b'0' → is_digit c ≡ true → c ≢ s
digit-ne s c l h = ground arith

Lacks-of_digits : (s : ℕ) (t : Text) → s < b'0' → all_digits t ≡ true → Lacks s t
Lacks-of_digits s t l h = All-of_digits (λ c. c ≢ s) (λ c d. digit-ne s c l d) t h

contains_any-digits : (t : Text) → all_digits t ≡ true → contains_any t (codes "+-") ≡ false
unfolding contains_any all_digits
contains_any-digits [] h = refl
contains_any-digits (c ∷ t) h = ground (arith, contains_any-digits t)

parse_part-decimal : (t : Text) → IsNumeral t → parse_part t ≡ some (decimal 0 t)
unfolding parse_part
parse_part-decimal t h = ground (arith, atoi-decimal t h, contains_any-digits t h.1)

split-core :
    (r : Release) → IsRelease r → split b'.' (core_text r) ≡ r.major ∷ r.minor ∷ r.patch ∷ []
split-core r (a, b, c, l) =
    split-append b'.' r.major _ (Lacks-of_digits b'.' r.major (omega arith) a.1)
    ∙ ap (◌∷◌ r.major) (
        split-append b'.' r.minor _ (Lacks-of_digits b'.' r.minor (omega arith) b.1)
        ∙ ap (◌∷◌ r.minor)
            (split-Lacks b'.' r.patch (Lacks-of_digits b'.' r.patch (omega arith) c.1)))

core-Lacks : (r : Release) → IsRelease r → Lacks b'-' (core_text r)
core-Lacks r (a, b, c, l) =
    All-append _ r.major _ (Lacks-of_digits b'-' r.major (omega arith) a.1) (
      λ e. omega arith,
      All-append _ r.minor _ (Lacks-of_digits b'-' r.minor (omega arith) b.1)
          (λ e. omega arith, Lacks-of_digits b'-' r.patch (omega arith) c.1),
    )

Graphic-digits : (t : Text) → IsNumeral t → All Graphic t
Graphic-digits t h = All-of_digits Graphic digit-Graphic t h.1

core-Graphic : (r : Release) → IsRelease r → All Graphic (core_text r)
core-Graphic r (a, b, c, l) = All-append _ r.major _ (Graphic-digits r.major a) (
  omega arith,
  All-append _ r.minor _ (Graphic-digits r.minor b) (omega arith, Graphic-digits r.patch c),
)

label-Graphic : (l : Label) → IsLabel l → All Graphic (label_text l)
label-Graphic final h = tt
label-Graphic (candidate s ds) h =
    (omega arith, All-append Graphic (word s) _ (stage s) (omega arith, Graphic-digits ds h))
  where
    stage : (s : Stage) → All Graphic (word s)
    stage alpha = omega arith
    stage beta = omega arith
    stage rc = omega arith

print-Graphic : (r : Release) → IsRelease r → All Graphic (print r)
print-Graphic r h =
    (omega arith, All-append Graphic (core_text r) _ (core-Graphic r h) (label-Graphic r.label h.3))

cut-print :
    (r : Release)
    → IsRelease r
    → (l : Label) → cut b'-' (core_text r ++ label_text l) ≡ (core_text r, label_suffix l)
cut-print r h final = rw append-nil (cut-Lacks b'-' (core_text r) (core-Lacks r h))
cut-print r h (candidate s ds) = cut-append b'-' (core_text r) _ (core-Lacks r h)

pre_suffix-word :
    (s : Stage) (ds : Text)
    → all_digits ds ≡ true
    → pre_suffix (word s ++ b'.' ∷ ds) ≡ some (stage_kind s, ds)
unfolding pre_suffix
pre_suffix-word alpha ds h = rw h
pre_suffix-word beta ds h = rw h
pre_suffix-word rc ds h = rw h

parse_suffix-label : (l : Label) → IsLabel l → parse_suffix (label_suffix l) ≡ some (label_value l)
unfolding parse_suffix atoi_value
parse_suffix-label final h = refl
parse_suffix-label (candidate s ds) h = ground (arith, pre_suffix-word s ds h.1, atoi-decimal ds h)

parse_core-numerals :
    (r : Release)
    → IsRelease r
    → parse_core (r.major ∷ r.minor ∷ r.patch ∷ [])
      ≡ some (decimal 0 r.major, decimal 0 r.minor, decimal 0 r.patch)
unfolding parse_core
parse_core-numerals r (a, b, c, l) =
    rw (parse_part-decimal r.major a, parse_part-decimal r.minor b, parse_part-decimal r.patch c)

-- A printed version is read back: its numerals by value, its label by its place in the order
-- alpha, beta, rc, final.
pub parse-print : (r : Release) → IsRelease r → parse (print r) ≡ some (release_value r)
unfolding parse trim_prefix
parse-print r h =
    rw
      (
        trim_space-Graphic (print r) (print-Graphic r h),
        cut-print r h r.label,
        parse_suffix-label r.label h.3,
        split-core r h,
        parse_core-numerals r h,
        parse,
      )
      refl
