-- ===== src/Version/Tests.antt =====
-- Versions from internal/version/version_test.go, and the theorems at concrete texts.
use rightsizer.Prelude.{◌≡◌, refl, ◌↔◌, true, false, some, arith}
use rightsizer.Text.{Text, codes}
use rightsizer.Text.Strings.{all_digits}
use rightsizer.Version.{newer, newer_any, valid, parse, pre, compare}
use rightsizer.Version.Order.{IsLater, newer_any_iff}
use rightsizer.Version.Syntax.{rc, candidate, Release, IsRelease, release_value, parse-print}

final_after_candidate : newer (codes "v1.4.0") (codes "v1.4.0-rc.1") ≡ true
unfolding newer parse pre compare
final_after_candidate = refl

no_candidate_on_release_channel : newer (codes "v1.4.0-rc.2") (codes "v1.4.0-rc.1") ≡ false
unfolding newer parse pre compare
no_candidate_on_release_channel = refl

ten_after_nine : newer_any (codes "v1.4.0-rc.10") (codes "v1.4.0-rc.9") ≡ true
unfolding newer_any parse compare
ten_after_nine = refl

development_build : newer (codes "v1.4.0") (codes "v1.3.0-12-gabcdef-dirty") ≡ false
unfolding newer parse pre compare
development_build = refl

trimmed : newer (codes " 2.0.0\n") (codes "1.9.9") ≡ true
unfolding newer parse pre compare
trimmed = refl

beta_is_valid : valid (codes "v1.4.0-beta") ≡ true
unfolding valid parse
beta_is_valid = refl

abbrev candidate_one : Text
candidate_one = codes "v1.4.0-rc.1"

abbrev release : Text
release = codes "v1.4.0"

abbrev older : Text
older = codes "v1.3.1"

newer_any_iff_example :
    (newer_any release candidate_one ≡ true) ↔ IsLater (parse release) (parse candidate_one)
newer_any_iff_example = newer_any_iff release candidate_one

abbrev candidate_release : Release
candidate_release = record {
  major = codes "1";
  minor = codes "40";
  patch = codes "0";
  label = candidate rc (codes "12");
}

candidate_release-IsRelease : IsRelease candidate_release
unfolding all_digits
candidate_release-IsRelease = (
  (λ e. cc, refl, omega arith),
  (λ e. cc, refl, omega arith),
  (λ e. cc, refl, omega arith),
  (λ e. cc, refl, omega arith),
)

parse-print_example : parse (codes "v1.40.0-rc.12") ≡ some (release_value candidate_release)
parse-print_example = parse-print candidate_release candidate_release-IsRelease
