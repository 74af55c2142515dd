-- ===== src/Recommend/Exclusions.antt =====
-- internal/analysis/exclude.go: which recommendations an exclusion keeps out. The tables of Unicode and
-- the matching of file name patterns (path.Match) are parameters.
use rightsizer.Prelude.{
  ℕ, Bool, true, false, not, ◌&&◌, ◌||◌, Option, none, some, List, [], ◌∷◌, ltb, length, filter_by,
  if◌then◌else◌, Outcome, require, ◌>>◌, ℤ, ltℤ,
}
use rightsizer.Text.{Text, codes}
use rightsizer.Text.Equality.{text_eq}
use rightsizer.Text.Strings.{byte_length, contains_any, trim_space}
use rightsizer.Recommend.Data.{
  Kind, cpu_over, cpu_under, mem_over, mem_under, idle, powered_off, old_snap, thick_disk, orphan,
  wide_vm, co_stop_high, is_zero,
}

pub record Matching : Type 0 where
  -- strings.ToLower and strings.EqualFold
  pub to_lower : Text → Text
  pub equal_fold : Text → Text → Bool
  -- path.Match; none is a malformed pattern
  pub glob : Text → Text → Option Bool

pub record Exclusion : Type 0 where
  pub id : Text
  pub v_center : Text
  pub uuid : Text
  pub name : Text
  pub path : Text
  pub kinds : List Kind
  pub reason : Text
  pub note : Text
  pub created : ℤ
  pub review_by : ℤ

abbrev pub is_empty : Text → Bool
is_empty [] = true
is_empty (c ∷ t) = false

pub data Invalid : Type 0 where
  no_target no_note too_long bad_pattern : Invalid

-- Whether path.Match takes the pattern.
abbrev well_formed : Option Bool → Bool
well_formed none = false
well_formed (some b) = true

-- The number of a kind, to compare two of them.
abbrev pub tag : Kind → ℕ
tag cpu_over = 0
tag cpu_under = 1
tag mem_over = 2
tag mem_under = 3
tag idle = 4
tag powered_off = 5
tag old_snap = 6
tag thick_disk = 7
tag orphan = 8
tag wide_vm = 9
tag co_stop_high = 10

abbrev pub same_kind : Kind → Kind → Bool
same_kind k l = not (ltb (tag k) (tag l) || ltb (tag l) (tag k))

unfoldable pub has_kind : Kind → List Kind → Bool
has_kind k [] = false
has_kind k (l ∷ ls) = same_kind l k || has_kind k ls

abbrev pub covers_in : Kind → List Kind → Bool
covers_in k [] = true
covers_in k (l ∷ ls) = has_kind k (l ∷ ls)

unfoldable pub covers : Exclusion → Kind → Bool
covers x k = covers_in k x.kinds

unfoldable pub covers_any : List Exclusion → Kind → Bool
unfolding covers
covers_any [] k = false
covers_any (x ∷ xs) k = covers x k || covers_any xs k

abbrev matched : Option Bool → Bool
matched none = false
matched (some b) = b

module _ (mt : Matching) where
  unfoldable pub validate : Exclusion → Outcome Invalid (Unit {0})
  unfolding byte_length trim_space
  validate x =
      require no_target (not (is_empty x.uuid && is_empty x.name && is_empty x.path))
      >> (require no_note (not (is_empty (trim_space x.note)))
          >> (require too_long (
                not (
                  ltb 500 (length x.note)
                  || ltb 256 (byte_length x.name)
                  || ltb 1024 (byte_length x.path)))
              >> require bad_pattern (is_empty x.name || well_formed (mt.glob x.name []))))

  unfoldable pub matches_vm : Exclusion → Text → Text → Bool
  matches_vm x uuid name =
      if not (is_empty x.path)
      then false
      else (if not (is_empty x.uuid)
          then not (is_empty uuid) && mt.equal_fold x.uuid uuid
          else matched (mt.glob (mt.to_lower x.name) (mt.to_lower name)))

  unfoldable pub for_vm : List Exclusion → Text → Text → List Exclusion
  unfolding matches_vm
  for_vm xs uuid name = filter_by (λ x. matches_vm x uuid name) xs

unfoldable pub for_disk : List Exclusion → Text → Option Exclusion
unfolding text_eq
for_disk [] p = none
for_disk (x ∷ xs) p = if not (is_empty x.path) && text_eq x.path p then some x else for_disk xs p

-- `Pattern` and `Overdue`
unfoldable pub is_pattern : Exclusion → Bool
is_pattern x = contains_any x.name (codes "*?[")

unfoldable pub overdue : ℤ → Exclusion → Bool
overdue now x = not (is_zero x.review_by) && ltℤ x.review_by now
