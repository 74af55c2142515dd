-- ===== src/Recommend/Order.antt =====
-- `impact`, `reclaimsStorage` and `SortFindings` of internal/analysis/recommend.go.
use rightsizer.Prelude.{
  ℕ, ◌+◌, ◌*◌, ◌^◌, Bool, true, false, ◌&&◌, List, [], ◌∷◌, ℤ, pos_part, neg_part, ltb, ◌==◌,
  if◌then◌else◌,
}
use rightsizer.Floats.{Floats}
use rightsizer.Recommend.Data.{
  Kind, cpu_under, mem_under, powered_off, old_snap, thick_disk, orphan, wide_vm, co_stop_high,
  level, Finding,
}
use rightsizer.Recommend.Cluster.{text_lt}

unfoldable pub reclaims_storage : Kind → Bool
reclaims_storage powered_off = true
reclaims_storage old_snap = true
reclaims_storage thick_disk = true
reclaims_storage orphan = true
reclaims_storage _ = false

module _ {A : Type 0} (before : A → A → Bool) where
  -- Past every element that is to stand before it, and before all others: equal ones keep their order.
  unfoldable pub insert_by : A → List A → List A
  insert_by x [] = x ∷ []
  insert_by x (y ∷ ys) = let rest = insert_by x ys in if before y x then y ∷ rest else x ∷ y ∷ ys

  -- `slices.SortStableFunc`, whose result its contract determines
  unfoldable pub sort_by : List A → List A
  unfolding insert_by
  sort_by [] = []
  sort_by (x ∷ xs) = insert_by x (sort_by xs)

module _ (fl : Floats) where
  abbrev pub abs : ℤ → fl.F
  abs z = fl.of_int (pos_part z + neg_part z)

  abbrev pub score : Finding fl → fl.F
  score f =
      fl.add (fl.add (abs f.vcpu) (fl.div (abs f.mem_mb) (fl.of_int 4096)))
        (fl.div (fl.of_int f.bytes) (fl.of_int (100 * 2 ^ 30)))

  abbrev pub lifted : ℕ → Finding fl → fl.F
  lifted n f = fl.add (fl.add (fl.of_int n) f.metric) (score f)

  abbrev pub impact_in : Kind → Finding fl → fl.F
  impact_in cpu_under f = lifted 1000 f
  impact_in mem_under f = lifted 1000 f
  impact_in co_stop_high f = lifted 1000 f
  impact_in wide_vm f = lifted 500 f
  impact_in _ f = score f

  unfoldable pub impact : Finding fl → fl.F
  impact f = impact_in f.kind f

  -- a == b of two floats
  abbrev pub same : fl.F → fl.F → Bool
  same a b = fl.le a b && fl.le b a

  -- The comparison of `SortFindings` is negative.
  unfoldable pub before : Finding fl → Finding fl → Bool
  before a b =
      if level a.severity == level b.severity
      then (if same a.impact b.impact then text_lt a.vm b.vm else fl.lt b.impact a.impact)
      else ltb (level b.severity) (level a.severity)

  unfoldable pub sort_findings : List (Finding fl) → List (Finding fl)
  unfolding sort_by before
  sort_findings fs = sort_by before fs
