-- ===== src/Accuracy/Tests.antt =====
-- The peaks of a small cluster with numbers of three decimals in place of float64.
use rightsizer.Prelude.{ℕ, ◌≡◌, refl, true, false, some, [], ◌∷◌, arith, ℤ, pos}
use rightsizer.Floats.Decimal.{thousandths}
use rightsizer.Text.{codes}
use rightsizer.Map.{lookup}
use rightsizer.Stats.{Hist}
use rightsizer.Stats.Vm.{Point, ClusterStats, Store}
use rightsizer.Recommend.Order.{sort_by}
use rightsizer.Recommend.Ranking.{IsOrder}
use rightsizer.Accuracy.{no_point, highest, clear_peak, earlier_peak, median}
use rightsizer.Accuracy.Peak.{Kept, earlier_peak_lem}

in_order : IsOrder thousandths
in_order = record {
  lt_not_le = λ a b h k. ground arith;
  le_total = λ a b h k e. ground (arith, e);
  le_trans = λ a b c h k. ground (arith, h, k);
}

abbrev at_load : ℤ → ℕ → Point thousandths
at_load t mhz = record { t = t; cpu_mhz = mhz; mem_b = 0 }

abbrev prod : ClusterStats thousandths
prod =
    let h : Hist thousandths = record { b = []; n = 0; max = 0; sum = 0 } in
    record {
      cpu = h;
      mem = h;
      points = at_load (pos 5) 400000 ∷ at_load (pos 7) 900000 ∷ at_load (pos 12) 300000 ∷ [];
    }

abbrev history : Store thousandths
history = record { vms = []; clusters = (codes "prod", prod) ∷ []; anchor = pos 0 }

peak_at_seven :
    earlier_peak thousandths (some history) (codes "prod") (pos 10) 1000000
    ≡ some (record { at = pos 7; pct = 90000; window_pct = 30000 })
unfolding earlier_peak clear_peak highest lookup
peak_at_seven = refl

middle : median thousandths (9000 ∷ 1000 ∷ 5000 ∷ []) ≡ 5000
unfolding median sort_by
middle = refl

earlier_peak_lem_example :
    (b : Point thousandths) × (d : Point thousandths) × (earlier_peak thousandths
        (some history)
        (codes "prod")
        (pos 10)
        1000000
      ≡ clear_peak thousandths 1000000 (b, d))
    × Kept thousandths in_order (pos 10) true prod.points (no_point thousandths) b
    × Kept thousandths in_order (pos 10) false prod.points (no_point thousandths) d
unfolding lookup
earlier_peak_lem_example =
    earlier_peak_lem thousandths in_order (pos 10) history (codes "prod") 1000000 prod refl refl
      (refl, (refl, (refl, tt))) refl
