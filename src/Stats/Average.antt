-- ===== src/Stats/Average.antt =====
-- `Stat`, the averages of internal/analysis/stats.go, and the average of a histogram.
use rightsizer.Prelude.{ℕ, ◌+◌, ◌%◌, ◌^◌, ◌==◌, if◌then◌else◌}
use rightsizer.Floats.{Floats}
use rightsizer.Stats.{Hist, ignored}

module _ (fl : Floats) where
  pub record Stat : Type 0 where
    pub n : ℕ
    pub sum : fl.F
    pub max : fl.F

  unfoldable pub add_stat : fl.F → ℕ → Stat → Stat
  add_stat v n s = if ignored fl v n then s else record {
    n = (s.n + n) % 2 ^ 64;
    sum = fl.add s.sum (fl.mul v (fl.of_int n));
    max = fl.larger s.max v;
  }

  unfoldable pub stat_avg : Stat → fl.F
  stat_avg s = if s.n == 0 then fl.of_int 0 else fl.div s.sum (fl.of_int s.n)

  unfoldable pub hist_avg : Hist fl → fl.F
  hist_avg h = if h.n == 0 then fl.of_int 0 else fl.div h.sum (fl.of_int h.n)
