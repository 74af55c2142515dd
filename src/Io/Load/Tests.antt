-- ===== src/Io/Load/Tests.antt =====
-- The load of a datastore with numbers of three decimals in place of float64, and the theorem at it.
use mathlib.Core.List.{Perm}
use rightsizer.Prelude.{
  ◌+◌, ◌≡◌, refl, true, false, List, [], ◌∷◌, ◌++◌, map, length, pos, ◌≤ℤ◌, All, filter_by,
}
use rightsizer.Floats.Decimal.{thousandths}
use rightsizer.Text.{codes}
use rightsizer.Stats.Average.{Stat}
use rightsizer.Stats.Series.{Series}
use rightsizer.Recommend.Order.{sort_by}
use rightsizer.Recommend.Ranking.{Ordered}
use rightsizer.Io.{Logs, LogHist, find_key, log_pct}
use rightsizer.Io.Load.{point_every, IoSample, IoStats, add_load, is_due, point, flush}
use rightsizer.Io.Load.Flushed.{Step, sample, run, run-flush}

-- Buckets of one unit in place of the logarithmic ones.
abbrev units : Logs thousandths
units = record { log1p = λ v. v; expm1 = λ v. v; is_inf = λ v. false; log_step = 1000 }

abbrev no_rates : LogHist thousandths units
no_rates = record { b = []; n = 0; max = 0; sum = 0 }

abbrev rates : LogHist thousandths units
rates = record { b = (7, 1) ∷ (2, 4) ∷ (4, 5) ∷ []; n = 10; max = 7500; sum = 40000 }

median_rate : log_pct thousandths units 50000 rates ≡ 5000
unfolding log_pct sort_by find_key
median_rate = refl

abbrev none_yet : IoStats thousandths units
none_yet =
    let a : Stat thousandths = record { n = 0; sum = 0; max = 0 } in
    record {
      iops = no_rates;
      kbps = no_rates;
      latency = no_rates;
      read = a;
      write = a;
      read_kb = a;
      write_kb = a;
      size_kb = 0;
      size_ops = 0;
      points = [];
      acc = [];
    }

abbrev reads : IoSample thousandths
reads = record {
  r = 5000;
  w = 1000;
  rkb = 80000;
  wkb = 0;
  lat_w = 10000;
  lat_io = 5000;
  ops = true;
  kb = true;
}

abbrev no_load : IoSample thousandths
no_load = record { r = 0; w = 0; rkb = 0; wkb = 0; lat_w = 0; lat_io = 0; ops = false; kb = false }

abbrev one_read : Series thousandths
one_read = record {
  ref = codes "host-1";
  interval = 20;
  ts = pos 5 ∷ [];
  values = [];
  inst = (codes "datastore.numberReadAveraged.average", (codes "ds-1", 3000 ∷ []) ∷ []) ∷ [];
}

read_seen : (add_load thousandths one_read (codes "ds-1") 0 no_load).ops ≡ true
unfolding add_load
read_seen = refl

-- Two samples of one five minutes, and one of the next.
abbrev three_samples : List (Step thousandths units)
three_samples =
    sample reads (pos 10) 1 true
    ∷ sample reads (pos 20) 1 true
    ∷ sample reads (pos (point_every + 5)) 1 true
    ∷ []

run-flush_example :
    let old = run thousandths units three_samples none_yet in
    let new = flush thousandths units (pos 100) old in
    Perm new.points (
      old.points
      ++ map (point thousandths units) (filter_by (is_due thousandths units (pos 100)) old.acc))
    × (length new.points + length new.acc ≡ length old.points + length old.acc)
    × Ordered (λ a b. a.t ≤ℤ b.t) new.points
    × All (λ e. pos 100 ≤ℤ e.0) new.acc
run-flush_example = run-flush thousandths units three_samples (pos 100) none_yet refl

one_point :
    map
      (λ p. p.iops)
      (flush thousandths units (pos 100) (run thousandths units three_samples none_yet)).points
    ≡ 6000 ∷ []
unfolding flush run sort_by
one_point = refl
