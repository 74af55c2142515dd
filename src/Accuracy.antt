-- ===== src/Accuracy.antt =====
-- internal/analysis/accuracy.go: how much vCenter's averages hide, and an earlier peak of a cluster.
pub mod Peak
mod Tests
use rightsizer.Prelude.{
  ℕ, ◌+◌, ◌/◌, Bool, true, false, not, ◌&&◌, ◌||◌, Option, none, some, List, [], ◌∷◌, ◌++◌, ℤ, pos,
  ltℤ, ltb, leb, ◌==◌, length, take, if◌then◌else◌,
}
use rightsizer.Floats.{Floats}
use rightsizer.Text.{Text}
use rightsizer.Map.{Map, lookup}
use rightsizer.Stats.{Hist, pct}
use rightsizer.Stats.Vm.{VmStats, Point, ClusterStats, Store, hours}
use rightsizer.Stats.Series.{item, is_zero, minus_one}
use rightsizer.Recommend.Data.{Vm}
use rightsizer.Recommend.Analyze.{full_day}
use rightsizer.Recommend.Order.{same, sort_by}

module _ (fl : Floats) where
  abbrev pub no_point : Point fl
  no_point = record { t = pos 0; cpu_mhz = fl.of_int 0; mem_b = fl.of_int 0 }

  abbrev pub higher : Point fl → Point fl → Point fl
  higher pt best = if fl.lt best.cpu_mhz pt.cpu_mhz then pt else best

  -- The loop over the points, with `before` and `during`.
  unfoldable pub highest : ℤ → List (Point fl) → Point fl × Point fl → Point fl × Point fl
  highest start [] best = best
  highest start (pt ∷ pts) (before, during) = elim (ltℤ pt.t start) [
    | true ↦ highest start pts (higher pt before, during)
    | false ↦ highest start pts (before, higher pt during)
  ]

  pub record EarlierPeak : Type 0 where
    pub at : ℤ
    pub pct : fl.F
    pub window_pct : fl.F

  abbrev pub of_capacity : fl.F → fl.F → fl.F
  of_capacity cap mhz = fl.mul (fl.div mhz cap) (fl.of_int 100)

  -- A peak before the window that is clearly higher than those in it.
  unfoldable pub clear_peak : fl.F → Point fl × Point fl → Option (EarlierPeak)
  clear_peak cap (before, during) =
      let bp = of_capacity cap before.cpu_mhz in
      let dp = of_capacity cap during.cpu_mhz in
      if is_zero during.t
        || fl.lt bp (fl.of_int 30)
        || fl.lt bp (fl.mul dp (fl.div (fl.of_int 115) (fl.of_int 100)))
      then none
      else some (record { at = before.t; pct = bp; window_pct = dp })

  abbrev pub peak_of : ℤ → fl.F → Option (ClusterStats fl) → Option EarlierPeak
  unfolding highest clear_peak
  peak_of start cap none = none
  peak_of start cap (some cs) = clear_peak cap (highest start cs.points (no_point, no_point))

  abbrev pub peak_in : Text → ℤ → fl.F → Option (Store fl) → Option EarlierPeak
  unfolding lookup peak_of
  peak_in name start cap none = none
  peak_in name start cap (some hist) = peak_of start cap (lookup name hist.clusters)

  unfoldable pub earlier_peak : Option (Store fl) → Text → ℤ → fl.F → Option EarlierPeak
  unfolding peak_in
  earlier_peak hist name start cap =
      if same fl cap (fl.of_int 0) then none else peak_in name start cap hist

  -- slices.Sort of numbers, and the one in the middle
  abbrev or_zero : Option fl.F → fl.F
  or_zero none = fl.of_int 0
  or_zero (some v) = v

  unfoldable pub median : List fl.F → fl.F
  unfolding sort_by
  median v = or_zero (item (length v / 2) (sort_by fl.lt v))

  pub record Burst : Type 0 where
    pub vm : Text
    pub realtime_p : fl.F
    pub history_p : fl.F
    pub realtime_mx : fl.F

  pub record Accuracy : Type 0 where
    pub vms : ℕ
    pub cpu_median : fl.F
    pub mem_median : fl.F
    pub bursty : List Burst
    pub hours_both : fl.F
    pub percentile : fl.F

  -- The accuracy so far, with the ratios of which the medians are taken.
  pub record Ratios : Type 0 where
    pub a : Accuracy
    pub cpu : List fl.F
    pub mem : List fl.F

  abbrev pub no_accuracy : fl.F → Accuracy
  no_accuracy p =
      let z = fl.of_int 0 in
      record {
        vms = 0;
        cpu_median = z;
        mem_median = z;
        bursty = [];
        hours_both = z;
        percentile = p;
      }

  abbrev counts : fl.F → Bool
  counts v = fl.le (fl.of_int 5) v

  abbrev add_burst : Vm → VmStats fl → fl.F → fl.F → List Burst → List Burst
  add_burst vm r rp hp bs =
      if fl.lt hp (fl.mul rp (fl.div (fl.of_int 7) (fl.of_int 10)))
      then bs
        ++ (record { vm = vm.name; realtime_p = rp; history_p = hp; realtime_mx = r.cpu.max } ∷ [])
      else bs

  -- A VM of which both stores know enough.
  abbrev pub compare_vm : Vm → VmStats fl → VmStats fl → Ratios → Ratios
  unfolding pct hours
  compare_vm vm r h w =
      let p = w.a.percentile in
      let rp = pct fl p r.cpu in
      let hp = pct fl p h.cpu in
      let rm = pct fl p r.mem in
      let a = w.a in
      record {
        a = record a {
          vms = a.vms + 1;
          hours_both = fl.add a.hours_both (hours fl h);
          bursty = if counts rp then add_burst vm r rp hp a.bursty else a.bursty;
        };
        cpu = if counts rp then w.cpu ++ (fl.div hp rp ∷ []) else w.cpu;
        mem = if counts rm then w.mem ++ (fl.div (pct fl p h.mem) rm ∷ []) else w.mem;
      }

  abbrev pub compare_both : Vm → Option (VmStats fl) → Option (VmStats fl) → Ratios → Ratios
  unfolding compare_vm
  compare_both vm (some r) (some h) w =
      if ltb r.samples full_day || ltb h.samples full_day then w else compare_vm vm r h w
  compare_both vm _ _ w = w

  unfoldable pub compare_all : Store fl → Store fl → List Vm → Ratios → Ratios
  unfolding lookup compare_both
  compare_all rt live [] w = w
  compare_all rt live (vm ∷ vms) w =
      compare_all rt live vms (compare_both vm (lookup vm.ref rt.vms) (lookup vm.ref live.vms) w)

  abbrev gap : Burst → fl.F
  gap b = fl.sub b.realtime_p b.history_p

  -- int(gap of y - gap of x) < 0
  abbrev pub wider : Burst → Burst → Bool
  wider x y = fl.le (fl.sub (gap y) (gap x)) (minus_one fl)

  abbrev pub finished : Ratios → Option Accuracy
  unfolding median sort_by
  finished w =
      let a = w.a in
      if a.vms == 0
      then none
      else some (record a {
        hours_both = fl.div a.hours_both (fl.of_int a.vms);
        cpu_median = median w.cpu;
        mem_median = median w.mem;
        bursty = take 10 (sort_by wider a.bursty);
      })

  unfoldable pub accuracy : List Vm → Option (Store fl) → Option (Store fl) → fl.F → Option Accuracy
  unfolding compare_all finished
  accuracy vms (some rt) (some live) p =
      finished (compare_all rt live vms (record { a = no_accuracy p; cpu = []; mem = [] }))
  accuracy vms _ _ p = none
