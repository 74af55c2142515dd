-- ===== src/Stats/Series.antt =====
-- `AddVM` and `addDemand` of internal/analysis/stats.go, and the series of internal/vc/perf.go that they
-- read. An interval is a number of seconds. An index out of range, on which Go panics, has no result.
pub mod Once
pub mod Slots
mod Tests
use rightsizer.Prelude.{
  ℕ, zero, suc, ◌+◌, ◌*◌, ◌/◌, ◌%◌, ◌^◌, max, Bool, true, false, not, ◌&&◌, ◌||◌, Option, none,
  some, List, [], ◌∷◌, ℤ, pos, negsuc, ◌+ℤ◌, ◌-ℤ◌, ltℤ, ltb, leb, ◌==◌, if◌then◌else◌,
}
use rightsizer.Floats.{Floats}
use rightsizer.Text.{Text, codes}
use rightsizer.Map.{Map, lookup, insert}
use rightsizer.Stats.{Hist, add_n}
use rightsizer.Stats.Average.{Stat, add_stat}
use rightsizer.Stats.Demand.{Demand, slot_length, set_slot}
use rightsizer.Stats.Vm.{VmStats, Store}

-- `weight`
unfoldable pub weight : ℕ → ℕ
weight interval = if leb interval 20 then 1 else interval / 20

abbrev pub second : ℕ
second = 1000000000

-- `Time.Truncate` to half hours
abbrev pub half_hour : ℤ → ℤ
half_hour (pos n) = pos (slot_length * (n / slot_length))
half_hour (negsuc n) = pos 0 -ℤ pos (slot_length * ((n + slot_length) / slot_length))

-- v[i], where there is such an element
abbrev pub item : {A : Type 0} → ℕ → List A → Option A
item i [] = none
item zero (x ∷ xs) = some x
item (suc i) (x ∷ xs) = item i xs

-- `n` empty buckets
abbrev zeros : ℕ → List ℕ
zeros zero = []
zeros (suc n) = 0 ∷ zeros n

abbrev pub is_zero : ℤ → Bool
is_zero (pos n) = n == 0
is_zero (negsuc n) = false

module _ (fl : Floats) where
  pub record Series : Type 0 where
    pub ref : Text
    pub interval : ℕ
    pub ts : List ℤ
    pub values : Map (List fl.F)
    -- the counters by datastore
    pub inst : Map (Map (List fl.F))

  abbrev pub minus_one : fl.F
  minus_one = fl.sub (fl.of_int 0) (fl.of_int 1)

  abbrev value_or : Option fl.F → fl.F
  value_or none = minus_one
  value_or (some v) = v

  abbrev item_of : ℕ → Option (List fl.F) → Option fl.F
  item_of i none = none
  item_of i (some v) = item i v

  -- `at`
  unfoldable pub at : Series → ℕ → Text → fl.F
  unfolding lookup
  at s i m = value_or (item_of i (lookup m s.values))

  -- The loop of `Sum`, with `total` and `ok`.
  abbrev pub add_part : Option fl.F → fl.F × Bool → fl.F × Bool
  add_part none (total, seen) = (total, seen)
  add_part (some v) (total, seen) =
      if fl.le (fl.of_int 0) v then (fl.add total v, true) else (total, seen)

  unfoldable pub sum_parts : ℕ → Map (List fl.F) → fl.F × Bool → fl.F × Bool
  sum_parts i [] acc = acc
  sum_parts i ((k, v) ∷ m) acc = sum_parts i m (add_part (item i v) acc)

  abbrev sum_of : ℕ → Option (Map (List fl.F)) → fl.F
  sum_of i none = minus_one
  sum_of i (some m) = let r = sum_parts i m (fl.of_int 0, false) in if r.1 then r.0 else minus_one

  unfoldable pub sum : Series → Text → ℕ → fl.F
  unfolding sum_parts lookup
  sum s name i = sum_of i (lookup name s.inst)

  -- The loop over the slots before `ts`, on fuel.
  unfoldable pub fill_slots : ℕ → ℤ → ℤ → ℤ → fl.F → Demand fl → Demand fl
  unfolding set_slot ◌+ℤ◌
  fill_slots zero anchor t ts mhz d = d
  fill_slots (suc f) anchor t ts mhz d =
      let rest = fill_slots f anchor (t +ℤ pos slot_length) ts mhz (set_slot fl anchor t mhz d) in
      if ltℤ t ts then rest else d

  abbrev pub span : ℕ → ℕ
  span interval = max interval 20 * second

  -- More passes than there are slots in the span.
  abbrev pub slot_fuel : ℕ → ℕ
  slot_fuel interval = span interval / slot_length + 2

  unfoldable pub add_demand : ℤ → ℤ → fl.F → ℕ → Demand fl → Demand fl
  unfolding set_slot fill_slots ◌-ℤ◌
  add_demand anchor ts mhz interval d =
      let sp = span interval in
      if fl.lt mhz (fl.of_int 0) || is_zero anchor
      then d
      else (if leb sp slot_length
          then set_slot fl anchor (ts -ℤ pos (sp / 2)) mhz d
          else fill_slots (slot_fuel interval) anchor (half_hour (ts -ℤ pos sp)) ts mhz d)

  -- Milliseconds of one vCPU, as a share of the interval.
  abbrev share : ℕ → ℕ → fl.F → fl.F
  share interval vcpu r =
      let whole = fl.mul (fl.mul (fl.of_int (max interval 20)) (fl.of_int 1000)) (fl.of_int vcpu) in
      fl.mul (fl.div r whole) (fl.of_int 100)

  abbrev add_share : ℕ → ℕ → fl.F → Stat fl → Stat fl
  add_share interval vcpu r st =
      if fl.le (fl.of_int 0) r && ltb 0 vcpu
      then add_stat fl (share interval vcpu r) (weight interval) st
      else st

  -- The statistics after a sample of which both histograms have been counted.
  abbrev pub sampled : ℤ → Series → ℕ → ℕ → ℤ → VmStats fl → Hist fl → Hist fl → VmStats fl
  sampled anchor s vcpu i ts vs cpu mem =
      let w = weight s.interval in
      let mhz = at s i (codes "cpu.usagemhz.average") in
      record vs {
        cpu = cpu;
        mem = mem;
        ready = add_share s.interval vcpu (at s i (codes "cpu.ready.summation")) vs.ready;
        co_stop = add_share s.interval vcpu (at s i (codes "cpu.costop.summation")) vs.co_stop;
        cpu_mhz = add_stat fl mhz w vs.cpu_mhz;
        consumed = add_stat fl (at s i (codes "mem.consumed.average")) w vs.consumed;
        disk = add_stat fl (at s i (codes "disk.usage.average")) w vs.disk;
        net = add_stat fl (at s i (codes "net.usage.average")) w vs.net;
        read_iops =
            add_stat fl (sum s (codes "datastore.numberReadAveraged.average") i) w vs.read_iops;
        write_iops =
            add_stat fl (sum s (codes "datastore.numberWriteAveraged.average") i) w vs.write_iops;
        slots = add_demand anchor ts mhz s.interval vs.slots;
        first = if is_zero vs.first then ts -ℤ pos (max s.interval 20 * second) else vs.first;
        last = ts;
        samples = (vs.samples + w) % 2 ^ 64;
      }

  abbrev with_sample :
      ℤ
      → Series
      → ℕ
      → ℕ
      → ℤ
      → VmStats fl
      → Option (Hist fl)
      → Option (Hist fl)
      → Option (VmStats fl)
  with_sample anchor s vcpu i ts vs (some cpu) (some mem) =
      some (sampled anchor s vcpu i ts vs cpu mem)
  with_sample anchor s vcpu i ts vs _ _ = none

  unfoldable pub add_sample : ℤ → Series → ℕ → ℕ → ℤ → VmStats fl → Option (VmStats fl)
  unfolding add_n add_stat add_demand at sum weight ◌-ℤ◌
  add_sample anchor s vcpu i ts vs =
      let w = weight s.interval in
      with_sample anchor s vcpu i ts vs (add_n fl (at s i (codes "cpu.usage.average")) w vs.cpu)
        (add_n fl (at s i (codes "mem.usage.average")) w vs.mem)

  abbrev and_then : (VmStats fl → Option (VmStats fl)) → Option (VmStats fl) → Option (VmStats fl)
  and_then f none = none
  and_then f (some vs) = f vs

  -- The loop over `s.TS`, from index `i` on.
  unfoldable pub add_samples : ℤ → Series → ℕ → ℕ → List ℤ → VmStats fl → Option (VmStats fl)
  unfolding add_sample
  add_samples anchor s vcpu i [] vs = some vs
  add_samples anchor s vcpu i (t ∷ ts) vs = elim (ltℤ vs.last t) [
    | true ↦ and_then (add_samples anchor s vcpu (suc i) ts) (add_sample anchor s vcpu i t vs)
    | false ↦ add_samples anchor s vcpu (suc i) ts vs
  ]

  abbrev pub no_stats : VmStats fl
  no_stats =
      let z = fl.of_int 0 in
      let h : Hist fl = record { b = zeros 201; n = 0; max = z; sum = z } in
      let a : Stat fl = record { n = 0; sum = z; max = z } in
      record {
        cpu = h;
        mem = h;
        ready = a;
        co_stop = a;
        cpu_mhz = a;
        consumed = a;
        disk = a;
        net = a;
        read_iops = a;
        write_iops = a;
        first = pos 0;
        last = pos 0;
        samples = 0;
        slots = record { demand = []; slots = [] };
      }

  abbrev stats_of : Option (VmStats fl) → VmStats fl
  stats_of none = no_stats
  stats_of (some vs) = vs

  abbrev stored : Series → Store fl → Option (VmStats fl) → Option (Store fl)
  stored s st none = none
  stored s st (some vs) = some (record st { vms = insert s.ref vs st.vms })

  unfoldable pub add_vm : Series → ℕ → Store fl → Option (Store fl)
  unfolding add_samples lookup insert
  add_vm s vcpu st =
      stored s st (add_samples st.anchor s vcpu 0 s.ts (stats_of (lookup s.ref st.vms)))
