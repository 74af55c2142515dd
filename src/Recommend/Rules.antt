-- ===== src/Recommend/Rules.antt =====
-- The rules of internal/analysis/recommend.go: `rightsize`, `storageFindings`, `placementFindings` and
-- `orphanFindings`.
use rightsizer.Prelude.{
  ℕ, ◌+◌, ◌-◌, ◌*◌, ◌/◌, ◌^◌, max, Bool, true, false, ◌&&◌, ◌||◌, Option, none, some, List, [], ◌∷◌,
  ◌++◌, ℤ, pos, ◌-ℤ◌, ltb, leb, if◌then◌else◌,
}
use rightsizer.Floats.{Floats}
use rightsizer.Text.{Text, codes}
use rightsizer.Text.Strings.{starts_with}
use rightsizer.Stats.{pct}
use rightsizer.Stats.Average.{stat_avg}
use rightsizer.Stats.Vm.{VmStats, hours}
use rightsizer.Recommend.Data.{
  cpu_over, cpu_under, mem_over, mem_under, idle, Severity, low, medium, high, Vm, Profile, Finding,
  VmResult, blank, ratio,
}

abbrev pub gib : ℕ
gib = 2 ^ 30

abbrev pub hour : ℤ
hour = pos (3600 * 1000000000)

abbrev pub days : ℕ → ℤ
days n = pos (n * 24 * (3600 * 1000000000))

-- `sevBytes`
unfoldable pub sev_bytes : ℕ → Severity
sev_bytes b = if leb (200 * gib) b then high else (if leb (20 * gib) b then medium else low)

abbrev is_prefix : Option Text → Bool
is_prefix none = false
is_prefix (some r) = true

-- `strings.Contains`
unfoldable pub contains : Text → Text → Bool
contains [] w = is_prefix (starts_with w [])
contains (c ∷ t) w = is_prefix (starts_with w (c ∷ t)) || contains t w

module _ (fl : Floats) where
  unfoldable pub sev_saving : ℕ → fl.F → ℕ → ℕ → Severity
  sev_saving units part top middle =
      if leb top units || (leb (middle * 2) units && fl.le (ratio fl 1 2) part)
      then high
      else (if leb middle units then medium else low)

  unfoldable pub conf : fl.F → fl.F → Text
  conf h window =
      if fl.le (fl.mul (ratio fl 8 10) (fl.smaller window (fl.of_int 168))) h
        && fl.le (fl.of_int 72) h
      then codes "high"
      else (if fl.le (fl.of_int 24) h then codes "medium" else codes "low")

  -- `roundGiB`
  unfoldable pub round_gib : fl.F → ℕ
  round_gib mb = fl.ceil (fl.div mb (fl.of_int 1024)) * 1024

  abbrev pub percent : fl.F → ℕ → fl.F
  percent p n = fl.div (fl.mul (fl.of_int n) p) (fl.of_int 100)

  -- The vCPUs that carry a load of `p` percent of `vcpu` at the profile's target.
  abbrev pub cpus_for : Profile fl → ℕ → fl.F → ℕ
  cpus_for p vcpu load = fl.ceil (fl.div (percent load vcpu) p.cpu_target)

  abbrev pub is_idle : Vm → VmStats fl → Bool
  is_idle vm s =
      fl.le (pct fl (fl.of_int 95) s.cpu) (fl.of_int 2)
      && fl.lt (stat_avg fl s.net) (fl.of_int 5)
      && fl.lt (stat_avg fl s.disk) (fl.of_int 20)
      && vm.power_on

  -- The case of `rightsize` on the CPU: the recommended vCPUs and the findings.
  unfoldable pub cpu_rule : Vm → VmStats fl → Profile fl → Text → ℕ × List (Finding fl)
  cpu_rule vm s p cf =
      let p99 = pct fl (fl.of_int 99) s.cpu in
      let more = max (vm.vcpu + 1) (cpus_for p vm.vcpu p99) in
      let need = max 1 (cpus_for p vm.vcpu (pct fl p.percentile s.cpu)) in
      let less = vm.vcpu - need in
      let over : Finding fl =
        record (blank fl vm.name vm.cluster cf cpu_over
          (sev_saving less (fl.div (fl.of_int less) (fl.of_int vm.vcpu)) 8 2)) {
            vcpu = pos less;
          } in
      let under : Finding fl = record (blank fl vm.name vm.cluster cf cpu_under high) {
        vcpu = pos vm.vcpu -ℤ pos more;
        metric = p99;
      } in
      if fl.le (fl.of_int 90) p99 && ltb vm.vcpu 64
      then (more, under ∷ [])
      else (if ltb need vm.vcpu
          then (need, (if is_idle vm s then [] else over ∷ []))
          else (vm.vcpu, []))

  -- The smallest memory of a guest.
  abbrev pub floor_mb : (Text → Text) → Vm → fl.F
  floor_mb to_lower vm =
      if contains (to_lower vm.guest_os) (codes "windows") then fl.of_int 2048 else fl.of_int 1024

  -- The memory that the measured load needs.
  abbrev pub need_mb : (Text → Text) → Vm → VmStats fl → Profile fl → ℕ
  need_mb to_lower vm s p =
      let active =
        fl.mul (fl.div (pct fl p.percentile s.mem) (fl.of_int 100)) (fl.of_int vm.mem_mb) in
      round_gib (
        fl.larger (fl.larger (fl.mul active p.mem_headroom) (floor_mb to_lower vm))
          (fl.mul (fl.of_int vm.mem_mb) p.min_mem_ratio))

  -- The case of `rightsize` on the memory. `need <= vm.MemMB-1024` is written without the subtraction.
  unfoldable pub mem_rule :
      (Text → Text) → Vm → VmStats fl → Profile fl → Text → ℕ × List (Finding fl)
  mem_rule to_lower vm s p cf =
      let p95 = pct fl (fl.of_int 95) s.mem in
      let more = round_gib (fl.mul (fl.of_int vm.mem_mb) (ratio fl 125 100)) in
      let need = need_mb to_lower vm s p in
      let less = vm.mem_mb - need in
      let over : Finding fl =
        record (blank fl vm.name vm.cluster cf mem_over
          (sev_saving (less / 1024) (fl.div (fl.of_int less) (fl.of_int vm.mem_mb)) 32 8)) {
            mem_mb = pos less;
          } in
      let under : Finding fl = record (blank fl vm.name vm.cluster cf mem_under high) {
        mem_mb = pos vm.mem_mb -ℤ pos more;
        metric = p95;
      } in
      if fl.le (fl.of_int 90) p95
      then (more, under ∷ [])
      else (if leb (need + 1024) vm.mem_mb
          then (need, (if is_idle vm s then [] else over ∷ []))
          else (vm.mem_mb, []))

  abbrev pub idle_rule : Vm → VmStats fl → Text → List (Finding fl)
  idle_rule vm s cf =
      let f : Finding fl = record (blank fl vm.name vm.cluster cf idle medium) {
        vcpu = pos vm.vcpu;
        mem_mb = pos vm.mem_mb;
      } in
      if is_idle vm s then f ∷ [] else []

  unfoldable pub rightsize :
      (Text → Text) → Vm → VmStats fl → Profile fl → fl.F → VmResult fl × List (Finding fl)
  unfolding cpu_rule mem_rule
  rightsize to_lower vm s p window =
      let cf = conf (hours fl s) window in
      let cpu = cpu_rule vm s p cf in
      let mem = mem_rule to_lower vm s p cf in
      (
        record {
          ref = vm.ref;
          name = vm.name;
          cluster = vm.cluster;
          power_on = vm.power_on;
          vcpu = vm.vcpu;
          rec_vcpu = cpu.0;
          mem_mb = vm.mem_mb;
          rec_mem_mb = mem.0;
          cpu_p = pct fl p.percentile s.cpu;
          cpu_max = s.cpu.max;
          mem_p = pct fl p.percentile s.mem;
          ready_avg = stat_avg fl s.ready;
          co_stop_avg = stat_avg fl s.co_stop;
          hours = hours fl s;
          confidence = cf;
          preview = false;
          excluded = false;
        },
        idle_rule vm s cf ++ (cpu.1 ++ mem.1),
      )
