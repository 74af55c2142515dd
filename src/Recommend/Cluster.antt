-- ===== src/Recommend/Cluster.antt =====
-- `ClusterResult`, `sizeCluster` and `topModel` of internal/analysis/recommend.go.
use rightsizer.Prelude.{
  ℕ, ◌+◌, ◌^◌, max, Bool, true, false, ◌||◌, ◌&&◌, Option, none, some, [], ◌∷◌, ltb, ◌==◌,
  if◌then◌else◌,
}
use rightsizer.Floats.{Floats}
use rightsizer.Text.{Text, codes}
use rightsizer.Text.Strings.{starts_with}
use rightsizer.Map.{Map}
use rightsizer.Stats.{pct}
use rightsizer.Stats.Vm.{ClusterStats}
use rightsizer.Recommend.Data.{Profile, ratio}

-- `a < b` of two texts: by code points, which UTF-8 keeps in order.
unfoldable pub text_lt : Text → Text → Bool
text_lt s [] = false
text_lt [] (d ∷ t) = true
text_lt (c ∷ s) (d ∷ t) = ltb c d || (c == d && text_lt s t)

abbrev pub lacks_prefix : Option Text → Bool
lacks_prefix none = true
lacks_prefix (some r) = false

-- The loop of `topModel`, over the entries in any order.
unfoldable pub top_from : Text → ℕ → Map ℕ → Text × ℕ
unfolding text_lt
top_from best n [] = (best, n)
top_from best n ((k, v) ∷ m) =
    let here = top_from k v m in
    let there = top_from best n m in if ltb n v || (v == n && text_lt k best) then here else there

unfoldable pub top_model : Map ℕ → Text
unfolding top_from
top_model m = (top_from [] 0 m).0

module _ (fl : Floats) where
  pub record Cluster : Type 0 where
    pub name : Text
    pub preview : Bool
    pub hosts : ℕ
    pub cpu_model : Text
    pub cores : ℕ
    pub cap_mhz : fl.F
    pub cap_mem_b : fl.F
    pub cpu_p : fl.F
    pub cpu_peak : fl.F
    pub mem_p : fl.F
    pub vcpu : ℕ
    pub rec_vcpu : ℕ
    pub mem_mb : ℕ
    pub rec_mem_mb : ℕ
    pub need_mhz : fl.F
    pub need_mem_b : fl.F
    pub need_cores : ℕ
    pub hosts_needed : ℕ
    pub hosts_for_cpu : ℕ
    pub hosts_for_mem : ℕ
    pub ha_spare : ℕ

  abbrev pub new_cluster : Text → Cluster
  new_cluster n = record {
    name = n;
    preview = false;
    hosts = 0;
    cpu_model = [];
    cores = 0;
    cap_mhz = fl.of_int 0;
    cap_mem_b = fl.of_int 0;
    cpu_p = fl.of_int 0;
    cpu_peak = fl.of_int 0;
    mem_p = fl.of_int 0;
    vcpu = 0;
    rec_vcpu = 0;
    mem_mb = 0;
    rec_mem_mb = 0;
    need_mhz = fl.of_int 0;
    need_mem_b = fl.of_int 0;
    need_cores = 0;
    hosts_needed = 0;
    hosts_for_cpu = 0;
    hosts_for_mem = 0;
    ha_spare = 0;
  }

  abbrev pub measured : Profile fl → Option (ClusterStats fl) → Cluster → Cluster
  measured p none c = c
  measured p (some cs) c = record c {
    cpu_p = pct fl p.percentile cs.cpu;
    cpu_peak = cs.cpu.max;
    mem_p = pct fl p.percentile cs.mem;
  }

  abbrev pub need_cpu : Profile fl → Cluster → fl.F
  need_cpu p c = fl.div (fl.mul (fl.div c.cpu_p (fl.of_int 100)) c.cap_mhz) p.host_cpu

  abbrev pub need_mem : Profile fl → Cluster → fl.F
  need_mem p c =
      fl.div (fl.mul (fl.mul (fl.of_int c.rec_mem_mb) (fl.of_int (2 ^ 20))) (ratio fl 105 100))
        p.host_mem

  -- The load in hosts of the cluster's average size.
  abbrev pub in_hosts : fl.F → fl.F → Cluster → fl.F
  in_hosts need capacity c = fl.div need (fl.div capacity (fl.of_int c.hosts))

  -- The rest of `sizeCluster`, of a cluster with hosts.
  abbrev pub with_needs : Profile fl → Cluster → Cluster
  with_needs p c =
      let mhz = need_cpu p c in
      let mem = need_mem p c in
      let for_cpu = fl.ceil (in_hosts mhz c.cap_mhz c) in
      let for_mem = fl.ceil (in_hosts mem c.cap_mem_b c) in
      let least = max (max 1 for_cpu) for_mem in
      let spare = lacks_prefix (starts_with (codes "standalone/") c.name) in
      record c {
        need_mhz = mhz;
        need_mem_b = mem;
        need_cores =
            if ltb 0 c.cores
            then fl.ceil (fl.div mhz (fl.div c.cap_mhz (fl.of_int c.cores)))
            else c.need_cores;
        hosts_for_cpu = for_cpu;
        hosts_for_mem = for_mem;
        ha_spare = if spare then 1 else c.ha_spare;
        hosts_needed = if spare then max 2 (least + 1) else least;
      }

  unfoldable pub size_cluster : Option (ClusterStats fl) → Profile fl → Cluster → Cluster
  size_cluster cs p c = if c.hosts == 0 then c else with_needs p (measured p cs c)
