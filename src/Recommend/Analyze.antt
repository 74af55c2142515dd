-- ===== src/Recommend/Analyze.antt =====
-- `Analyze` of internal/analysis/recommend.go: what it adds up over the hosts and the VMs, in order. The
-- maps are association lists, so the order in which Go visits the clusters is one of many.
--
-- Left out: the charts of a cluster (points, peaks, the earlier peak), the accuracy and the times that
-- are only copied.
pub mod Steps
pub mod Whole
use rightsizer.Prelude.{
  ℕ, suc, ◌+◌, ◌*◌, ◌/◌, max, Bool, true, false, not, ◌&&◌, ◌||◌, Option, none, some, List, [], ◌∷◌,
  ◌++◌, map, filter_by, ℤ, pos, ◌+ℤ◌, ◌-ℤ◌, ltb, leb, ◌==◌, if◌then◌else◌,
}
use rightsizer.Floats.{Floats}
use rightsizer.Text.{Text}
use rightsizer.Map.{Map, lookup, insert}
use rightsizer.Stats.{Hist}
use rightsizer.Stats.Vm.{VmStats, ClusterStats, Store, hours}
use rightsizer.Recommend.Data.{
  Kind, cpu_over, cpu_under, mem_over, mem_under, idle, powered_off, preview_text, Vm, Host,
  no_host, OrphanDisk, Profile, Finding, VmResult, blank,
}
use rightsizer.Recommend.Rules.{sev_bytes, conf, rightsize}
use rightsizer.Recommend.Shape.{storage_findings, placement_findings}
use rightsizer.Recommend.Exclusions.{Matching, Exclusion, for_vm, covers_any, same_kind}
use rightsizer.Recommend.Cluster.{Cluster, new_cluster}

-- 24 hours of samples.
abbrev pub full_day : ℕ
full_day = 24 * 3600 / 20

pub record Totals : Type 0 where
  pub vms : ℕ
  pub on : ℕ
  pub off : ℕ
  pub templates : ℕ
  pub analyzed : ℕ
  pub vcpu : ℕ
  pub rec_vcpu : ℕ
  pub mem_mb : ℕ
  pub rec_mem_mb : ℕ
  pub idle_vcpu : ℤ
  pub idle_mem_mb : ℤ
  pub storage : ℕ
  pub reclaim : ℕ
  pub hosts : ℕ
  pub hosts_needed : ℕ
  pub cores : ℕ
  pub need_cores : ℕ

-- m[k] = append(m[k], v)
abbrev pub appended : Option (List Text) → List Text
appended none = []
appended (some vs) = vs

unfoldable pub note_match : Text → List Exclusion → Map (List Text) → Map (List Text)
unfolding lookup insert
note_match v [] m = m
note_match v (x ∷ xs) m = note_match v xs (insert x.id (appended (lookup x.id m) ++ (v ∷ [])) m)

abbrev pub counted : Option ℕ → ℕ
counted none = 0
counted (some n) = n

abbrev pub models_of : Option (Map ℕ) → Map ℕ
models_of none = []
models_of (some m) = m

abbrev pub host_or_none : Option Host → Host
host_or_none none = no_host
host_or_none (some h) = h

module _ (fl : Floats) where
  pub record Input : Type 0 where
    pub hosts : List Host
    pub vms : List Vm
    pub rt : Option (Store fl)
    pub history : Option (Store fl)
    pub orphans : List OrphanDisk
    pub exclusions : List Exclusion
    pub profile : Profile fl
    pub end : ℤ
    -- hoursBetween(start, end)
    pub window : fl.F

  -- What `Analyze` has collected.
  pub record Work : Type 0 where
    pub totals : Totals
    pub findings : List (Finding fl)
    pub vms : List (VmResult fl)
    pub clusters : Map (Cluster fl)
    pub models : Map (Map ℕ)
    pub hosts : Map Host
    pub matched : Map (List Text)
    pub preview : Bool

  abbrev pub vm_of : Text → Option (Store fl) → Option (VmStats fl)
  vm_of ref none = none
  vm_of ref (some st) = lookup ref st.vms

  abbrev pub cluster_of : Text → Option (Store fl) → Option (ClusterStats fl)
  cluster_of n none = none
  cluster_of n (some st) = lookup n st.clusters

  abbrev pub choose_vm : Option (VmStats fl) → Option (VmStats fl) → Option (VmStats fl) × Bool
  choose_vm none none = (none, false)
  choose_vm none (some h) = (some h, true)
  choose_vm (some rt) none = (some rt, false)
  choose_vm (some rt) (some h) =
      if leb full_day rt.samples
      then (some rt, false)
      else (if ltb rt.samples h.samples then (some h, true) else (some rt, false))

  unfoldable pub vm_stats : Input → Text → Option (VmStats fl) × Bool
  vm_stats x ref = choose_vm (vm_of ref x.rt) (vm_of ref x.history)

  abbrev pub choose_cluster :
      Option (ClusterStats fl) → Option (ClusterStats fl) → Option (ClusterStats fl) × Bool
  choose_cluster none none = (none, false)
  choose_cluster none (some h) = (some h, true)
  choose_cluster (some rt) none = (some rt, false)
  choose_cluster (some rt) (some h) =
      if leb full_day rt.cpu.n then (some rt, false) else (some h, true)

  -- `clusterStore`, and the statistics in the store that it chooses.
  unfoldable pub cluster_stats : Input → Text → Option (ClusterStats fl) × Bool
  cluster_stats x n = choose_cluster (cluster_of n x.rt) (cluster_of n x.history)

  abbrev pub known : Text → Option (Cluster fl) → Cluster fl
  known n none = new_cluster fl n
  known n (some c) = c

  -- A change of the cluster that `getCl` answers.
  unfoldable pub with_cluster :
      Text → (Cluster fl → Cluster fl) → Map (Cluster fl) → Map (Cluster fl)
  unfolding lookup insert
  with_cluster n f m = insert n (f (known n (lookup n m))) m

  abbrev pub join_cluster : Host → Cluster fl → Cluster fl
  join_cluster h c = record c {
    hosts = c.hosts + 1;
    cores = c.cores + h.cores;
    cap_mhz = fl.add c.cap_mhz (fl.of_int (h.mhz * h.cores));
    cap_mem_b = fl.add c.cap_mem_b (fl.of_int h.mem_bytes);
  }

  unfoldable pub add_host : Host → Work → Work
  unfolding with_cluster lookup insert
  add_host h w =
      let ms = models_of (lookup h.cluster w.models) in
      let w' : Work = record w { hosts = insert h.name h w.hosts } in
      if not h.connected then w' else record w' {
        clusters = with_cluster h.cluster (join_cluster h) w.clusters;
        models =
            insert h.cluster (insert h.cpu_model (counted (lookup h.cpu_model ms) + 1) ms) w.models;
      }

  -- `keep`
  unfoldable pub keep : List Exclusion → Vm → List (Finding fl) → List (Finding fl)
  unfolding covers_any
  keep xs vm fs =
      let marked : Finding fl → Finding fl = λ f. record f { uuid = vm.uuid } in
      filter_by (λ f. not (covers_any xs f.kind)) (map marked fs)

  abbrev pub no_samples : Option (VmStats fl) → Bool
  no_samples none = true
  no_samples (some s) = s.samples == 0

  abbrev pub off_finding : Input → Vm → Finding fl
  off_finding x vm =
      record (blank fl vm.name vm.cluster (conf fl x.window x.window) powered_off
        (sev_bytes vm.committed)) { bytes = vm.committed }

  abbrev pub grown : Vm → ℕ → ℕ → Cluster fl → Cluster fl
  grown vm rec_vcpu rec_mem_mb c = record c {
    vcpu = c.vcpu + vm.vcpu;
    mem_mb = c.mem_mb + vm.mem_mb;
    rec_vcpu = c.rec_vcpu + rec_vcpu;
    rec_mem_mb = c.rec_mem_mb + rec_mem_mb;
  }

  -- The vCPUs and the memory of a VM, and what is recommended for it, in its cluster and in all.
  unfoldable pub add_sizes : Vm → ℕ → ℕ → Work → Work
  unfolding with_cluster
  add_sizes vm rec_vcpu rec_mem_mb w =
      let t = w.totals in
      record w {
        clusters = with_cluster vm.cluster (grown vm rec_vcpu rec_mem_mb) w.clusters;
        totals = record t {
          vcpu = t.vcpu + vm.vcpu;
          mem_mb = t.mem_mb + vm.mem_mb;
          rec_vcpu = t.rec_vcpu + rec_vcpu;
          rec_mem_mb = t.rec_mem_mb + rec_mem_mb;
        };
      }

  -- What an exclusion keeps of the present size.
  unfoldable pub held : List Exclusion → Vm → VmResult fl → VmResult fl
  unfolding covers_any
  held [] vm vr = vr
  held (x ∷ xs) vm vr =
      let any : Kind → Bool = covers_any (x ∷ xs) in
      record vr {
        excluded = true;
        rec_vcpu = if any cpu_over || any cpu_under || any idle then vm.vcpu else vr.rec_vcpu;
        rec_mem_mb = if any mem_over || any mem_under || any idle then vm.mem_mb else vr.rec_mem_mb;
      }

  -- The vCPUs and the memory of the findings on idle VMs.
  unfoldable pub add_idle : List (Finding fl) → Totals → Totals
  add_idle [] t = t
  add_idle (f ∷ fs) t =
      let t' : Totals = record t {
        idle_vcpu = t.idle_vcpu +ℤ f.vcpu;
        idle_mem_mb = t.idle_mem_mb +ℤ f.mem_mb;
      } in
      add_idle fs (if same_kind f.kind idle then t' else t)

  abbrev pub as_preview : Bool → VmResult fl → VmResult fl
  as_preview true vr = record vr { preview = true; confidence = preview_text }
  as_preview false vr = vr

  abbrev pub previewed : Bool → Finding fl → Finding fl
  previewed true f = record f { confidence = preview_text }
  previewed false f = f
