-- ===== src/Recommend/Analyze/Steps.antt =====
-- The loop over the VMs in `Analyze` of internal/analysis/recommend.go, and the steps after it.
use rightsizer.Prelude.{
  ℕ, ◌+◌, Bool, ◌||◌, Option, none, some, List, [], ◌∷◌, ◌++◌, map, if◌then◌else◌,
}
use rightsizer.Floats.{Floats}
use rightsizer.Text.{Text}
use rightsizer.Map.{Map, lookup}
use rightsizer.Stats.Vm.{VmStats, hours}
use rightsizer.Recommend.Data.{Vm, Host, OrphanDisk, Finding, VmResult}
use rightsizer.Recommend.Rules.{rightsize}
use rightsizer.Recommend.Shape.{storage_findings, placement_findings}
use rightsizer.Recommend.Exclusions.{Matching, Exclusion, for_vm, for_disk}
use rightsizer.Recommend.Cluster.{Cluster, size_cluster, top_model}
use rightsizer.Recommend.Order.{reclaims_storage, impact}
use rightsizer.Recommend.Analyze.{
  Totals, appended, note_match, models_of, host_or_none, Input, Work, vm_stats, cluster_stats,
  add_host, keep, no_samples, off_finding, add_sizes, held, add_idle, as_preview, previewed,
}

abbrev pub orphan_step :
    OrphanDisk
    → Option Exclusion
    → List OrphanDisk × Map (List Text)
    → List OrphanDisk × Map (List Text)
orphan_step o none (os, m) = (o ∷ os, m)
orphan_step o (some e) (os, m) = (os, m)

abbrev pub disk_match : OrphanDisk → Option Exclusion → Map (List Text) → Map (List Text)
disk_match o none m = m
disk_match o (some e) m = note_match o.path (e ∷ []) m

abbrev pub count_off : Totals → Totals
count_off t = record t { off = t.off + 1 }

abbrev pub count_on : Totals → Totals
count_on t = record t { on = t.on + 1 }

module _ (fl : Floats) where
  abbrev pub with_hosts : Cluster fl → Totals → Totals
  with_hosts c t = record t {
    hosts = t.hosts + c.hosts;
    hosts_needed = t.hosts_needed + c.hosts_needed;
    cores = t.cores + c.cores;
    need_cores = t.need_cores + c.need_cores;
  }

  -- The result and the findings of a VM, and what they add to the totals.
  unfoldable pub with_result : Vm → VmResult fl → List (Finding fl) → Bool → Work fl → Work fl
  unfolding add_sizes add_idle
  with_result vm vr fs is_preview w =
      let w' = add_sizes fl vm vr.rec_vcpu vr.rec_mem_mb w in
      let t = w'.totals in
      record w' {
        vms = w'.vms ++ (vr ∷ []);
        findings = w'.findings ++ fs;
        preview = w'.preview || is_preview;
        totals = add_idle fl fs (record t { analyzed = t.analyzed + 1 });
      }

module _ (fl : Floats) (mt : Matching) (x : Input fl) where
  abbrev pub first_result : Vm → VmStats fl → Bool → VmResult fl
  first_result vm s is_preview =
      as_preview fl is_preview ((rightsize fl mt.to_lower vm s x.profile x.window).0)

  -- The findings of `rightsize` and of `placementFindings` that no exclusion covers.
  unfoldable pub vm_findings :
      List Exclusion → Vm → VmStats fl → Bool → Map Host → List (Finding fl)
  unfolding rightsize placement_findings keep lookup
  vm_findings xs vm s is_preview hosts =
      let fs = (rightsize fl mt.to_lower vm s x.profile x.window).1 in
      let vr = first_result vm s is_preview in
      let host = host_or_none (lookup vm.host hosts) in
      keep fl xs vm (map (previewed fl is_preview) fs ++ placement_findings fl vm vr s host)

  -- A VM with enough samples: its result, its findings and the totals.
  unfoldable pub add_measured : List Exclusion → Vm → VmStats fl → Bool → Work fl → Work fl
  unfolding held with_result vm_findings
  add_measured xs vm s is_preview w =
      with_result fl vm (held fl xs vm (first_result vm s is_preview))
        (vm_findings xs vm s is_preview w.hosts) is_preview w

  -- s == nil || s.Hours() < minHours
  abbrev pub add_sampled : List Exclusion → Vm → Option (VmStats fl) → Bool → Work fl → Work fl
  add_sampled xs vm none is_preview w = add_sizes fl vm vm.vcpu vm.mem_mb w
  add_sampled xs vm (some s) is_preview w =
      if fl.lt (hours fl s) (fl.of_int 1)
      then add_sizes fl vm vm.vcpu vm.mem_mb w
      else add_measured xs vm s is_preview w

  -- A VM that is no template, from the counting of its power state on.
  unfoldable pub add_powered : List Exclusion → Vm → Option (VmStats fl) → Bool → Work fl → Work fl
  unfolding keep add_measured add_sizes
  add_powered xs vm s is_preview w =
      if vm.power_on
      then add_sampled xs vm s is_preview (record w { totals = count_on w.totals })
      else (if no_samples fl s
          then record w {
            totals = count_off w.totals;
            findings = w.findings ++ keep fl xs vm (off_finding fl x vm ∷ []);
          }
          else add_sampled xs vm s is_preview (record w { totals = count_off w.totals }))

  -- A VM that is no template is counted, with its storage.
  unfoldable pub entered : List Exclusion → Vm → Work fl → Work fl
  unfolding keep storage_findings note_match
  entered xs vm w =
      let t = w.totals in
      record w {
        totals = record t { vms = t.vms + 1; storage = t.storage + vm.committed };
        matched = note_match vm.name xs w.matched;
        findings = w.findings ++ keep fl xs vm (storage_findings fl vm x.end);
      }

  -- One pass of the loop over `inv.VMs`.
  unfoldable pub add_vm : Vm → Work fl → Work fl
  unfolding vm_stats add_powered for_vm entered
  add_vm vm w =
      let t = w.totals in
      let xs = for_vm mt x.exclusions vm.uuid vm.name in
      let s = vm_stats fl x vm.ref in
      if vm.template
      then record w { totals = record t { vms = t.vms + 1; templates = t.templates + 1 } }
      else add_powered xs vm (s.0) (s.1) (entered xs vm w)

  unfoldable pub add_vms : List Vm → Work fl → Work fl
  unfolding add_vm
  add_vms [] w = w
  add_vms (vm ∷ vms) w = add_vms vms (add_vm vm w)

  unfoldable pub add_hosts : List Host → Work fl → Work fl
  unfolding add_host
  add_hosts [] w = w
  add_hosts (h ∷ hs) w = add_hosts hs (add_host fl h w)

  -- The loop over the clusters, for one of them.
  unfoldable pub finish_cluster : Map (Map ℕ) → Text → Cluster fl → Cluster fl
  unfolding cluster_stats size_cluster top_model lookup
  finish_cluster models name c =
      let cs = cluster_stats fl x name in
      let named : Cluster fl = record c {
        cpu_model = top_model (models_of (lookup name models));
        preview = cs.1;
      } in
      size_cluster fl (cs.0) x.profile named

  unfoldable pub finish_clusters :
      Map (Map ℕ) → Map (Cluster fl) → Totals → List (Cluster fl) × Totals
  unfolding finish_cluster
  finish_clusters models [] t = ([], t)
  finish_clusters models ((name, c) ∷ m) t =
      let c' = finish_cluster models name c in
      let rest = finish_clusters models m (with_hosts fl c' t) in (c' ∷ rest.0, rest.1)

  -- The disks that no exclusion names, and what the exclusions have matched.
  unfoldable pub split_orphans :
      List OrphanDisk → Map (List Text) → List OrphanDisk × Map (List Text)
  unfolding for_disk note_match
  split_orphans [] m = ([], m)
  split_orphans (o ∷ os) m =
      let e = for_disk x.exclusions o.path in orphan_step o e (split_orphans os (disk_match o e m))

  -- The exclusions that matched something, with what they matched.
  abbrev pub applied : List Exclusion → Map (List Text) → List (Exclusion × List Text)
  applied [] m = []
  applied (e ∷ es) m =
      let names = appended (lookup e.id m) in
      let rest = applied es m in elim names [ [] ↦ rest | n ∷ ns ↦ (e, n ∷ ns) ∷ rest ]

module _ (fl : Floats) where
  abbrev pub reclaimed : List (Finding fl) → ℕ
  reclaimed [] = 0
  reclaimed (f ∷ fs) =
      let rest = reclaimed fs in if reclaims_storage f.kind then f.bytes + rest else rest

  abbrev pub with_impact : Finding fl → Finding fl
  with_impact f = record f { impact = impact fl f }

  pub record Result : Type 0 where
    pub totals : Totals
    pub findings : List (Finding fl)
    pub vms : List (VmResult fl)
    pub clusters : List (Cluster fl)
    pub preview : Bool
    pub orphans : List OrphanDisk
    pub excluded : List (Exclusion × List Text)
