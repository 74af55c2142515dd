-- ===== src/Recommend/Merge.antt =====
-- `Merge` of internal/analysis/merge.go: one report of several vCenters. The name, the times and the
-- profile are left out; `src` is the part of a vCenter's name before the first space.
use rightsizer.Prelude.{◌+◌, false, List, [], ◌∷◌, ◌++◌, map, ◌+ℤ◌}
use rightsizer.Floats.{Floats}
use rightsizer.Text.{Text, codes}
use rightsizer.Recommend.Data.{Finding, VmResult}
use rightsizer.Recommend.Cluster.{Cluster}
use rightsizer.Recommend.Order.{sort_findings}
use rightsizer.Recommend.Analyze.{Totals}
use rightsizer.Recommend.Analyze.Steps.{Result}
use rightsizer.Recommend.Analyze.Whole.{no_totals}

unfoldable pub add_totals : Totals → Totals → Totals
add_totals t a = record {
  vms = t.vms + a.vms;
  on = t.on + a.on;
  off = t.off + a.off;
  templates = t.templates + a.templates;
  analyzed = t.analyzed + a.analyzed;
  vcpu = t.vcpu + a.vcpu;
  rec_vcpu = t.rec_vcpu + a.rec_vcpu;
  mem_mb = t.mem_mb + a.mem_mb;
  rec_mem_mb = t.rec_mem_mb + a.rec_mem_mb;
  idle_vcpu = t.idle_vcpu +ℤ a.idle_vcpu;
  idle_mem_mb = t.idle_mem_mb +ℤ a.idle_mem_mb;
  storage = t.storage + a.storage;
  reclaim = t.reclaim + a.reclaim;
  hosts = t.hosts + a.hosts;
  hosts_needed = t.hosts_needed + a.hosts_needed;
  cores = t.cores + a.cores;
  need_cores = t.need_cores + a.need_cores;
}

-- src + " / " + name
abbrev pub prefixed : Text → Text → Text
prefixed src name = src ++ (codes " / " ++ name)

module _ (fl : Floats) where
  abbrev pub finding_of : Text → Finding fl → Finding fl
  finding_of src f = record f { cluster = prefixed src f.cluster }

  abbrev pub vm_of : Text → VmResult fl → VmResult fl
  vm_of src v = record v { cluster = prefixed src v.cluster }

  abbrev pub cluster_of : Text → Cluster fl → Cluster fl
  cluster_of src c = record c { name = prefixed src c.name }

  -- One pass of the loop over the results.
  unfoldable pub merge_one : Text × Result fl → Result fl → Result fl
  unfolding add_totals
  merge_one (src, r) out = record out {
    totals = add_totals out.totals r.totals;
    findings = out.findings ++ map (finding_of src) r.findings;
    vms = out.vms ++ map (vm_of src) r.vms;
    clusters = out.clusters ++ map (cluster_of src) r.clusters;
  }

  unfoldable pub merge_all : List (Text × Result fl) → Result fl → Result fl
  unfolding merge_one
  merge_all [] out = out
  merge_all (r ∷ rs) out = merge_all rs (merge_one r out)

  abbrev pub no_result : Result fl
  no_result = record {
    totals = no_totals;
    findings = [];
    vms = [];
    clusters = [];
    preview = false;
    orphans = [];
    excluded = [];
  }

  abbrev pub sorted_findings : Result fl → Result fl
  sorted_findings out = record out { findings = sort_findings fl out.findings }

  unfoldable pub merge : List (Text × Result fl) → Result fl
  unfolding merge_all sort_findings
  merge [] = sorted_findings no_result
  merge ((src, r) ∷ []) = r
  merge (r ∷ s ∷ rs) = sorted_findings (merge_all (r ∷ s ∷ rs) no_result)
