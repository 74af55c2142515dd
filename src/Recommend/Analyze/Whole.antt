-- ===== src/Recommend/Analyze/Whole.antt =====
-- `Analyze` of internal/analysis/recommend.go as a whole, of an inventory that is there.
use rightsizer.Prelude.{pos, Bool, false, ◌||◌, List, [], ◌∷◌, ◌++◌, map}
use rightsizer.Floats.{Floats}
use rightsizer.Map.{Map}
use rightsizer.Recommend.Data.{Finding, VmResult}
use rightsizer.Recommend.Shape.{orphan_findings}
use rightsizer.Recommend.Exclusions.{Matching}
use rightsizer.Recommend.Cluster.{Cluster, text_lt}
use rightsizer.Recommend.Order.{sort_by, sort_findings}
use rightsizer.Recommend.Analyze.{Totals, Input, Work, cluster_stats}
use rightsizer.Recommend.Analyze.Steps.{
  add_hosts, add_vms, finish_clusters, split_orphans, reclaimed, with_impact, applied, Result,
}

abbrev pub no_totals : Totals
no_totals = record {
  vms = 0;
  on = 0;
  off = 0;
  templates = 0;
  analyzed = 0;
  vcpu = 0;
  rec_vcpu = 0;
  mem_mb = 0;
  rec_mem_mb = 0;
  idle_vcpu = pos 0;
  idle_mem_mb = pos 0;
  storage = 0;
  reclaim = 0;
  hosts = 0;
  hosts_needed = 0;
  cores = 0;
  need_cores = 0;
}

module _ (fl : Floats) where
  abbrev pub no_work : Work fl
  no_work = record {
    totals = no_totals;
    findings = [];
    vms = [];
    clusters = [];
    models = [];
    hosts = [];
    matched = [];
    preview = false;
  }

  abbrev pub any_preview : Input fl → Map (Cluster fl) → Bool
  any_preview x [] = false
  any_preview x ((n, c) ∷ m) = (cluster_stats fl x n).1 || any_preview x m

  abbrev pub cluster_before : Cluster fl → Cluster fl → Bool
  cluster_before a b = text_lt a.name b.name

  abbrev pub vm_before : VmResult fl → VmResult fl → Bool
  vm_before a b = text_lt a.name b.name

  module _ (mt : Matching) (x : Input fl) where
    -- The work before the clusters are sized.
    unfoldable pub collected : Work fl
    unfolding add_vms add_hosts
    collected = add_vms fl mt x x.vms (add_hosts fl mt x x.hosts no_work)

    -- The findings before they are ranked.
    unfoldable pub unranked : List (Finding fl)
    unfolding collected orphan_findings split_orphans
    unranked =
        let split = split_orphans fl mt x x.orphans collected.matched in
        collected.findings ++ orphan_findings fl (split.0)

    unfoldable pub analyze : Result fl
    unfolding unranked finish_clusters sort_findings sort_by
    analyze =
        let w = collected in
        let sized = finish_clusters fl mt x w.models w.clusters w.totals in
        let split = split_orphans fl mt x x.orphans w.matched in
        let t = sized.1 in
        record {
          totals = record t { reclaim = reclaimed fl unranked };
          findings = sort_findings fl (map (with_impact fl) unranked);
          vms = sort_by vm_before w.vms;
          clusters = sort_by cluster_before (sized.0);
          preview = w.preview || any_preview x w.clusters;
          orphans = split.0;
          excluded = applied fl mt x x.exclusions (split.1);
        }
