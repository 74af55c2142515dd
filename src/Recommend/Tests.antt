-- ===== src/Recommend/Tests.antt =====
-- A small vCenter with numbers of three decimals in place of float64, and the theorems at it.
use mathlib.Core.List.{Perm}
use rightsizer.Prelude.{
  ℕ, zero, suc, ◌+◌, ◌-◌, ◌*◌, ◌≤◌, ◌≡◌, refl, ◌⊎◌, true, false, none, some, List, [], ◌∷◌, ◌++◌,
  arith, pos, All,
}
use rightsizer.Floats.Decimal.{thousandths}
use rightsizer.Text.{Text, codes}
use rightsizer.Text.Equality.{text_eq}
use rightsizer.Stats.{Hist, find_bucket, pct}
use rightsizer.Stats.Average.{Stat}
use rightsizer.Stats.Vm.{VmStats, ClusterStats, Store}
use rightsizer.Recommend.Data.{Kind, cpu_over, mem_over, idle, medium, Vm, Host, Finding, blank}
use rightsizer.Recommend.Rules.{round_gib, contains, rightsize}
use rightsizer.Recommend.Exclusions.{Matching, Exclusion}
use rightsizer.Recommend.Profiles.{balanced}
use rightsizer.Recommend.Cluster.{Cluster, new_cluster, size_cluster}
use rightsizer.Recommend.Order.{sort_findings}
use rightsizer.Recommend.Analyze.{Input}
use rightsizer.Recommend.Analyze.Whole.{analyze}
use rightsizer.Recommend.Rightsizing.{Agrees, IsCpuReported, IsMemReported, rightsize-Agrees}
use rightsizer.Recommend.Outcome.{IsBalanced, analyze-IsBalanced}
use rightsizer.Recommend.Ranking.{IsOrder, Ordered, Ranks, sort_findings-Ordered}
use rightsizer.Recommend.Kept.{Reported, analyze-Reported}
use rightsizer.Recommend.Analyze.Steps.{Result}
use rightsizer.Recommend.Merge.{merge}
use rightsizer.Recommend.Combined.{all_findings, merge-IsBalanced, merge-findings}
use rightsizer.Recommend.Hosts.{IsFit, size_cluster-IsFit}

abbrev lower : Text → Text
lower t = t

-- Patterns without any special sign.
abbrev plain : Matching
plain = record { to_lower = lower; equal_fold = text_eq; glob = λ p t. some (text_eq p t) }

abbrev zeros : ℕ → List ℕ
zeros zero = []
zeros (suc n) = 0 ∷ zeros n

-- Two days of samples in one bucket.
abbrev steady : ℕ → Hist thousandths
steady i = record {
  b = zeros i ++ (8640 ∷ zeros (200 - i));
  n = 8640;
  max = 500 * (i + 1);
  sum = 8640 * (500 * i);
}

abbrev average : ℕ → Stat thousandths
average v = record { n = 8640; sum = 8640 * v; max = v }

abbrev stats : VmStats thousandths
stats = record {
  cpu = steady 20;
  mem = steady 40;
  ready = average 1000;
  co_stop = average 0;
  cpu_mhz = average 900000;
  consumed = average 5000;
  disk = average 50000;
  net = average 70000;
  read_iops = average 0;
  write_iops = average 0;
  first = pos 20;
  last = pos 172800;
  samples = 8640;
  slots = record { demand = []; slots = [] };
}

abbrev web : Vm
web = record {
  ref = codes "vm-1";
  uuid = codes "u1";
  name = codes "web";
  cluster = codes "A";
  host = codes "esx1";
  guest_os = codes "linux";
  power_on = true;
  template = false;
  vcpu = 8;
  mem_mb = 16384;
  committed = 5000;
  disks = [];
  guest_disks = [];
  snapshots = [];
  snapshot_bytes = 0;
}

-- 15 percent of 8 vCPUs at a target of 0.7 are two, and 35 percent of the memory are 6 GB.
web_sizes :
    let r = (rightsize thousandths lower web stats (balanced thousandths) 48000).0 in
    (r.rec_vcpu ≡ 2) × (r.rec_mem_mb ≡ 6144)
unfolding rightsize pct find_bucket round_gib contains
web_sizes = (refl, refl)

rightsize-Agrees_example :
    let r = rightsize thousandths lower web stats (balanced thousandths) 48000 in
    All (Agrees thousandths web ((r.0).rec_vcpu) ((r.0).rec_mem_mb)) (r.1)
    × (1 ≤ 8 → 1 ≤ (r.0).rec_vcpu)
    × (((r.0).rec_mem_mb ≡ 16384) ⊎ ((g : ℕ) × ((r.0).rec_mem_mb ≡ g * 1024)))
    × IsCpuReported thousandths web ((r.0).rec_vcpu) (r.1)
    × IsMemReported thousandths web ((r.0).rec_mem_mb) (r.1)
rightsize-Agrees_example = rightsize-Agrees thousandths lower web stats (balanced thousandths) 48000

abbrev esx : Host
esx = record {
  name = codes "esx1";
  cluster = codes "A";
  cpu_model = codes "Xeon";
  cores = 16;
  mhz = 2000;
  mem_bytes = 64000;
  numa_nodes = 2;
  connected = true;
}

-- The memory of the VM is not to be touched.
abbrev reserved : Exclusion
reserved = record {
  id = codes "x1";
  v_center = [];
  uuid = [];
  name = codes "web";
  path = [];
  kinds = mem_over ∷ [];
  reason = codes "Licensing";
  note = codes "as agreed";
  created = pos 5;
  review_by = pos 0;
}

abbrev cluster_stats : ClusterStats thousandths
cluster_stats = record { cpu = steady 60; mem = steady 80; points = [] }

abbrev store : Store thousandths
store = record {
  vms = (codes "vm-1", stats) ∷ [];
  clusters = (codes "A", cluster_stats) ∷ [];
  anchor = pos 0;
}

abbrev site : Input thousandths
site = record {
  hosts = esx ∷ [];
  vms =
      web
      ∷ record web { template = true }
      ∷ record web { ref = codes "vm-2"; power_on = false }
      ∷ [];
  rt = some store;
  history = none;
  orphans = record { datastore = codes "ds"; path = codes "old.vmdk"; size = pos 70 } ∷ [];
  exclusions = reserved ∷ [];
  profile = balanced thousandths;
  end = pos 200000;
  window = 48000;
}

analyze-IsBalanced_example : IsBalanced thousandths (analyze thousandths plain site)
analyze-IsBalanced_example = analyze-IsBalanced thousandths plain site

analyze-Reported_example :
    All (Reported thousandths plain site) ((analyze thousandths plain site).findings)
analyze-Reported_example = analyze-Reported thousandths plain site

thousandths-IsOrder : IsOrder thousandths
thousandths-IsOrder = record {
  lt_not_le = λ a b h k. ground arith;
  le_total = λ a b h k e. ground (arith, e);
  le_trans = λ a b c h k. ground (arith, h, k);
}

abbrev found : Text → Kind → ℕ → Finding thousandths
found vm k n = record (blank thousandths vm (codes "A") (codes "high") k medium) { impact = n }

abbrev three : List (Finding thousandths)
three =
    found (codes "b") idle 700 ∷ found (codes "a") idle 700 ∷ found (codes "c") cpu_over 900 ∷ []

sort_findings-Ordered_example :
    Perm (sort_findings thousandths three) three
    × Ordered (Ranks thousandths thousandths-IsOrder) (sort_findings thousandths three)
sort_findings-Ordered_example =
    sort_findings-Ordered thousandths thousandths-IsOrder three (refl, (refl, (refl, tt)))

abbrev two_hosts : Cluster thousandths
two_hosts = record (new_cluster thousandths (codes "A")) {
  hosts = 2;
  cores = 32;
  cap_mhz = 64000000;
  cap_mem_b = 128000000;
  rec_mem_mb = 6;
}

size_cluster-IsFit_example :
    IsFit thousandths
      (size_cluster thousandths (some cluster_stats) (balanced thousandths) two_hosts)
size_cluster-IsFit_example =
    size_cluster-IsFit thousandths (some cluster_stats) (balanced thousandths) two_hosts
      (λ e. absurd (omega (arith, e))) refl

abbrev one : Result thousandths
one = analyze thousandths plain site

merge-IsBalanced_example :
    IsBalanced thousandths (merge thousandths ((codes "a", one) ∷ (codes "b", one) ∷ []))
merge-IsBalanced_example =
    merge-IsBalanced thousandths ((codes "a", one) ∷ (codes "b", one) ∷ [])
      (analyze-IsBalanced thousandths plain site, (analyze-IsBalanced thousandths plain site, tt))

merge-findings_example :
    let m = merge thousandths ((codes "a", one) ∷ (codes "b", one) ∷ []) in
    Perm m.findings (all_findings thousandths ((codes "a", one) ∷ (codes "b", one) ∷ []))
    × (m.excluded ≡ [])
    × (m.orphans ≡ [])
    × (m.preview ≡ false)
merge-findings_example = merge-findings thousandths (codes "a", one) (codes "b", one) []
