-- ===== src/Recommend/Outcome.antt =====
-- The result of `Analyze` (internal/analysis/recommend.go): its totals against its clusters and VMs.
use rightsizer.Prelude.{
  ℕ, ◌+◌, ◌≤◌, ◌≡◌, refl, Option, none, some, List, [], ◌∷◌, arith, length, if-both, ◌==◌,
}
use rightsizer.Floats.{Floats}
use rightsizer.Text.{Text}
use rightsizer.Map.{Map}
use rightsizer.Stats.Vm.{ClusterStats}
use rightsizer.Recommend.Data.{Profile}
use rightsizer.Recommend.Exclusions.{Matching}
use rightsizer.Recommend.Order.{sort_by}
use rightsizer.Recommend.Cluster.{Cluster, size_cluster}
use rightsizer.Recommend.Analyze.{Totals, Input}
use rightsizer.Recommend.Analyze.Steps.{finish_cluster, finish_clusters, with_hosts, Result}
use rightsizer.Recommend.Analyze.Whole.{collected, analyze, vm_before, cluster_before}
use rightsizer.Recommend.Sums.{sum_of, sum_map, sum_of-sort_by, length-sort_by}
use rightsizer.Recommend.Balance.{vcpus, rec_vcpus, mems, rec_mems, collected-IsCounted}

module _ (fl : Floats) where
  abbrev SameFields : Cluster fl → Cluster fl → Type 0
  SameFields c d =
      (c.vcpu ≡ d.vcpu)
      × (c.rec_vcpu ≡ d.rec_vcpu)
      × (c.mem_mb ≡ d.mem_mb)
      × (c.rec_mem_mb ≡ d.rec_mem_mb)

  size_cluster-SameFields :
      (o : Option (ClusterStats fl)) (p : Profile fl) (c : Cluster fl)
      → SameFields (size_cluster fl o p c) c
  unfolding size_cluster
  size_cluster-SameFields none p c =
      if-both (λ d. SameFields d c) (c.hosts == 0) (λ e. (refl, refl, refl, refl))
        (λ e. (refl, refl, refl, refl))
  size_cluster-SameFields (some cs) p c =
      if-both (λ d. SameFields d c) (c.hosts == 0) (λ e. (refl, refl, refl, refl))
        (λ e. (refl, refl, refl, refl))

  -- The totals of the hosts are those of the clusters; the others are what they were.
  abbrev Summed : Totals → Map (Cluster fl) → List (Cluster fl) × Totals → Type 0
  Summed t m (cs, t') =
      (t'.hosts ≡ t.hosts + sum_of (λ c. c.hosts) cs)
      × (t'.hosts_needed ≡ t.hosts_needed + sum_of (λ c. c.hosts_needed) cs)
      × (t'.cores ≡ t.cores + sum_of (λ c. c.cores) cs)
      × (t'.need_cores ≡ t.need_cores + sum_of (λ c. c.need_cores) cs)
      × (sum_of (vcpus fl) cs ≡ sum_map (vcpus fl) m)
      × (sum_of (rec_vcpus fl) cs ≡ sum_map (rec_vcpus fl) m)
      × (sum_of (mems fl) cs ≡ sum_map (mems fl) m)
      × (sum_of (rec_mems fl) cs ≡ sum_map (rec_mems fl) m)

  -- The totals of the VMs are the same.
  abbrev Same : Totals → Totals → Type 0
  Same t u =
      (t.vms ≡ u.vms)
      × (t.on ≡ u.on)
      × (t.off ≡ u.off)
      × (t.templates ≡ u.templates)
      × (t.analyzed ≡ u.analyzed)
      × (t.vcpu ≡ u.vcpu)
      × (t.rec_vcpu ≡ u.rec_vcpu)
      × (t.mem_mb ≡ u.mem_mb)
      × (t.rec_mem_mb ≡ u.rec_mem_mb)

  -- The sum of a field over the clusters of a result.
  abbrev pub over : (Cluster fl → ℕ) → Result fl → ℕ
  over f r = sum_of f r.clusters

  abbrev pub IsBalanced : Result fl → Type 0
  IsBalanced r =
      let t = r.totals in
      (t.vms ≡ t.templates + t.on + t.off)
      × (t.analyzed ≡ length r.vms)
      × (t.analyzed ≤ t.on + t.off)
      × (t.vcpu ≡ over (λ c. c.vcpu) r)
      × (t.rec_vcpu ≡ over (λ c. c.rec_vcpu) r)
      × (t.mem_mb ≡ over (λ c. c.mem_mb) r)
      × (t.rec_mem_mb ≡ over (λ c. c.rec_mem_mb) r)
      × (t.hosts ≡ over (λ c. c.hosts) r)
      × (t.hosts_needed ≡ over (λ c. c.hosts_needed) r)
      × (t.cores ≡ over (λ c. c.cores) r)
      × (t.need_cores ≡ over (λ c. c.need_cores) r)

  module _ (mt : Matching) (x : Input fl) where
    finish_cluster-SameFields :
        (ms : Map (Map ℕ)) (n : Text) (c : Cluster fl)
        → SameFields (finish_cluster fl mt x ms n c) c
    unfolding finish_cluster
    finish_cluster-SameFields ms n c = size_cluster-SameFields _ x.profile _

    finish_clusters-Summed :
        (ms : Map (Map ℕ)) (m : Map (Cluster fl)) (t : Totals)
        → Summed t m (finish_clusters fl mt x ms m t)
    unfolding finish_clusters
    finish_clusters-Summed ms [] t =
        (omega arith, omega arith, omega arith, omega arith, refl, refl, refl, refl)
    finish_clusters-Summed ms ((n, c) ∷ m) t =
        let c' = finish_cluster fl mt x ms n c in
        let (a, b, d, e) = finish_cluster-SameFields ms n c in
        let (h, i, j, k, v, r, s, q) = finish_clusters-Summed ms m (with_hosts fl c' t) in
        (
          omega (arith, h),
          omega (arith, i),
          omega (arith, j),
          omega (arith, k),
          omega (arith, v, a),
          omega (arith, r, b),
          omega (arith, s, d),
          omega (arith, q, e),
        )

    finish_clusters-Same :
        (ms : Map (Map ℕ)) (m : Map (Cluster fl)) (t : Totals)
        → Same t ((finish_clusters fl mt x ms m t).1)
    unfolding finish_clusters
    finish_clusters-Same ms [] t = (refl, refl, refl, refl, refl, refl, refl, refl, refl)
    finish_clusters-Same ms ((n, c) ∷ m) t =
        finish_clusters-Same ms m (with_hosts fl (finish_cluster fl mt x ms n c) t)

    -- The totals of `Analyze`: every VM is a template, on or off; the analyzed VMs are those of the
    -- result, and each is on or off; the vCPUs and the memory, present and recommended, and the hosts
    -- and cores, present and needed, are the sums over the clusters of the result.
    pub analyze-IsBalanced : IsBalanced (analyze fl mt x)
    unfolding analyze
    analyze-IsBalanced =
        let w = collected fl mt x in
        let ((a, b, c, d, (h0, n0, c0, k0)), v, z, o) = collected-IsCounted fl mt x in
        let f = finish_clusters fl mt x w.models w.clusters w.totals in
        let (h, n, k, e, sv, sr, sm, sq) = finish_clusters-Summed w.models w.clusters w.totals in
        let (tv, ton, toff, tt', ta, tc, tr, tm, tq) =
          finish_clusters-Same w.models w.clusters w.totals in
        let sorted : (g : Cluster fl → ℕ)
            → sum_of g (sort_by (cluster_before fl) (f.0)) ≡ sum_of g (f.0) =
          λ g. sum_of-sort_by g (cluster_before fl) (f.0) in
        (
          omega (arith, v, tv, ton, toff, tt'),
          omega (arith, z, ta, length-sort_by (vm_before fl) w.vms),
          omega (arith, o, ta, ton, toff),
          omega (arith, a, tc, sv, sorted (vcpus fl)),
          omega (arith, b, tr, sr, sorted (rec_vcpus fl)),
          omega (arith, c, tm, sm, sorted (mems fl)),
          omega (arith, d, tq, sq, sorted (rec_mems fl)),
          omega (arith, h, h0, sorted (λ c. c.hosts)),
          omega (arith, n, n0, sorted (λ c. c.hosts_needed)),
          omega (arith, k, c0, sorted (λ c. c.cores)),
          omega (arith, e, k0, sorted (λ c. c.need_cores)),
        )
