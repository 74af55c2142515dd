-- ===== src/Recommend/Balance.antt =====
-- The totals of `Analyze` (internal/analysis/recommend.go) against the clusters and the VMs of its result.
use rightsizer.Prelude.{
  ℕ, suc, ◌+◌, ◌≤◌, ◌≡◌, refl, Bool, Option, none, some, List, [], ◌∷◌, arith, length,
  length-append, Bool-cases, if-both, inl, inr,
}
use rightsizer.Floats.{Floats}
use rightsizer.Text.{Text}
use rightsizer.Map.{Map}
use rightsizer.Stats.Vm.{VmStats, hours}
use rightsizer.Recommend.Data.{Vm, Host, Finding, VmResult, idle}
use rightsizer.Recommend.Exclusions.{Matching, Exclusion, same_kind, for_vm}
use rightsizer.Recommend.Cluster.{Cluster}
use rightsizer.Recommend.Analyze.{
  Totals, Input, Work, with_cluster, join_cluster, grown, add_host, add_sizes, add_idle, no_samples,
  held,
}
use rightsizer.Recommend.Analyze.Steps.{
  add_measured, add_sampled, add_powered, add_vm, add_vms, count_on, count_off, with_result,
  entered, first_result, vm_findings, add_hosts,
}
use rightsizer.Recommend.Analyze.Whole.{no_work, collected}
use rightsizer.Recommend.Sums.{sum_map, sum_map-with_cluster}

module _ (fl : Floats) where
  abbrev pub vcpus : Cluster fl → ℕ
  vcpus c = c.vcpu

  abbrev pub rec_vcpus : Cluster fl → ℕ
  rec_vcpus c = c.rec_vcpu

  abbrev pub mems : Cluster fl → ℕ
  mems c = c.mem_mb

  abbrev pub rec_mems : Cluster fl → ℕ
  rec_mems c = c.rec_mem_mb

  -- The hosts are counted after the VMs.
  abbrev pub NoHosts : Totals → Type 0
  NoHosts t = (t.hosts ≡ 0) × (t.hosts_needed ≡ 0) × (t.cores ≡ 0) × (t.need_cores ≡ 0)

  -- The sizes of all VMs are the sums over the clusters.
  abbrev pub SameSizes : Totals → Map (Cluster fl) → Type 0
  SameSizes t m =
      (t.vcpu ≡ sum_map vcpus m)
      × (t.rec_vcpu ≡ sum_map rec_vcpus m)
      × (t.mem_mb ≡ sum_map mems m)
      × (t.rec_mem_mb ≡ sum_map rec_mems m)
      × NoHosts t

  -- The sums after a change of one cluster that adds these sizes to it.
  with_cluster-SameSizes :
      (v r m q : ℕ) (n : Text) (g : Cluster fl → Cluster fl) (t : Totals) (cs : Map (Cluster fl))
      → ((c : Cluster fl)
          → (vcpus (g c) ≡ vcpus c + v)
            × (rec_vcpus (g c) ≡ rec_vcpus c + r)
            × (mems (g c) ≡ mems c + m)
            × (rec_mems (g c) ≡ rec_mems c + q))
      → SameSizes t cs
      → let t' : Totals = record t {
        vcpu = t.vcpu + v;
        rec_vcpu = t.rec_vcpu + r;
        mem_mb = t.mem_mb + m;
        rec_mem_mb = t.rec_mem_mb + q;
      } in
        SameSizes t' (with_cluster fl n g cs)
  with_cluster-SameSizes v r m q n g t cs h (a, b, c, d, hosts) = (
    omega (arith, a, sum_map-with_cluster fl vcpus v n g cs refl (λ x. (h x).0)),
    omega (arith, b, sum_map-with_cluster fl rec_vcpus r n g cs refl (λ x. (h x).1)),
    omega (arith, c, sum_map-with_cluster fl mems m n g cs refl (λ x. (h x).2)),
    omega (arith, d, sum_map-with_cluster fl rec_mems q n g cs refl (λ x. (h x).3)),
    hosts,
  )

  add_host-SameSizes :
      (h : Host) (w : Work fl)
      → SameSizes w.totals w.clusters
      → let w' = add_host fl h w in
        (w'.totals ≡ w.totals) × (w'.vms ≡ w.vms) × SameSizes w'.totals w'.clusters
  unfolding add_host
  add_host-SameSizes h w s = elim (Bool-cases h.connected) [
    | inl e ↦
        let k =
          with_cluster-SameSizes 0 0 0 0 h.cluster (join_cluster fl h) w.totals w.clusters
            (λ c. (omega arith, omega arith, omega arith, omega arith)) s in
        rw e (
          refl,
          refl,
          (omega (arith, k.0), omega (arith, k.1), omega (arith, k.2), omega (arith, k.3), k.4),
        )
    | inr e ↦ rw e (refl, refl, s)
  ]

  add_sizes-SameSizes :
      (vm : Vm) (r m : ℕ) (w : Work fl)
      → SameSizes w.totals w.clusters
      → let w' = add_sizes fl vm r m w in SameSizes w'.totals w'.clusters
  unfolding add_sizes
  add_sizes-SameSizes vm r m w s =
      with_cluster-SameSizes vm.vcpu r vm.mem_mb m vm.cluster (grown fl vm r m) w.totals w.clusters
        (λ c. (refl, refl, refl, refl)) s

  -- The VMs are the templates, those on and those off; `n` more than are analyzed may still be.
  abbrev pub Counted : ℕ → Totals → Map (Cluster fl) → List (VmResult fl) → Type 0
  Counted n t cs vms =
      SameSizes t cs
      × (t.vms ≡ t.templates + t.on + t.off)
      × (t.analyzed ≡ length vms)
      × (t.analyzed + n ≤ t.on + t.off)

  abbrev pub IsCounted : ℕ → Work fl → Type 0
  IsCounted n w = Counted n w.totals w.clusters w.vms

  add_idle-Counted :
      (n : ℕ) (fs : List (Finding fl)) (t : Totals) (cs : Map (Cluster fl))
      (vms : List (VmResult fl))
      → Counted n t cs vms
      → Counted n (add_idle fl fs t) cs vms
  unfolding add_idle
  add_idle-Counted n [] t cs vms h = h
  add_idle-Counted n (f ∷ fs) t cs vms h =
      add_idle-Counted n fs _ cs vms
        (if-both (λ t'. Counted n t' cs vms) (same_kind f.kind idle) (λ e. h) (λ e. h))

  add_sizes-IsCounted :
      (n : ℕ) (vm : Vm) (r m : ℕ) (w : Work fl)
      → IsCounted (suc n) w
      → IsCounted n (add_sizes fl vm r m w)
  unfolding add_sizes
  add_sizes-IsCounted n vm r m w (s, v, a, o) =
      (add_sizes-SameSizes vm r m w s, v, a, omega (arith, o))

  with_result-IsCounted :
      (vm : Vm) (vr : VmResult fl) (fs : List (Finding fl)) (p : Bool) (w : Work fl)
      → IsCounted 1 w
      → IsCounted 0 (with_result fl vm vr fs p w)
  unfolding with_result add_sizes
  with_result-IsCounted vm vr fs p w (z, v, a, o) =
      let t = (add_sizes fl vm vr.rec_vcpu vr.rec_mem_mb w).totals in
      add_idle-Counted 0 fs (record t { analyzed = t.analyzed + 1 }) _ _
        (
          add_sizes-SameSizes vm vr.rec_vcpu vr.rec_mem_mb w z,
          v,
          omega (arith, a, length-append w.vms (vr ∷ [])),
          omega (arith, o),
        )

  module _ (mt : Matching) (x : Input fl) where
    add_measured-IsCounted :
        (xs : List Exclusion) (vm : Vm) (s : VmStats fl) (p : Bool) (w : Work fl)
        → IsCounted 1 w
        → IsCounted 0 (add_measured fl mt x xs vm s p w)
    unfolding add_measured
    add_measured-IsCounted xs vm s p w h =
        with_result-IsCounted vm (held fl xs vm (first_result fl mt x vm s p))
          (vm_findings fl mt x xs vm s p w.hosts) p w h

    add_sampled-IsCounted :
        (xs : List Exclusion) (vm : Vm) (s : Option (VmStats fl)) (p : Bool) (w : Work fl)
        → IsCounted 1 w
        → IsCounted 0 (add_sampled fl mt x xs vm s p w)
    add_sampled-IsCounted xs vm none p w h = add_sizes-IsCounted 0 vm vm.vcpu vm.mem_mb w h
    add_sampled-IsCounted xs vm (some s) p w h =
        if-both (IsCounted 0) (fl.lt (hours fl s) (fl.of_int 1))
          (λ e. add_sizes-IsCounted 0 vm vm.vcpu vm.mem_mb w h)
          (λ e. add_measured-IsCounted xs vm s p w h)

    -- From the totals in which the VM is counted, but not its power state.
    add_powered-IsCounted :
        (xs : List Exclusion) (vm : Vm) (s : Option (VmStats fl)) (p : Bool) (w : Work fl)
        → (SameSizes w.totals w.clusters)
          × (w.totals.vms ≡ suc (w.totals.templates + w.totals.on + w.totals.off))
          × (w.totals.analyzed ≡ length w.vms)
          × (w.totals.analyzed ≤ w.totals.on + w.totals.off)
        → IsCounted 0 (add_powered fl mt x xs vm s p w)
    unfolding add_powered
    add_powered-IsCounted xs vm s p w (z, v, a, o) =
        let on : Work fl = record w { totals = count_on w.totals } in
        let off : Work fl = record w { totals = count_off w.totals } in
        if-both (IsCounted 0) vm.power_on
          (λ e. add_sampled-IsCounted xs vm s p on (z, omega (arith, v), a, omega (arith, o)))
          (λ e.
            if-both (IsCounted 0) (no_samples fl s)
              (λ k. (z, omega (arith, v), a, omega (arith, o)))
              (λ k. add_sampled-IsCounted xs vm s p off (z, omega (arith, v), a, omega (arith, o))))

    add_vm-IsCounted : (vm : Vm) (w : Work fl) → IsCounted 0 w → IsCounted 0 (add_vm fl mt x vm w)
    unfolding add_vm entered
    add_vm-IsCounted vm w (z, v, a, o) =
        let xs = for_vm mt x.exclusions vm.uuid vm.name in
        if-both (IsCounted 0) vm.template (λ e. (z, omega (arith, v), a, o))
          (λ e.
            add_powered-IsCounted xs vm _ _ (entered fl mt x xs vm w)
              (z, omega (arith, v), a, omega (arith, o)))

    add_vms-IsCounted :
        (vms : List Vm) (w : Work fl) → IsCounted 0 w → IsCounted 0 (add_vms fl mt x vms w)
    unfolding add_vms
    add_vms-IsCounted [] w h = h
    add_vms-IsCounted (vm ∷ vms) w h =
        add_vms-IsCounted vms (add_vm fl mt x vm w) (add_vm-IsCounted vm w h)

    add_hosts-IsCounted :
        (hs : List Host) (w : Work fl) → IsCounted 0 w → IsCounted 0 (add_hosts fl mt x hs w)
    unfolding add_hosts
    add_hosts-IsCounted [] w h = h
    add_hosts-IsCounted (h ∷ hs) w (z, v, a, o) =
        let (same, vms, z') = add_host-SameSizes h w z in
        add_hosts-IsCounted hs (add_host fl h w)
          (z', ground (arith, same, v), ground (arith, same, vms, a), ground (arith, same, o))

    pub collected-IsCounted : IsCounted 0 (collected fl mt x)
    unfolding collected
    collected-IsCounted = add_vms-IsCounted x.vms _ (
        add_hosts-IsCounted x.hosts (no_work fl)
          ((refl, refl, refl, refl, (refl, refl, refl, refl)), refl, refl, omega arith))
