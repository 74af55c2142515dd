-- ===== src/Recommend/Kept.antt =====
-- What the exclusions of internal/analysis/exclude.go keep out of the findings that `Analyze` reports.
use rightsizer.Prelude.{
  ◌≡◌, refl, sym, ◌∙◌, ◌⊎◌, inl, inr, Bool, false, not, Option, none, some, List, [], ◌∷◌, ◌++◌,
  map, arith, All, Among, All-append, if-both,
}
use mathlib.Core.Path.{subst}
use rightsizer.Floats.{Floats}
use rightsizer.Text.{Text}
use rightsizer.Map.{Map}
use rightsizer.Stats.Vm.{VmStats, hours}
use rightsizer.Recommend.Data.{orphan, Vm, Host, OrphanDisk, Finding}
use rightsizer.Recommend.Shape.{storage_findings, orphan_findings}
use rightsizer.Recommend.Exclusions.{Matching, Exclusion, for_vm, for_disk, covers_any}
use rightsizer.Recommend.Order.{before, sort_findings}
use rightsizer.Recommend.Ranking.{All-sort_by}
use rightsizer.Recommend.Analyze.{
  Input, Work, add_host, keep, no_samples, off_finding, add_sizes, vm_stats,
}
use rightsizer.Recommend.Analyze.Steps.{
  add_measured, add_sampled, add_powered, add_vm, add_vms, add_hosts, count_on, count_off,
  with_result, entered, vm_findings, split_orphans, orphan_step, disk_match, with_impact,
}
use rightsizer.Recommend.Analyze.Whole.{no_work, collected, unranked, analyze}

module _ (fl : Floats) (mt : Matching) (x : Input fl) where
  -- A finding of a VM whose kind no exclusion of the VM covers.
  abbrev pub OfVm : Finding fl → Type 0
  OfVm f =
      (vm : Vm) × Among vm x.vms
      × (vm.template ≡ false)
      × (f.uuid ≡ vm.uuid)
      × (covers_any (for_vm mt x.exclusions vm.uuid vm.name) f.kind ≡ false)

  -- A finding of an orphaned disk that no exclusion names.
  abbrev pub OfDisk : Finding fl → Type 0
  OfDisk f =
      (o : OrphanDisk) × Among o x.orphans
      × (f.kind ≡ orphan)
      × (f.path ≡ o.path)
      × (for_disk x.exclusions o.path ≡ none)

  abbrev pub Reported : Finding fl → Type 0
  Reported f = OfVm f ⊎ OfDisk f

  keep-OfVm :
      (vm : Vm) (fs : List (Finding fl))
      → Among vm x.vms
      → vm.template ≡ false
      → All OfVm (keep fl (for_vm mt x.exclusions vm.uuid vm.name) vm fs)
  unfolding keep
  keep-OfVm vm [] a t = tt
  keep-OfVm vm (f ∷ fs) a t =
      let xs = for_vm mt x.exclusions vm.uuid vm.name in
      if-both (All OfVm) (not (covers_any xs f.kind))
        (λ e. ((vm, a, t, refl, ground (arith, e)), keep-OfVm vm fs a t)) (λ e. keep-OfVm vm fs a t)

  abbrev IsKept : Work fl → Type 0
  IsKept w = All OfVm w.findings

  -- Findings that `keep` passes on are added.
  add-IsKept :
      (vm : Vm) (before more : List (Finding fl))
      → Among vm x.vms
      → vm.template ≡ false
      → All OfVm before
      → All OfVm (before ++ keep fl (for_vm mt x.exclusions vm.uuid vm.name) vm more)
  add-IsKept vm before more a t h = All-append OfVm before _ h (keep-OfVm vm more a t)

  module _ (vm : Vm) (a : Among vm x.vms) (t : vm.template ≡ false) where
    abbrev xs : List Exclusion
    xs = for_vm mt x.exclusions vm.uuid vm.name

    add_measured-IsKept :
        (s : VmStats fl) (p : Bool) (w : Work fl)
        → IsKept w
        → IsKept (add_measured fl mt x xs vm s p w)
    unfolding add_measured with_result vm_findings add_sizes
    add_measured-IsKept s p w h = add-IsKept vm w.findings _ a t h

    add_sampled-IsKept :
        (s : Option (VmStats fl)) (p : Bool) (w : Work fl)
        → IsKept w
        → IsKept (add_sampled fl mt x xs vm s p w)
    unfolding add_sizes
    add_sampled-IsKept none p w h = h
    add_sampled-IsKept (some s) p w h =
        if-both IsKept (fl.lt (hours fl s) (fl.of_int 1)) (λ e. h)
          (λ e. add_measured-IsKept s p w h)

    add_powered-IsKept :
        (s : Option (VmStats fl)) (p : Bool) (w : Work fl)
        → IsKept w
        → IsKept (add_powered fl mt x xs vm s p w)
    unfolding add_powered
    add_powered-IsKept s p w h =
        let on : Work fl = record w { totals = count_on w.totals } in
        let off : Work fl = record w { totals = count_off w.totals } in
        if-both IsKept vm.power_on (λ e. add_sampled-IsKept s p on h)
          (λ e.
            if-both IsKept (no_samples fl s)
              (λ k. add-IsKept vm w.findings (off_finding fl x vm ∷ []) a t h)
              (λ k. add_sampled-IsKept s p off h))

    entered-IsKept : (w : Work fl) → IsKept w → IsKept (entered fl mt x xs vm w)
    unfolding entered
    entered-IsKept w h = add-IsKept vm w.findings (storage_findings fl vm x.end) a t h

  add_vm-IsKept : (vm : Vm) (w : Work fl) → Among vm x.vms → IsKept w → IsKept (add_vm fl mt x vm w)
  unfolding add_vm
  add_vm-IsKept vm w a h =
      if-both IsKept vm.template (λ e. h)
        (λ e.
          let s = vm_stats fl x vm.ref in
          let w' = entered fl mt x (for_vm mt x.exclusions vm.uuid vm.name) vm w in
          add_powered-IsKept vm a e (s.0) (s.1) w' (entered-IsKept vm a e w h))

  add_vms-IsKept :
      (vms : List Vm) (w : Work fl)
      → ((vm : Vm) → Among vm vms → Among vm x.vms)
      → IsKept w
      → IsKept (add_vms fl mt x vms w)
  unfolding add_vms
  add_vms-IsKept [] w within h = h
  add_vms-IsKept (vm ∷ vms) w within h =
      add_vms-IsKept vms (add_vm fl mt x vm w) (λ v b. within v (inr b))
        (add_vm-IsKept vm w (within vm (inl refl)) h)

  add_hosts-findings :
      (hs : List Host) (w : Work fl) → (add_hosts fl mt x hs w).findings ≡ w.findings
  unfolding add_hosts add_host
  add_hosts-findings [] w = refl
  add_hosts-findings (h ∷ hs) w =
      add_hosts-findings hs (add_host fl h w)
      ∙ if-both (λ (v : Work fl). v.findings ≡ w.findings) (not h.connected) (λ e. refl) (λ e. refl)

  orphan_step-OfDisk :
      (o : OrphanDisk) (e : Option Exclusion) (r : List OrphanDisk × Map (List Text))
      → Among o x.orphans
      → for_disk x.exclusions o.path ≡ e
      → All OfDisk (orphan_findings fl (r.0))
      → All OfDisk (orphan_findings fl ((orphan_step o e r).0))
  unfolding orphan_findings
  orphan_step-OfDisk o none (os, m) a e h = ((o, a, refl, refl, e), h)
  orphan_step-OfDisk o (some y) (os, m) a e h = h

  split_orphans-OfDisk :
      (os : List OrphanDisk) (m : Map (List Text))
      → ((o : OrphanDisk) → Among o os → Among o x.orphans)
      → All OfDisk (orphan_findings fl ((split_orphans fl mt x os m).0))
  unfolding orphan_findings split_orphans
  split_orphans-OfDisk [] m within = tt
  split_orphans-OfDisk (o ∷ os) m within =
      let e = for_disk x.exclusions o.path in
      let m' = disk_match o e m in
      orphan_step-OfDisk o e (split_orphans fl mt x os m') (within o (inl refl)) refl
        (split_orphans-OfDisk os m' (λ p b. within p (inr b)))

  All-inl : (fs : List (Finding fl)) → All OfVm fs → All Reported fs
  All-inl [] h = tt
  All-inl (f ∷ fs) (h, hs) = (inl h, All-inl fs hs)

  All-inr : (fs : List (Finding fl)) → All OfDisk fs → All Reported fs
  All-inr [] h = tt
  All-inr (f ∷ fs) (h, hs) = (inr h, All-inr fs hs)

  All-with_impact :
      (fs : List (Finding fl)) → All Reported fs → All Reported (map (with_impact fl) fs)
  All-with_impact [] h = tt
  All-with_impact (f ∷ fs) (inl h, hs) = (inl h, All-with_impact fs hs)
  All-with_impact (f ∷ fs) (inr h, hs) = (inr h, All-with_impact fs hs)

  collected-IsKept : IsKept (collected fl mt x)
  unfolding collected
  collected-IsKept =
      let hosts = add_hosts fl mt x x.hosts (no_work fl) in
      add_vms-IsKept x.vms hosts (λ v b. b)
        (subst (All OfVm) (sym (add_hosts-findings x.hosts (no_work fl))) tt)

  -- Every finding that `Analyze` reports is of a VM of the inventory that is no template, and no
  -- exclusion of that VM covers its kind; or it is of an orphaned disk, and no exclusion names the disk.
  pub analyze-Reported : All Reported ((analyze fl mt x).findings)
  unfolding analyze unranked sort_findings
  analyze-Reported =
      let w = collected fl mt x in
      let orphans = (split_orphans fl mt x x.orphans w.matched).0 in
      All-sort_by (before fl) Reported _ (
        All-with_impact (w.findings ++ orphan_findings fl orphans) (
          All-append Reported w.findings _ (All-inl w.findings collected-IsKept) (
            All-inr (orphan_findings fl orphans)
              (split_orphans-OfDisk x.orphans w.matched (λ o b. b)))))
