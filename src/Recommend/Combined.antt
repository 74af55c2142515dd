-- ===== src/Recommend/Combined.antt =====
-- The combined report of several vCenters (internal/analysis/merge.go) against the reports that it joins.
use mathlib.Core.Path.{subst}
use mathlib.Core.List.{Perm, append-nil, append_assoc}
use rightsizer.Prelude.{
  ℕ, ◌+◌, ◌≡◌, refl, sym, ap, ◌∙◌, false, List, [], ◌∷◌, ◌++◌, map, arith, length, length-append,
}
use rightsizer.Floats.{Floats}
use rightsizer.Text.{Text}
use rightsizer.Recommend.Cluster.{Cluster}
use rightsizer.Recommend.Analyze.Steps.{Result}
use rightsizer.Recommend.Merge.{
  add_totals, finding_of, vm_of, cluster_of, merge_one, merge_all, no_result, merge,
}
use rightsizer.Recommend.Data.{Finding}
use rightsizer.Recommend.Order.{before, sort_findings}
use rightsizer.Recommend.Ranking.{sort_by-perm}
use rightsizer.Recommend.Sums.{sum_of, sum_of-append}
use rightsizer.Recommend.Outcome.{IsBalanced, over}

length-map : {A B : Type 0} (f : A → B) (xs : List A) → length (map f xs) ≡ length xs
length-map f [] = refl
length-map f (x ∷ xs) = omega (arith, length-map f xs)

module _ (fl : Floats) where
  -- A new name of the clusters does not change a sum over them.
  sum_of-cluster_of :
      (f : Cluster fl → ℕ) (src : Text) (cs : List (Cluster fl))
      → ((c : Cluster fl) → f (cluster_of fl src c) ≡ f c)
      → sum_of f (map (cluster_of fl src) cs) ≡ sum_of f cs
  sum_of-cluster_of f src [] h = refl
  sum_of-cluster_of f src (c ∷ cs) h = omega (arith, h c, sum_of-cluster_of f src cs h)

  over-merge_one :
      (f : Cluster fl → ℕ) (src : Text) (r out : Result fl)
      → ((c : Cluster fl) → f (cluster_of fl src c) ≡ f c)
      → over fl f (merge_one fl (src, r) out) ≡ over fl f out + over fl f r
  unfolding merge_one
  over-merge_one f src r out h =
      sum_of-append f out.clusters (map (cluster_of fl src) r.clusters)
      ∙ ap (λ n. sum_of f out.clusters + n) (sum_of-cluster_of f src r.clusters h)

  merge_one-IsBalanced :
      (src : Text) (r out : Result fl)
      → IsBalanced fl r
      → IsBalanced fl out
      → IsBalanced fl (merge_one fl (src, r) out)
  unfolding merge_one add_totals
  merge_one-IsBalanced src r out (a, b, c, d, e, f, g, h, i, j, k)
        (a', b', c', d', e', f', g', h', i', j', k') =
      (
        omega (arith, a, a'),
        omega (
          arith,
          b,
          b',
          length-append out.vms (map (vm_of fl src) r.vms),
          length-map (vm_of fl src) r.vms,
        ),
        omega (arith, c, c'),
        omega (arith, d, d', over-merge_one (λ z. z.vcpu) src r out (λ z. refl)),
        omega (arith, e, e', over-merge_one (λ z. z.rec_vcpu) src r out (λ z. refl)),
        omega (arith, f, f', over-merge_one (λ z. z.mem_mb) src r out (λ z. refl)),
        omega (arith, g, g', over-merge_one (λ z. z.rec_mem_mb) src r out (λ z. refl)),
        omega (arith, h, h', over-merge_one (λ z. z.hosts) src r out (λ z. refl)),
        omega (arith, i, i', over-merge_one (λ z. z.hosts_needed) src r out (λ z. refl)),
        omega (arith, j, j', over-merge_one (λ z. z.cores) src r out (λ z. refl)),
        omega (arith, k, k', over-merge_one (λ z. z.need_cores) src r out (λ z. refl)),
      )

  abbrev pub AllBalanced : List (Text × Result fl) → Type 0
  AllBalanced [] = Unit
  AllBalanced ((src, r) ∷ rs) = IsBalanced fl r × AllBalanced rs

  merge_all-IsBalanced :
      (rs : List (Text × Result fl)) (out : Result fl)
      → AllBalanced rs
      → IsBalanced fl out
      → IsBalanced fl (merge_all fl rs out)
  unfolding merge_all
  merge_all-IsBalanced [] out h b = b
  merge_all-IsBalanced ((src, r) ∷ rs) out (h, hs) b =
      merge_all-IsBalanced rs (merge_one fl (src, r) out) hs (merge_one-IsBalanced src r out h b)

  no_result-IsBalanced : IsBalanced fl (no_result fl)
  no_result-IsBalanced = (refl, refl, omega arith, refl, refl, refl, refl, refl, refl, refl, refl)

  -- The totals of a combined report are the sums over its clusters and count its VMs, if those of the
  -- reports that it joins do.
  pub merge-IsBalanced :
      (rs : List (Text × Result fl)) → AllBalanced rs → IsBalanced fl (merge fl rs)
  unfolding merge sort_findings
  merge-IsBalanced [] h = no_result-IsBalanced
  merge-IsBalanced ((src, r) ∷ []) (h, hs) = h
  merge-IsBalanced (r ∷ s ∷ rs) h =
      merge_all-IsBalanced (r ∷ s ∷ rs) (no_result fl) h no_result-IsBalanced

  -- The findings of all results, each with the name of its vCenter.
  abbrev pub all_findings : List (Text × Result fl) → List (Finding fl)
  all_findings [] = []
  all_findings ((src, r) ∷ rs) = map (finding_of fl src) r.findings ++ all_findings rs

  merge_all-findings :
      (rs : List (Text × Result fl)) (out : Result fl)
      → let m = merge_all fl rs out in
        (m.findings ≡ out.findings ++ all_findings rs)
        × (m.excluded ≡ out.excluded)
        × (m.orphans ≡ out.orphans)
        × (m.preview ≡ out.preview)
  unfolding merge_all merge_one
  merge_all-findings [] out = (sym (append-nil out.findings), refl, refl, refl)
  merge_all-findings ((src, r) ∷ rs) out =
      let (f, e, o, p) = merge_all-findings rs (merge_one fl (src, r) out) in
      (f ∙ append_assoc out.findings _ _, e, o, p)

  -- A combined report of two vCenters or more has the findings of all of them, each as often. It has
  -- none of their excluded VMs and orphaned disks, and is never marked as a preview.
  pub merge-findings :
      (r s : Text × Result fl) (rs : List (Text × Result fl))
      → let m = merge fl (r ∷ s ∷ rs) in
        Perm m.findings (all_findings (r ∷ s ∷ rs))
        × (m.excluded ≡ [])
        × (m.orphans ≡ [])
        × (m.preview ≡ false)
  unfolding merge sort_findings
  merge-findings r s rs =
      let (f, e, o, p) = merge_all-findings (r ∷ s ∷ rs) (no_result fl) in
      let all = sort_by-perm (before fl) ((merge_all fl (r ∷ s ∷ rs) (no_result fl)).findings) in
      (subst (Perm _) f all, e, o, p)
