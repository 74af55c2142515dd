-- ===== src/Recommend/Hosts.antt =====
-- How many hosts `sizeCluster` asks for, and which CPU model `topModel` names
-- (internal/analysis/recommend.go).
use mathlib.Core.Path.{subst}
use rightsizer.Prelude.{
  sym, ap, ℕ, ◌-◌, ◌≤◌, ◌<◌, ◌≡◌, ◌≢◌, refl, ◌⊎◌, inl, inr, true, false, ◌&&◌, ◌||◌, Option, none,
  some, [], ◌∷◌, arith, ltb, ◌==◌, All, Among, Bool-cases, if-both,
}
use rightsizer.Floats.{Floats}
use rightsizer.Text.{Text, codes}
use rightsizer.Text.Strings.{starts_with}
use rightsizer.Map.{Map}
use rightsizer.Stats.Vm.{ClusterStats}
use rightsizer.Recommend.Data.{Profile}
use rightsizer.Recommend.Cluster.{
  text_lt, lacks_prefix, top_from, top_model, Cluster, measured, in_hosts, with_needs, size_cluster,
}
use rightsizer.Recommend.Ranking.{text_lt_asym, text_le_trans}

-- `(k, v)` is no worse than an entry: its count is larger, or equal with a name that is not later.
abbrev pub Beats : Text × ℕ → Text × ℕ → Type 0
Beats (k, v) (j, u) = (u < v) ⊎ ((u ≡ v) × (text_lt j k ≡ false))

Beats-trans : (a b c : Text × ℕ) → Beats a b → Beats b c → Beats a c
Beats-trans (i, u) (j, v) (k, w) h g = ground (arith, h, g, text_le_trans i j k)

text_lt_irrefl : (s : Text) → text_lt s s ≡ false
unfolding text_lt
text_lt_irrefl [] = refl
text_lt_irrefl (c ∷ s) = ground (arith, text_lt_irrefl s)

top_from-Beats :
    (best : Text) (n : ℕ) (m : Map ℕ)
    → let e = top_from best n m in
      Beats e (best, n) × All (Beats e) m × ((e ≡ (best, n)) ⊎ Among e m)
unfolding top_from
top_from-Beats best n [] = (inr (refl, text_lt_irrefl best), tt, inl refl)
top_from-Beats best n ((k, v) ∷ m) =
    let IsTop : Text × ℕ → Type 0 = λ e.
      Beats e (best, n) × All (Beats e) ((k, v) ∷ m) × ((e ≡ (best, n)) ⊎ Among e ((k, v) ∷ m)) in
    if-both IsTop (ltb n v || (v == n && text_lt k best))
      (λ e.
        let (b, all, a) = top_from-Beats k v m in
        let first =
          Beats-trans (top_from k v m) (k, v) (best, n) b
            (ground (arith, e, text_lt_asym k best)) in
        (first, (b, all), inr a))
      (λ e.
        let (b, all, a) = top_from-Beats best n m in
        let first = Beats-trans (top_from best n m) (best, n) (k, v) b (ground (arith, e)) in
        (b, (first, all), elim a [ inl q ↦ inl q | inr q ↦ inr (inr q) ]))

text_eq_of_le : (s t : Text) → text_lt s t ≡ false → text_lt t s ≡ false → s ≡ t
unfolding text_lt
text_eq_of_le [] [] h k = refl
text_eq_of_le [] (d ∷ t) h k = cc
text_eq_of_le (c ∷ s) [] h k = cc
text_eq_of_le (c ∷ s) (d ∷ t) h k = ground (arith, text_eq_of_le s t)

All-Among : (P : Text × ℕ → Type 0) (e : Text × ℕ) (m : Map ℕ) → Among e m → All P m → P e
All-Among P e [] a h = absurd a
All-Among P e (f ∷ m) (inl q) (h, hs) = subst P (sym q) h
All-Among P e (f ∷ m) (inr a) (h, hs) = All-Among P e m a hs

Beats-antisym : (j k : Text) (u v : ℕ) → Beats (j, u) (k, v) → Beats (k, v) (j, u) → j ≡ k
Beats-antisym j k u v h g = ground (arith, h, g, text_eq_of_le j k)

-- The model that `topModel` names for a cluster with hosts is counted most often, and its name is the
-- first of those that are. Only one model is like that, so the order in which Go visits the map does
-- not matter.
pub top_model-Beats :
    (e : Text × ℕ) (m : Map ℕ)
    → All (λ f. 1 ≤ f.1) (e ∷ m)
    → (v : ℕ) × Among (top_model (e ∷ m), v) (e ∷ m)
      × All (Beats (top_model (e ∷ m), v)) (e ∷ m)
      × ((j : Text) (u : ℕ)
          → Among (j, u) (e ∷ m)
          → All (Beats (j, u)) (e ∷ m)
          → j ≡ top_model (e ∷ m))
unfolding top_model
top_model-Beats e m h =
    let top = top_from [] 0 (e ∷ m) in
    let (b, all, a) = top_from-Beats [] 0 (e ∷ m) in
    let there : Among top (e ∷ m) = elim a [
      | inl q ↦ absurd (ground (arith, ap (λ (z : Text × ℕ). z.1) q, all, h))
      | inr q ↦ q
    ] in
    (
      top.1,
      there,
      all,
      λ j u among best.
          Beats-antisym j (top.0) u (top.1) (All-Among (Beats (j, u)) top (e ∷ m) there best)
            (All-Among (Beats top) (j, u) (e ∷ m) among all),
    )

module _ (fl : Floats) where
  -- A number of hosts that is not smaller than the load on the CPU, the load on the memory, and one.
  abbrev pub Carries : ℕ → Cluster fl → Type 0
  Carries n c =
      (fl.ceil (in_hosts fl c.need_mhz c.cap_mhz c) ≤ n)
      × (fl.ceil (in_hosts fl c.need_mem_b c.cap_mem_b c) ≤ n)
      × (1 ≤ n)

  -- With the spare hosts out, the hosts needed are the smallest number that carries the load. A cluster
  -- has one spare, and so at least two hosts, a host outside of clusters none.
  abbrev pub IsFit : Cluster fl → Type 0
  IsFit r =
      let n = r.hosts_needed - r.ha_spare in
      Carries n r
      × ((k : ℕ) → Carries k r → n ≤ k)
      × (lacks_prefix (starts_with (codes "standalone/") r.name) ≡ true
          → (r.ha_spare ≡ 1) × (2 ≤ r.hosts_needed))
      × (lacks_prefix (starts_with (codes "standalone/") r.name) ≡ false → r.ha_spare ≡ 0)

  with_needs-IsFit : (p : Profile fl) (c : Cluster fl) → c.ha_spare ≡ 0 → IsFit (with_needs fl p c)
  with_needs-IsFit p c z =
      let spare = lacks_prefix (starts_with (codes "standalone/") c.name) in
      elim (Bool-cases spare) [ inl e ↦ rw e (ground arith) | inr e ↦ rw e (ground (arith, z)) ]

  -- `sizeCluster` of a cluster with hosts: with the spare hosts out, the hosts needed are the smallest
  -- number, and at least one, that is not below the load on the CPU and on the memory, each in hosts and
  -- rounded up. A cluster has one spare, and so at least two hosts; what stands for a host outside of
  -- clusters has none.
  pub size_cluster-IsFit :
      (o : Option (ClusterStats fl)) (p : Profile fl) (c : Cluster fl)
      → c.hosts ≢ 0
      → c.ha_spare ≡ 0
      → IsFit (size_cluster fl o p c)
  unfolding size_cluster
  size_cluster-IsFit none p c h z =
      if-both IsFit (c.hosts == 0) (λ e. absurd (h (ground (arith, e))))
        (λ e. with_needs-IsFit p c z)
  size_cluster-IsFit (some cs) p c h z =
      if-both IsFit (c.hosts == 0) (λ e. absurd (h (ground (arith, e))))
        (λ e. with_needs-IsFit p (measured fl p (some cs) c) z)
