-- ===== src/Sizing/Options.antt =====
-- What the options of `nodeOptions` of internal/analysis/sizing_nodes.go have in common.
use rightsizer.Prelude.{
  ℕ, zero, suc, ◌+◌, ◌-◌, ◌*◌, ◌≤◌, ◌<◌, ◌≡◌, refl, sym, ap, ◌∙◌, inl, inr, true, false, Option,
  none, some, List, [], ◌∷◌, arith, ltb, ◌==◌, ◌&&◌, max, Bool-cases, Option-cases, All,
}
use native.Mathlib.Nat.{lt-div-mul-add, mul-le-mul_right}
use rightsizer.Floats.{Floats}
use rightsizer.Sizing.{
  node_mem_gb, socket_cores, ceil_div, NodeOption, Cluster, Params, Need, spares, min_nodes, per_gb,
  first_fit, search, first_count, option, add_found, with_cores, options_of, node_options, is_zero,
}

ceil_div_covers : (a b : ℕ) → 0 < b → a ≤ ceil_div a b * b
unfolding ceil_div
ceil_div_covers a b h = elim (Bool-cases (b == 0)) [
  | inl e ↦ absurd (ground (arith, h, e))
  | inr e ↦ rw e (omega (arith, h, lt-div-mul-add {a = a + b - 1} h))
]

positive : (s : ℕ) → 0 < s → All (λ k. 0 < s * k) socket_cores
positive s h = (
  omega (arith, h),
  (
    omega (arith, h),
    (
      omega (arith, h),
      (omega (arith, h), (omega (arith, h), (omega (arith, h), (omega (arith, h), tt)))),
    ),
  ),
)

same : (i n : ℕ) → n == i ≡ true → i ≡ n
same i n h = ground arith

later : (n i : ℕ) → n ≤ i → n == i ≡ false → suc n ≤ i
later n i l h = ground arith

module _ (fl : Floats) where
  first_fit_enough :
      (gb : fl.F) (ms : List ℕ) (m : ℕ)
      → first_fit fl gb ms ≡ some m
      → fl.le gb (fl.of_int m) ≡ true
  unfolding first_fit
  first_fit_enough gb [] m h = cc
  first_fit_enough gb (x ∷ ms) m h = ground (arith, first_fit_enough gb ms m)

  search_misses :
      (c : Cluster fl) (n : Need fl) (spare k nodes : ℕ)
      → first_fit fl (per_gb fl c n (nodes - spare)) node_mem_gb ≡ none
      → search fl c n spare k (suc nodes) ≡ search fl c n spare (suc k) nodes
  unfolding search
  search_misses c n spare k nodes e = ground (arith, e)

  search_hit :
      (c : Cluster fl) (n : Need fl) (spare k nodes found mem m : ℕ)
      → first_fit fl (per_gb fl c n (nodes - spare)) node_mem_gb ≡ some m
      → search fl c n spare (suc k) nodes ≡ some (found, mem)
      → (nodes ≡ found) × (m ≡ mem)
  unfolding search
  search_hit c n spare k nodes found mem m e h = (ground (arith, e, h), ground (arith, e, h))

  search_finds :
      (c : Cluster fl) (n : Need fl) (spare k nodes found mem : ℕ)
      → search fl c n spare k nodes ≡ some (found, mem)
      → (nodes ≤ found)
        × (found < nodes + k)
        × (first_fit fl (per_gb fl c n (found - spare)) node_mem_gb ≡ some mem)
        × ((i : ℕ)
            → nodes ≤ i
            → i < found
            → first_fit fl (per_gb fl c n (i - spare)) node_mem_gb ≡ none)
  unfolding search
  search_finds c n spare zero nodes found mem h = cc
  search_finds c n spare (suc k) nodes found mem h =
      elim (Option-cases (first_fit fl (per_gb fl c n (nodes - spare)) node_mem_gb)) [
        | inl e ↦
            let (lo, hi, fit, first) =
              search_finds c n spare k (suc nodes) found mem
                (search_misses c n spare k nodes e ∙ h) in
            (
              omega (arith, lo),
              omega (arith, hi),
              fit,
              λ i l u. elim (Bool-cases (nodes == i)) [
                | inl q ↦
                    ap (λ j. first_fit fl (per_gb fl c n (j - spare)) node_mem_gb) (same i nodes q)
                    ∙ e
                | inr q ↦ first i (later nodes i l q) u
              ],
            )
        | inr (m, e) ↦
            let (q, w) = search_hit c n spare k nodes found mem m e h in
            (
              omega (arith, q),
              omega (arith, q),
              ap (λ j. first_fit fl (per_gb fl c n (j - spare)) node_mem_gb) (sym q)
                  ∙ e
                  ∙ ap some w,
              λ i l u. absurd (omega (arith, l, u, q)),
            )
      ]

  -- A size that carries the need with the spares out, and the smallest number of such nodes.
  abbrev pub IsFit : Cluster fl → Need fl → Params fl → NodeOption fl → Type 0
  IsFit c n p o =
      (c.largest_vcpu ≤ p.sockets * o.cores_per_socket)
      × (min_nodes fl c p ≤ o.nodes)
      × (o.nodes ≤ 64)
      × (n.cores ≤ (o.nodes - spares fl c p) * (p.sockets * o.cores_per_socket))
      × (fl.le (per_gb fl c n (o.nodes - spares fl c p)) (fl.of_int o.mem_gb) ≡ true)
      × (o.total_cores ≡ o.nodes * (p.sockets * o.cores_per_socket))
      × ((i : ℕ)
          → first_count fl c n p (p.sockets * o.cores_per_socket) ≤ i
          → i < o.nodes
          → first_fit fl (per_gb fl c n (i - spares fl c p)) node_mem_gb ≡ none)

  covers :
      (cores per spare nodes least : ℕ)
      → 0 < per
      → max (ceil_div cores per + spare) least ≤ nodes
      → cores ≤ (nodes - spare) * per
  covers cores per spare nodes least h l =
      let q : ceil_div cores per ≤ nodes - spare = omega (arith, l) in
      omega (arith, ceil_div_covers cores per h, mul-le-mul_right per q)

  option-IsFit :
      (c : Cluster fl) (n : Need fl) (p : Params fl) (cps nodes mem : ℕ)
      → 0 < p.sockets * cps
      → c.largest_vcpu ≤ p.sockets * cps
      → let count = first_count fl c n p (p.sockets * cps) in
        search fl c n (spares fl c p) (65 - count) count ≡ some (nodes, mem)
        → IsFit c n p (option fl c n p cps nodes mem)
  unfolding option
  option-IsFit c n p cps nodes mem pos l h =
      let count = first_count fl c n p (p.sockets * cps) in
      let (lo, hi, fit, first) = search_finds c n (spares fl c p) (65 - count) count nodes mem h in
      (
        l,
        omega (arith, lo),
        omega (arith, hi, lo),
        covers n.cores (p.sockets * cps) (spares fl c p) nodes (min_nodes fl c p) pos lo,
        first_fit_enough (per_gb fl c n (nodes - spares fl c p)) node_mem_gb mem fit,
        refl,
        first,
      )

  add_found-IsFit :
      (c : Cluster fl) (n : Need fl) (p : Params fl) (cps : ℕ) (out : List (NodeOption fl))
      → 0 < p.sockets * cps
      → c.largest_vcpu ≤ p.sockets * cps
      → All (IsFit c n p) out
      → (r : Option (ℕ × ℕ))
      → (let count = first_count fl c n p (p.sockets * cps) in
          search fl c n (spares fl c p) (65 - count) count)
        ≡ r
      → All (IsFit c n p) (add_found fl c n p cps r out)
  add_found-IsFit c n p cps out pos l all none h = all
  add_found-IsFit c n p cps out pos l all (some (nodes, mem)) h =
      (option-IsFit c n p cps nodes mem pos l h, all)

  with_cores-IsFit :
      (c : Cluster fl) (n : Need fl) (p : Params fl) (cps : ℕ) (out : List (NodeOption fl))
      → 0 < p.sockets * cps
      → All (IsFit c n p) out
      → All (IsFit c n p) (with_cores fl c n p cps out)
  unfolding with_cores
  with_cores-IsFit c n p cps out pos all =
      elim (Bool-cases (ltb (p.sockets * cps) c.largest_vcpu)) [
        | inl small ↦ rw small all
        | inr big ↦ rw big (add_found-IsFit c n p cps out pos (ground (arith, big)) all _ refl)
      ]

  options_of-IsFit :
      (c : Cluster fl) (n : Need fl) (p : Params fl) (ks : List ℕ)
      → All (λ k. 0 < p.sockets * k) ks
      → All (IsFit c n p) (options_of fl c n p ks)
  unfolding options_of
  options_of-IsFit c n p [] h = tt
  options_of-IsFit c n p (k ∷ ks) (h, hs) =
      with_cores-IsFit c n p k (options_of fl c n p ks) h (options_of-IsFit c n p ks hs)

  -- Every option, for at least one socket: its cores carry the largest machine; it has between the
  -- least number of nodes and 64; the nodes left without the spares have the cores that are needed,
  -- and enough memory; and with fewer nodes, down to the first number that has the cores, no size of
  -- memory would be enough.
  pub node_options-IsFit :
      (c : Cluster fl) (n : Need fl) (p : Params fl)
      → 0 < p.sockets
      → All (IsFit c n p) (node_options fl c n p)
  unfolding node_options
  node_options-IsFit c n p h = elim (Bool-cases (n.cores == 0 && is_zero fl n.mem_b)) [
    | inl e ↦ rw e tt
    | inr e ↦ rw e (options_of-IsFit c n p socket_cores (positive p.sockets h))
  ]
