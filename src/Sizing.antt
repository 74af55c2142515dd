-- ===== src/Sizing.antt =====
-- internal/analysis/sizing_nodes.go and sizing.go: which new nodes a cluster can have, and the choice.
--
-- Counts are natural numbers: they come from inventories and from parameters that `Validate` accepts.
-- float64 is the type `F` of `Floats`, with the operations that the code uses.
pub mod Options
pub mod Choice
mod Tests
use rightsizer.Prelude.{
  ℕ, zero, suc, ◌+◌, ◌-◌, ◌*◌, ◌/◌, ◌^◌, ◌≤◌, ◌≡◌, Bool, true, false, Option, none, some, List, [],
  ◌∷◌, if◌then◌else◌, ltb, leb, ◌==◌, ◌&&◌, not, max, min,
}
use rightsizer.Floats.{Floats}

abbrev pub socket_cores : List ℕ
socket_cores = 16 ∷ 24 ∷ 32 ∷ 48 ∷ 64 ∷ 96 ∷ 128 ∷ []

abbrev pub node_mem_gb : List ℕ
node_mem_gb = 256 ∷ 384 ∷ 512 ∷ 768 ∷ 1024 ∷ 1536 ∷ 2048 ∷ 3072 ∷ 4096 ∷ []

unfoldable pub ceil_div : ℕ → ℕ → ℕ
ceil_div a b = if b == 0 then 0 else (a + b - 1) / b

module _ (fl : Floats) where
  pub record NodeOption : Type 0 where
    pub nodes : ℕ
    pub sockets : ℕ
    pub cores_per_socket : ℕ
    pub mem_gb : ℕ
    pub total_cores : ℕ
    pub cpu_util : fl.F
    pub mem_util : fl.F
    pub ratio : fl.F
    pub min_ghz : fl.F
    pub numa_fit : Bool

  -- Of ClusterSizing, what the options depend on.
  pub record Cluster : Type 0 where
    pub standalone : Bool
    pub vsan : Bool
    -- LargestCPU.VCPU and LargestMem.MemMB
    pub largest_vcpu : ℕ
    pub largest_mem_mb : ℕ
    pub core_mhz : fl.F

  pub record Params : Type 0 where
    pub spares : ℕ
    pub sockets : ℕ
    pub uplift : fl.F
    pub cpu_target : fl.F

  pub record Need : Type 0 where
    pub vcpu : ℕ
    pub mem_mb : ℕ
    pub demand_mhz : fl.F
    pub cores : ℕ
    pub mem_b : fl.F

  abbrev pub mem_overhead : fl.F
  mem_overhead = fl.div (fl.of_int 105) (fl.of_int 100)

  unfoldable pub spares : Cluster → Params → ℕ
  spares c p = if c.standalone then 0 else p.spares

  unfoldable pub min_nodes : Cluster → Params → ℕ
  unfolding spares
  min_nodes c p =
      let least = if c.standalone then 1 else max 2 (spares c p + 1) in
      if c.vsan then max least 3 else least

  -- The memory that each of `run` nodes needs, in GiB.
  unfoldable pub per_gb : Cluster → Need → ℕ → fl.F
  per_gb c n run =
      fl.larger (fl.div (fl.div n.mem_b (fl.of_int run)) (fl.of_int (2 ^ 30)))
        (fl.mul (fl.div (fl.of_int c.largest_mem_mb) (fl.of_int 1024)) mem_overhead)

  unfoldable pub first_fit : fl.F → List ℕ → Option ℕ
  first_fit gb [] = none
  first_fit gb (m ∷ ms) =
      let rest = first_fit gb ms in if fl.le gb (fl.of_int m) then some m else rest

  -- The loop over the number of nodes, at most `k` more of them.
  unfoldable pub search : Cluster → Need → ℕ → ℕ → ℕ → Option (ℕ × ℕ)
  search c n spare zero nodes = none
  search c n spare (suc k) nodes =
      let rest = search c n spare k (suc nodes) in
      elim (first_fit (per_gb c n (nodes - spare)) node_mem_gb) [
        | none ↦ rest
        | some m ↦ some (nodes, m)
      ]

  abbrev pub first_count : Cluster → Need → Params → ℕ → ℕ
  first_count c n p per_node = max (ceil_div n.cores per_node + spares c p) (min_nodes c p)

  abbrev faster : Params → fl.F
  faster p = fl.add (fl.of_int 1) (fl.div p.uplift (fl.of_int 100))

  unfoldable pub option : Cluster → Need → Params → ℕ → ℕ → ℕ → NodeOption
  option c n p cps nodes mem =
      let per_node = p.sockets * cps in
      let run = nodes - spares c p in
      let cap_mhz = fl.mul (fl.mul (fl.of_int (run * per_node)) c.core_mhz) (faster p) in
      record {
        nodes = nodes;
        sockets = p.sockets;
        cores_per_socket = cps;
        mem_gb = mem;
        total_cores = nodes * per_node;
        cpu_util =
            if fl.lt (fl.of_int 0) cap_mhz
            then fl.mul (fl.div n.demand_mhz cap_mhz) (fl.of_int 100)
            else fl.of_int 0;
        mem_util =
            fl.mul
              (fl.div (fl.mul (fl.mul (fl.of_int n.mem_mb) (fl.of_int (2 ^ 20))) mem_overhead)
                (fl.mul (fl.of_int (run * mem)) (fl.of_int (2 ^ 30))))
              (fl.of_int 100);
        ratio = fl.div (fl.of_int n.vcpu) (fl.of_int (nodes * per_node));
        min_ghz =
            if fl.lt (fl.of_int 0) n.demand_mhz
            then fl.div
                (fl.div n.demand_mhz (
                  fl.mul (fl.mul (fl.div p.cpu_target (fl.of_int 100)) (fl.of_int (run * per_node)))
                    (faster p)))
                (fl.of_int 1000)
            else fl.of_int 0;
        numa_fit = leb c.largest_vcpu cps && leb c.largest_mem_mb (mem * 1024 / p.sockets);
      }

  abbrev pub add_found :
      Cluster → Need → Params → ℕ → Option (ℕ × ℕ) → List NodeOption → List NodeOption
  add_found c n p cps none out = out
  add_found c n p cps (some (nodes, mem)) out = option c n p cps nodes mem ∷ out

  -- The body of the loop over `socketCores`
  unfoldable pub with_cores : Cluster → Need → Params → ℕ → List NodeOption → List NodeOption
  with_cores c n p cps out =
      let per_node = p.sockets * cps in
      let count = first_count c n p per_node in
      let found = search c n (spares c p) (65 - count) count in
      if ltb per_node c.largest_vcpu then out else add_found c n p cps found out

  unfoldable pub options_of : Cluster → Need → Params → List ℕ → List NodeOption
  options_of c n p [] = []
  options_of c n p (cps ∷ ks) = with_cores c n p cps (options_of c n p ks)

  abbrev pub is_zero : fl.F → Bool
  is_zero x = fl.le x (fl.of_int 0) && fl.le (fl.of_int 0) x

  unfoldable pub node_options : Cluster → Need → Params → List NodeOption
  node_options c n p = if n.cores == 0 && is_zero n.mem_b then [] else options_of c n p socket_cores

  unfoldable pub better : NodeOption → NodeOption → Bool
  better a b =
      if a.numa_fit
      then (if b.numa_fit
          then (if a.nodes == b.nodes then ltb a.total_cores b.total_cores else ltb a.nodes b.nodes)
          else true)
      else if b.numa_fit
      then false
      else if a.nodes == b.nodes
      then ltb a.total_cores b.total_cores
      else ltb a.nodes b.nodes

  unfoldable pub least_cores : ℕ → List NodeOption → ℕ
  least_cores least [] = least
  least_cores least (o ∷ os) = least_cores (min least o.total_cores) os

  abbrev pub too_many_cores : ℕ → NodeOption → Bool
  too_many_cores least o =
      fl.lt (fl.mul (fl.of_int least) (fl.div (fl.of_int 11) (fl.of_int 10)))
        (fl.of_int o.total_cores)

  -- The best so far, with its index.
  abbrev pub prefer : ℕ → NodeOption → Option (ℕ × NodeOption) → Option (ℕ × NodeOption)
  prefer i o none = some (i, o)
  prefer i o (some (j, b)) = if better o b then some (i, o) else some (j, b)

  unfoldable pub best_of :
      ℕ → ℕ → List NodeOption → Option (ℕ × NodeOption) → Option (ℕ × NodeOption)
  best_of least i [] best = best
  best_of least i (o ∷ os) best =
      best_of least (suc i) os (if too_many_cores least o then best else prefer i o best)

  -- `pickOption`: the index with the option there; -1 is `none`.
  unfoldable pub pick_option : List NodeOption → Option (ℕ × NodeOption)
  pick_option [] = none
  pick_option (o ∷ os) = best_of (least_cores o.total_cores (o ∷ os)) 0 (o ∷ os) none
