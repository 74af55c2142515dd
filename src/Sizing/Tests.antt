-- ===== src/Sizing/Tests.antt =====
-- A cluster that needs 200 cores and 4 TiB, sized with numbers of three decimals in place of float64.
use rightsizer.Prelude.{
  ℕ, ◌*◌, ◌/◌, ◌^◌, ◌≤◌, ◌≡◌, refl, false, some, List, [], ◌∷◌, arith, ltb, All, map,
}
use rightsizer.Floats.Decimal.{thousandths}
use rightsizer.Sizing.{
  NodeOption, Cluster, Params, Need, spares, min_nodes, per_gb, first_fit, search, option,
  with_cores, options_of, node_options, pick_option, ceil_div,
}
use rightsizer.Sizing.Options.{IsFit, node_options-IsFit}
use rightsizer.Sizing.Choice.{at, IsNear, Precedes, pick_option-IsBest}

abbrev cluster : Cluster thousandths
cluster = record {
  standalone = false;
  vsan = false;
  largest_vcpu = 16;
  largest_mem_mb = 65536;
  core_mhz = 2600000;
}

abbrev params : Params thousandths
params = record { spares = 1; sockets = 2; uplift = 0; cpu_target = 70000 }

abbrev need : Need thousandths
need = record {
  vcpu = 800;
  mem_mb = 4 * 1024 * 1024;
  demand_mhz = 300000000;
  cores = 200;
  mem_b = 1000 * 2 ^ 42;
}

abbrev sizes : List (NodeOption thousandths)
sizes = node_options thousandths cluster need params

abbrev shape : NodeOption thousandths → ℕ × ℕ × ℕ
shape o = (o.nodes, o.cores_per_socket, o.mem_gb)

option_shapes :
    map shape sizes
    ≡ (8, 16, 768)
      ∷ (6, 24, 1024)
      ∷ (5, 32, 1024)
      ∷ (4, 48, 1536)
      ∷ (3, 64, 2048)
      ∷ (3, 96, 2048)
      ∷ (2, 128, 4096)
      ∷ []
unfolding node_options options_of with_cores search first_fit per_gb option min_nodes spares
    ceil_div
option_shapes = refl

node_options-IsFit_example : All (IsFit thousandths cluster need params) sizes
node_options-IsFit_example = node_options-IsFit thousandths cluster need params (omega arith)

abbrev narrow : NodeOption thousandths
narrow = option thousandths cluster need params 16 8 768

abbrev wide : NodeOption thousandths
wide = option thousandths cluster need params 24 6 1024

tenth : (k : ℕ) → ltb (1000 * k * (1000 * (1000 * 11) / (1000 * 10)) / 1000) (1000 * k) ≡ false
tenth k = ground arith

pick_option-IsBest_example :
    (i : ℕ) × (b : NodeOption thousandths) × (n : ℕ) × (l : NodeOption thousandths) × (pick_option
        thousandths
        (narrow ∷ wide ∷ [])
      ≡ some (i, b))
    × (at thousandths i (narrow ∷ wide ∷ []) ≡ some b)
    × (at thousandths n (narrow ∷ wide ∷ []) ≡ some l)
    × All (λ o. l.total_cores ≤ o.total_cores) (narrow ∷ wide ∷ [])
    × IsNear thousandths l.total_cores b
    × All (λ o. IsNear thousandths l.total_cores o → Precedes thousandths b o) (narrow ∷ wide ∷ [])
pick_option-IsBest_example = pick_option-IsBest thousandths tenth narrow (wide ∷ [])
