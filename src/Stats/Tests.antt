-- ===== src/Stats/Tests.antt =====
-- A histogram with numbers of three decimals in place of float64, and the theorems at it.
use rightsizer.Prelude.{
  ◌*◌, ◌+◌, ℤ, pos, ◌==◌, if◌then◌else◌, ◌-ℤ◌, ◌+ℤ◌, ◌≤ℤ◌, ◌<ℤ◌, min, ℕ, zero, suc, ◌+◌, ◌-◌, ◌^◌,
  ◌≤◌, ◌<◌, ◌≡◌, refl, false, none, some, List, [], ◌∷◌, arith, ltb, take, All,
}
use rightsizer.Floats.Decimal.{thousandths}
use rightsizer.Stats.{hist_buckets, max_uint32, add_count, Hist, bucket, add_n, find_bucket}
use rightsizer.Stats.Counts.{total, IsHist, IsRounded, Added, add_n-IsHist}
use rightsizer.Stats.Demand.{Demand, slot_length, value_at, set_slot}
use rightsizer.Stats.Demand.Counted.{IsDemand, IsDuring, set_slot-IsDemand}
use rightsizer.Stats.Quantile.{find_bucket_lem}

abbrev zeros : ℕ → List ℕ
zeros zero = []
zeros (suc n) = 0 ∷ zeros n

abbrev empty : Hist thousandths
empty = record { b = zeros 201; n = 0; max = 0; sum = 0 }

zeros-All : (n : ℕ) → All (λ b. b ≤ max_uint32) (zeros n)
zeros-All zero = tt
zeros-All (suc n) = (omega arith, zeros-All n)

empty-IsHist : IsHist thousandths empty
empty-IsHist = (refl, zeros-All 201, omega arith)

saturated : add_count (2 ^ 32 - 2) 5 ≡ 2 ^ 32 - 1
unfolding add_count
saturated = refl

bucket_small : (v : ℕ) → ltb v 0 ≡ false → false ≡ false → bucket thousandths v ≤ hist_buckets
bucket_small v h k = omega arith

rounded : IsRounded thousandths
rounded = record {
  smaller_le = λ a n h. ground arith;
  doubled_le = λ a n h. ground (arith, h);
  trunc_le = λ a n small h. ground (arith, h);
}

add_n-IsHist_example :
    (h' : Hist thousandths) × (add_n thousandths 1500 3 empty ≡ some h')
    × Added thousandths 1500 3 empty h'
add_n-IsHist_example = add_n-IsHist thousandths rounded 1500 3 empty (omega arith) empty-IsHist

abbrev counts : List ℕ
counts = 1 ∷ 0 ∷ 4 ∷ 5 ∷ []

median : find_bucket 5 0 0 counts ≡ some 2
unfolding find_bucket
median = refl

find_bucket_lem_example :
    ((i : ℕ)
      → find_bucket 5 0 0 counts ≡ some i
      → (5 ≤ total (take (suc i) counts)) × ((j : ℕ) → j < i → total (take (suc j) counts) < 5))
    × (find_bucket 5 0 0 counts ≡ none → total counts < 5)
find_bucket_lem_example = find_bucket_lem 5 counts (omega arith) (omega arith)

abbrev slotted : Demand thousandths
slotted = record { demand = 2000 ∷ []; slots = 1 ∷ [] }

slotted-IsDemand : IsDemand thousandths slotted
slotted-IsDemand = (refl, omega arith, (omega arith, tt))

-- The third half hour.
abbrev third : ℤ
third = pos (2 * slot_length + 5)

third_slot : (set_slot thousandths (pos 0) third 7000 slotted).slots ≡ 1 ∷ 0 ∷ 1 ∷ []
unfolding set_slot ◌-ℤ◌
third_slot = refl

set_slot-IsDemand_example :
    let s' = set_slot thousandths (pos 0) third 7000 slotted in
    IsDemand thousandths s'
    × (third <ℤ pos 0 → s' ≡ slotted)
    × (pos 0 +ℤ pos (1536 * slot_length) ≤ℤ third → s' ≡ slotted)
    × ((i : ℕ)
        → i < 1536
        → IsDuring (pos 0) i third
        → (j : ℕ)
        → value_at j s'.slots
          ≡ (if i == j then min (value_at j slotted.slots + 1) 65535 else value_at j slotted.slots))
set_slot-IsDemand_example =
    set_slot-IsDemand thousandths (pos 0) third 7000 slotted slotted-IsDemand
