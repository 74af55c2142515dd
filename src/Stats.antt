-- ===== src/Stats.antt =====
-- The histograms of internal/analysis/stats.go. float64 is the type `F` of `Floats`; uint32 and uint64
-- wrap around where Go's do. An index out of range, on which Go panics, has no result.
pub mod Counts
pub mod Quantile
pub mod Demand
pub mod Average
pub mod Vm
pub mod Series
mod Tests
use rightsizer.Prelude.{
  ℕ, zero, suc, ◌+◌, ◌-◌, ◌*◌, ◌%◌, ◌^◌, Bool, true, false, Option, none, some, List, [], ◌∷◌,
  if◌then◌else◌, ltb, leb, ◌==◌, ◌||◌,
}
use rightsizer.Floats.{Floats}

abbrev pub hist_buckets : ℕ
hist_buckets = 200

abbrev pub max_uint32 : ℕ
max_uint32 = 2 ^ 32 - 1

unfoldable pub add_count : ℕ → ℕ → ℕ
add_count c n =
    if ltb max_uint32 n
    then max_uint32
    else (let sum = (c + n) % 2 ^ 64 in if ltb max_uint32 sum then max_uint32 else sum % 2 ^ 32)

abbrev pub cons_bucket : ℕ → Option (List ℕ) → Option (List ℕ)
cons_bucket b none = none
cons_bucket b (some bs) = some (b ∷ bs)

-- h.B[i] = addCount(h.B[i], n)
unfoldable pub bump : ℕ → ℕ → List ℕ → Option (List ℕ)
bump i n [] = none
bump zero n (b ∷ bs) = some (add_count b n ∷ bs)
bump (suc i) n (b ∷ bs) = cons_bucket b (bump i n bs)

-- The first bucket at which the counts reach the target.
unfoldable pub find_bucket : ℕ → ℕ → ℕ → List ℕ → Option ℕ
find_bucket target acc i [] = none
find_bucket target acc i (c ∷ cs) =
    let acc' = (acc + c) % 2 ^ 64 in
    let rest = find_bucket target acc' (suc i) cs in if leb target acc' then some i else rest

module _ (fl : Floats) where
  pub record Hist : Type 0 where
    pub b : List ℕ
    pub n : ℕ
    pub max : fl.F
    pub sum : fl.F

  abbrev pub ignored : fl.F → ℕ → Bool
  ignored v n = fl.lt v (fl.of_int 0) || fl.is_nan v || n == 0

  -- The bucket of a value that is not ignored.
  abbrev pub bucket : fl.F → ℕ
  bucket v = fl.trunc (fl.mul (fl.smaller v (fl.of_int 100)) (fl.of_int 2))

  abbrev pub with_counts : fl.F → ℕ → Hist → List ℕ → Hist
  with_counts v n h bs = record {
    b = bs;
    n = (h.n + n) % 2 ^ 64;
    max = fl.larger h.max (fl.smaller v (fl.of_int 100));
    sum = fl.add h.sum (fl.mul (fl.smaller v (fl.of_int 100)) (fl.of_int n));
  }

  abbrev pub counted : fl.F → ℕ → Hist → Option (List ℕ) → Option Hist
  counted v n h none = none
  counted v n h (some bs) = some (with_counts v n h bs)

  unfoldable pub add_n : fl.F → ℕ → Hist → Option Hist
  add_n v n h = if ignored v n then some h else counted v n h (bump (bucket v) n h.b)

  abbrev pub target : fl.F → Hist → ℕ
  target p h = fl.ceil (fl.div (fl.mul (fl.of_int h.n) p) (fl.of_int 100))

  abbrev pub bound : Hist → Option ℕ → fl.F
  bound h none = fl.of_int 100
  bound h (some i) = fl.smaller (fl.div (fl.of_int (i + 1)) (fl.of_int 2)) h.max

  unfoldable pub pct : fl.F → Hist → fl.F
  pct p h = if h.n == 0 then fl.of_int 0 else bound h (find_bucket (target p h) 0 0 h.b)
