-- ===== src/Stats/Quantile.antt =====
-- The bucket that `Pct` of internal/analysis/stats.go finds.
use rightsizer.Prelude.{
  ℕ, zero, suc, ◌+◌, ◌%◌, ◌^◌, ◌≤◌, ◌<◌, ◌≡◌, ◌∙◌, inl, inr, true, false, none, some, List, [], ◌∷◌,
  arith, leb, take, Bool-cases,
}
use rightsizer.Stats.{find_bucket}
use rightsizer.Stats.Counts.{total}

reach : (t a : ℕ) → leb t a ≡ true → t ≤ a
reach t a h = ground arith

short : (t a : ℕ) → leb t a ≡ false → a < t
short t a h = ground arith

first_index :
    (t acc k c : ℕ) (cs : List ℕ) (i : ℕ)
    → leb t ((acc + c) % 2 ^ 64) ≡ true
    → find_bucket t acc k (c ∷ cs) ≡ some i
    → i ≡ k + 0
unfolding find_bucket
first_index t acc k c cs i e h = ground (arith, e, h)

search_on :
    (t acc k c : ℕ) (cs : List ℕ)
    → leb t ((acc + c) % 2 ^ 64) ≡ false
    → find_bucket t ((acc + c) % 2 ^ 64) (suc k) cs ≡ find_bucket t acc k (c ∷ cs)
unfolding find_bucket
search_on t acc k c cs e = ground (arith, e)

earlier :
    (t acc c : ℕ) (cs : List ℕ) (d : ℕ)
    → acc + total (c ∷ cs) < 2 ^ 64
    → (acc + c) % 2 ^ 64 < t
    → ((j : ℕ) → j < d → (acc + c) % 2 ^ 64 + total (take (suc j) cs) < t)
    → (j : ℕ) → j < suc d
    → acc + total (take (suc j) (c ∷ cs)) < t
earlier t acc c cs d room now before zero l = omega (arith, room, now)
earlier t acc c cs d room now before (suc j) l = omega (arith, room, before j (omega (arith, l)))

-- The loop from bucket `k` on, behind `acc` counts.
found_after :
    (t acc k : ℕ) (bs : List ℕ) (i : ℕ)
    → acc + total bs < 2 ^ 64
    → find_bucket t acc k bs ≡ some i
    → (d : ℕ) × (i ≡ k + d)
      × (t ≤ acc + total (take (suc d) bs))
      × ((j : ℕ) → j < d → acc + total (take (suc j) bs) < t)
unfolding find_bucket
found_after t acc k [] i room h = cc
found_after t acc k (c ∷ cs) i room h = elim (Bool-cases (leb t ((acc + c) % 2 ^ 64))) [
  | inl e ↦ (
    0,
    first_index t acc k c cs i e h,
    omega (arith, reach t ((acc + c) % 2 ^ 64) e, room),
    λ j l. absurd (omega (arith, l)),
  )
  | inr e ↦
      let (d, q, hit, before) =
        found_after t ((acc + c) % 2 ^ 64) (suc k) cs i (omega (arith, room))
          (search_on t acc k c cs e ∙ h) in
      (
        suc d,
        omega (arith, q),
        omega (arith, hit, room),
        earlier t acc c cs d room (short t ((acc + c) % 2 ^ 64) e) before,
      )
]

none_after :
    (t acc k : ℕ) (bs : List ℕ)
    → acc + total bs < 2 ^ 64
    → acc < t
    → find_bucket t acc k bs ≡ none
    → acc + total bs < t
unfolding find_bucket
none_after t acc k [] room low h = omega (arith, low)
none_after t acc k (c ∷ cs) room low h = elim (Bool-cases (leb t ((acc + c) % 2 ^ 64))) [
  | inl e ↦ absurd (ground (arith, e, h))
  | inr e ↦ omega (
    arith,
    room,
    none_after t ((acc + c) % 2 ^ 64) (suc k) cs (omega (arith, room))
        (short t ((acc + c) % 2 ^ 64) e) (search_on t acc k c cs e ∙ h),
  )
]

-- The loop of `Pct`, over buckets whose counts add up to less than 2^64, stops at the first bucket up
-- to which the counts reach the target; it stops at none only if all of them together do not.
pub find_bucket_lem :
    (t : ℕ) (bs : List ℕ)
    → total bs < 2 ^ 64
    → 0 < t
    → ((i : ℕ)
        → find_bucket t 0 0 bs ≡ some i
        → (t ≤ total (take (suc i) bs)) × ((j : ℕ) → j < i → total (take (suc j) bs) < t))
      × (find_bucket t 0 0 bs ≡ none → total bs < t)
find_bucket_lem t bs room pos = (
  λ i h.
      let (d, q, hit, before) = found_after t 0 0 bs i (omega (arith, room)) h in
      let same : i ≡ d = omega (arith, q) in
      (rw same (omega (arith, hit)), λ j l. omega (arith, before j (omega (arith, l, same)))),
  λ h. omega (arith, none_after t 0 0 bs (omega (arith, room)) pos h),
)
