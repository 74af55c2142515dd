-- ===== src/Stats/Counts.antt =====
-- What `AddN` of internal/analysis/stats.go keeps of a histogram.
use rightsizer.Prelude.{
  ℕ, zero, suc, ◌+◌, ◌*◌, ◌==◌, ◌||◌, if◌then◌else◌, ◌%◌, ◌^◌, ◌≤◌, ◌<◌, ◌≡◌, refl, ap, ◌∙◌, inl,
  inr, true, false, some, List, [], ◌∷◌, arith, min, length, All, Bool-cases,
}
use rightsizer.Floats.{Floats}
use rightsizer.Stats.Demand.{value_at}
use rightsizer.Stats.{
  hist_buckets, max_uint32, add_count, bump, Hist, ignored, bucket, with_counts, counted, add_n,
}

add_count_capped : (c n : ℕ) → c ≤ max_uint32 → n < 2 ^ 64 → add_count c n ≡ min (c + n) max_uint32
unfolding add_count
add_count_capped c n h k = ground arith

no_wrap : (a : ℕ) → a < 2 ^ 64 → a % 2 ^ 64 ≡ a
no_wrap a h = omega (arith, h)

abbrev pub total : List ℕ → ℕ
total [] = 0
total (b ∷ bs) = b + total bs

-- Bucket `i` counts `n` more, but no more than a uint32 holds, and the others are as before.
abbrev pub IsCounted : ℕ → ℕ → List ℕ → List ℕ → Type 0
IsCounted i n bs bs' =
    (j : ℕ)
    → value_at j bs' ≡ (if i == j then min (value_at j bs + n) max_uint32 else value_at j bs)

-- `bs'` has as many buckets, none above the largest uint32, and counts at most `n` more.
abbrev Bumped : ℕ → ℕ → List ℕ → List ℕ → Type 0
Bumped i n bs bs' =
    (length bs' ≡ length bs)
    × All (λ b. b ≤ max_uint32) bs'
    × (total bs' ≤ total bs + n)
    × IsCounted i n bs bs'

first-IsCounted :
    (n b c : ℕ) (bs : List ℕ) → c ≡ min (b + n) max_uint32 → IsCounted 0 n (b ∷ bs) (c ∷ bs)
first-IsCounted n b c bs h zero = h
first-IsCounted n b c bs h (suc j) = ground arith

later-IsCounted :
    (i n b : ℕ) (bs bs' : List ℕ) → IsCounted i n bs bs' → IsCounted (suc i) n (b ∷ bs) (b ∷ bs')
later-IsCounted i n b bs bs' h zero = ground arith
later-IsCounted i n b bs bs' h (suc j) = h j ∙ ground arith

bump-Bumped :
    (i n : ℕ) (bs : List ℕ)
    → i < length bs
    → All (λ b. b ≤ max_uint32) bs
    → n < 2 ^ 64
    → (bs' : List ℕ) × (bump i n bs ≡ some bs') × Bumped i n bs bs'
unfolding bump
bump-Bumped i n [] h all k = absurd (omega (arith, h))
bump-Bumped zero n (b ∷ bs) h (a, all) k =
    let e = add_count_capped b n a k in
    (
      add_count b n ∷ bs,
      refl,
      (refl, (omega (arith, e), all), omega (arith, e), first-IsCounted n b (add_count b n) bs e),
    )
bump-Bumped (suc i) n (b ∷ bs) h (a, all) k =
    let (bs', e, (l, w, t, c)) = bump-Bumped i n bs (omega (arith, h)) all k in
    (b ∷ bs', rw e refl, (ap suc l, (a, w), omega (arith, t), later-IsCounted i n b bs bs' c))

module _ (fl : Floats) where
  -- 201 buckets of uint32, which count at most the samples that were added.
  abbrev pub IsHist : Hist fl → Type 0
  IsHist h = (length h.b ≡ hist_buckets + 1) × All (λ b. b ≤ max_uint32) h.b × (total h.b ≤ h.n)

  counted-IsHist :
      (v : fl.F) (n : ℕ) (h : Hist fl)
      → bucket fl v ≤ hist_buckets
      → h.n + n < 2 ^ 64
      → IsHist h
      → (h' : Hist fl) × (counted fl v n h (bump (bucket fl v) n h.b) ≡ some h')
        × IsHist h'
        × (h'.n ≡ h.n + n)
        × IsCounted (bucket fl v) n h.b h'.b
  counted-IsHist v n h small room (l, all, t) =
      let (bs, e, (l', all', t', c)) =
        bump-Bumped (bucket fl v) n h.b (omega (arith, l, small)) all (omega (arith, room)) in
      (
        with_counts fl v n h bs,
        ap (counted fl v n h) e,
        (l' ∙ l, all', rw (no_wrap (h.n + n) room) (omega (arith, t, t'))),
        no_wrap (h.n + n) room,
        c,
      )

  -- The laws of float64 that the buckets rely on: `min` gives no more than its second argument, to
  -- double is monotone, and a number that is at most n truncates to at most n.
  pub record IsRounded : Type 0 where
    pub smaller_le :
        (a : fl.F) (n : ℕ)
        → fl.is_nan a ≡ false
        → fl.le (fl.smaller a (fl.of_int n)) (fl.of_int n) ≡ true
    pub doubled_le :
        (a : fl.F) (n : ℕ)
        → fl.le a (fl.of_int n) ≡ true
        → fl.le (fl.mul a (fl.of_int 2)) (fl.of_int (n * 2)) ≡ true
    pub trunc_le : (a : fl.F) (n : ℕ) → n < 2 ^ 53 → fl.le a (fl.of_int n) ≡ true → fl.trunc a ≤ n

  bucket_bound : IsRounded → (v : fl.F) → fl.is_nan v ≡ false → bucket fl v ≤ hist_buckets
  bucket_bound laws v h =
      let capped = fl.smaller v (fl.of_int 100) in
      laws.trunc_le (fl.mul capped (fl.of_int 2)) 200 (omega arith)
        (laws.doubled_le capped 100 (laws.smaller_le v 100 h))

  -- What `AddN` makes of a histogram.
  abbrev pub Added : fl.F → ℕ → Hist fl → Hist fl → Type 0
  Added v n h h' =
      IsHist h'
      × ((fl.lt v (fl.of_int 0) || fl.is_nan v || n == 0) ≡ true → h' ≡ h)
      × ((fl.lt v (fl.of_int 0) || fl.is_nan v || n == 0) ≡ false
          → (h'.n ≡ h.n + n)
            × IsCounted (fl.trunc (fl.mul (fl.smaller v (fl.of_int 100)) (fl.of_int 2))) n h.b h'.b)

  -- `AddN` where the bucket of each value is one of the histogram's.
  pub add_n-Added :
      ((v : fl.F)
        → fl.lt v (fl.of_int 0) ≡ false
        → fl.is_nan v ≡ false
        → bucket fl v ≤ hist_buckets)
      → (v : fl.F) (n : ℕ) (h : Hist fl) → h.n + n < 2 ^ 64
      → IsHist h
      → (h' : Hist fl) × (add_n fl v n h ≡ some h') × Added v n h h'
  unfolding add_n
  add_n-Added small v n h room good = elim (Bool-cases (ignored fl v n)) [
    | inl e ↦ (h, rw e refl, (good, (λ q. refl), λ q. absurd (cc)))
    | inr e ↦
        let (h', r, fits, m, c) =
          counted-IsHist v n h (small v (ground (arith, e)) (ground (arith, e))) room good in
        (h', rw e r, (fits, (λ q. absurd (cc)), λ q. (m, c)))
  ]

  -- `AddN` does not leave the buckets, for float64 with the laws of `IsRounded`. While the samples are fewer
  -- than 2^64, the histogram keeps 201 buckets, none above the largest uint32, which count at most the
  -- samples added. `AddN` of a value that is negative or no number, or of no sample, changes nothing.
  -- Of any other value it adds the samples to their number and to the bucket of twice the value, or of
  -- twice 100 if that is less, up to the largest uint32, and to no other bucket.
  pub add_n-IsHist :
      IsRounded
      → (v : fl.F) (n : ℕ) (h : Hist fl) → h.n + n < 2 ^ 64
      → IsHist h
      → (h' : Hist fl) × (add_n fl v n h ≡ some h') × Added v n h h'
  add_n-IsHist laws = add_n-Added (λ v h k. bucket_bound laws v k)
