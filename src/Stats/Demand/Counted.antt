-- ===== src/Stats/Demand/Counted.antt =====
-- What `setSlot` of internal/analysis/stats.go counts, and in which slot.
use rightsizer.Prelude.{
  ℕ, ◌+◌, ◌<◌, ◌==◌, zero, suc, ◌-◌, ◌*◌, ◌/◌, ◌≤◌, ◌≡◌, refl, ap, ◌∙◌, inl, inr, true, false, List,
  [], ◌∷◌, ◌++◌, arith, if◌then◌else◌, leb, ◌||◌, ℤ, pos_part, ◌-ℤ◌, pos, negsuc, ◌+ℤ◌, ◌≤ℤ◌, ◌<ℤ◌,
  +ℤ_parts, -ℤ_parts, sym, min, ltℤ, length, length-append, All, All-append, Bool-cases,
}
use mathlib.Core.Path.{subst}
use rightsizer.Floats.{Floats}
use rightsizer.Stats.Demand.{
  slot_length, max_slots, max_uint16, copies, change_at, value_at, count_up, Demand, averaged,
  padded, recorded, slot_of, set_slot,
}

length-copies : {A : Type 0} (n : ℕ) (a : A) → length (copies n a) ≡ n
length-copies zero a = refl
length-copies (suc n) a = ap suc (length-copies n a)

length-change_at :
    {A : Type 0} (i : ℕ) (f : A → A) (xs : List A) → length (change_at i f xs) ≡ length xs
length-change_at i f [] = refl
length-change_at zero f (x ∷ xs) = refl
length-change_at (suc i) f (x ∷ xs) = ap suc (length-change_at i f xs)

All-copies : (n : ℕ) → All (λ c. c ≤ max_uint16) (copies n 0)
All-copies zero = tt
All-copies (suc n) = (omega arith, All-copies n)

All-change_at :
    (i : ℕ) (xs : List ℕ)
    → All (λ c. c ≤ max_uint16) xs
    → All (λ c. c ≤ max_uint16) (change_at i count_up xs)
All-change_at i [] h = tt
All-change_at zero (x ∷ xs) (h, hs) = (ground (arith, h), hs)
All-change_at (suc i) (x ∷ xs) (h, hs) = (h, All-change_at i xs hs)

value_at-change_at :
    (i j : ℕ) (xs : List ℕ)
    → i < length xs
    → value_at j (change_at i count_up xs)
      ≡ (if i == j then count_up (value_at j xs) else value_at j xs)
value_at-change_at i j [] h = absurd (omega (arith, h))
value_at-change_at zero zero (x ∷ xs) h = ground arith
value_at-change_at zero (suc j) (x ∷ xs) h = ground arith
value_at-change_at (suc i) zero (x ∷ xs) h = ground arith
value_at-change_at (suc i) (suc j) (x ∷ xs) h =
    value_at-change_at i j xs (omega (arith, h)) ∙ ground arith

value_at-copies : (j n : ℕ) → value_at j (copies n 0) ≡ 0
value_at-copies j zero = refl
value_at-copies zero (suc n) = refl
value_at-copies (suc j) (suc n) = value_at-copies j n

value_at-append : (j n : ℕ) (xs : List ℕ) → value_at j (xs ++ copies n 0) ≡ value_at j xs
value_at-append j n [] = value_at-copies j n
value_at-append zero n (x ∷ xs) = refl
value_at-append (suc j) n (x ∷ xs) = value_at-append j n xs

count_up_capped : (n : ℕ) → n ≤ max_uint16 → count_up n ≡ min (n + 1) 65535
count_up_capped n h = ground (arith, h)

value_at_bound : (j : ℕ) (xs : List ℕ) → All (λ c. c ≤ max_uint16) xs → value_at j xs ≤ max_uint16
value_at_bound j [] h = omega arith
value_at_bound zero (x ∷ xs) (h, hs) = h
value_at_bound (suc j) (x ∷ xs) (h, hs) = value_at_bound j xs hs

-- The half hour `i` from the anchor on.
abbrev pub IsDuring : ℤ → ℕ → ℤ → Type 0
IsDuring anchor i t =
    (anchor +ℤ pos (i * slot_length) ≤ℤ t) × (t <ℤ anchor +ℤ pos ((i + 1) * slot_length))

quotient :
    (d : ℤ) (i : ℕ)
    → pos (i * slot_length) ≤ℤ d
    → d <ℤ pos ((i + 1) * slot_length)
    → pos_part d / slot_length ≡ i
quotient (pos n) i h k = omega (arith, h, k)
quotient (negsuc n) i h k = absurd (omega (arith, h))

module _ (fl : Floats) where
  -- Every slot has an average and a count of samples, for at most 32 days.
  abbrev pub IsDemand : Demand fl → Type 0
  IsDemand s =
      (length s.slots ≡ length s.demand)
      × (length s.demand ≤ max_slots)
      × All (λ c. c ≤ max_uint16) s.slots

  recorded-IsDemand :
      (i : ℕ) (mhz : fl.F) (s : Demand fl)
      → i < max_slots
      → IsDemand s
      → let s' = recorded fl i mhz (padded fl i s) in
        IsDemand s'
        × ((j : ℕ)
            → value_at j s'.slots
              ≡ (if i == j then count_up (value_at j s.slots) else value_at j s.slots))
  recorded-IsDemand i mhz s h (l, m, all) =
      let k = suc i - length s.demand in
      let f = averaged fl (value_at i (s.slots ++ copies k 0)) mhz in
      let ld = length-change_at i f (s.demand ++ copies k (fl.of_int 0)) in
      let ls = length-change_at i count_up (s.slots ++ copies k 0) in
      let pd = length-append s.demand (copies k (fl.of_int 0)) in
      let ps = length-append s.slots (copies k 0) in
      let cd = length-copies k (fl.of_int 0) in
      let cs = length-copies {A = ℕ} k 0 in
      (
        (
          omega (arith, ld, ls, pd, ps, cd, cs, l),
          omega (arith, ld, pd, cd, h, m),
          All-change_at i (s.slots ++ copies k 0)
              (All-append (λ c. c ≤ max_uint16) s.slots (copies k 0) all (All-copies k)),
        ),
        λ j.
            value_at-change_at i j (s.slots ++ copies k 0) (omega (arith, ps, cs, l))
            ∙ rw (value_at-append j k s.slots) refl,
      )

  during_slot : (anchor t : ℤ) (i : ℕ) → IsDuring anchor i t → slot_of fl anchor t ≡ i
  during_slot anchor t i (h, k) =
      let from = pos (i * slot_length) in
      let to = pos ((i + 1) * slot_length) in
      quotient (t -ℤ anchor) i (omega (arith, h, -ℤ_parts t anchor, +ℤ_parts anchor from))
        (omega (arith, k, -ℤ_parts t anchor, +ℤ_parts anchor to))

  late_slot :
      (anchor t : ℤ) → anchor +ℤ pos (1536 * slot_length) ≤ℤ t → max_slots ≤ slot_of fl anchor t
  late_slot anchor t h =
      late (t -ℤ anchor)
        (omega (arith, h, -ℤ_parts t anchor, +ℤ_parts anchor (pos (1536 * slot_length))))
    where
      late : (d : ℤ) → pos (1536 * slot_length) ≤ℤ d → max_slots ≤ pos_part d / slot_length
      late (pos n) h = omega (arith, h)
      late (negsuc n) h = absurd (omega (arith, h))

  unchanged :
      (anchor t : ℤ) (mhz : fl.F) (s : Demand fl)
      → (ltℤ t anchor || leb max_slots (slot_of fl anchor t)) ≡ true
      → set_slot fl anchor t mhz s ≡ s
  unfolding set_slot
  unchanged anchor t mhz s e = rw e refl

  inside :
      (anchor t : ℤ) (mhz : fl.F) (s : Demand fl)
      → (ltℤ t anchor || leb max_slots (slot_of fl anchor t)) ≡ false
      → let i = slot_of fl anchor t in
        set_slot fl anchor t mhz s ≡ recorded fl i mhz (padded fl i s)
  unfolding set_slot
  inside anchor t mhz s e = rw e refl

  slot_kept :
      (anchor t : ℤ) (mhz : fl.F) (s : Demand fl)
      → IsDemand s
      → IsDemand (set_slot fl anchor t mhz s)
  slot_kept anchor t mhz s h =
      let i = slot_of fl anchor t in
      elim (Bool-cases (ltℤ t anchor || leb max_slots i)) [
        | inl e ↦ subst IsDemand (sym (unchanged anchor t mhz s e)) h
        | inr e ↦
            subst IsDemand (sym (inside anchor t mhz s e))
              (recorded-IsDemand i mhz s (ground (arith, e)) h).0
      ]

  slot_counted :
      (anchor t : ℤ) (mhz : fl.F) (s : Demand fl)
      → IsDemand s
      → (i : ℕ) → i < 1536
      → IsDuring anchor i t
      → (j : ℕ)
      → value_at j (set_slot fl anchor t mhz s).slots
        ≡ (if i == j then min (value_at j s.slots + 1) 65535 else value_at j s.slots)
  slot_counted anchor t mhz s h i k d j =
      let e = during_slot anchor t i d in
      let early : anchor ≤ℤ t = omega (arith, d.0, +ℤ_parts anchor (pos (i * slot_length))) in
      let counts = (recorded-IsDemand i mhz s k h).1 j in
      let here : (ltℤ t anchor || leb max_slots (slot_of fl anchor t)) ≡ false =
        ground (arith, k, e, early) in
      ap (λ (z : Demand fl). value_at j z.slots) (inside anchor t mhz s here)
      ∙ ap (λ x. value_at j (recorded fl x mhz (padded fl x s)).slots) e
      ∙ counts
      ∙ ground (arith, count_up_capped (value_at j s.slots) (value_at_bound j s.slots (h.2)))

  -- `setSlot` keeps one average and one uint16 count for every slot of at most 32 days. Before the
  -- anchor, and from 32 days after it on, it changes nothing. In half hour `i` in between it counts one
  -- sample more in slot `i`, up to 65535, and none in any other.
  pub set_slot-IsDemand :
      (anchor t : ℤ) (mhz : fl.F) (s : Demand fl)
      → IsDemand s
      → let s' = set_slot fl anchor t mhz s in
        IsDemand s'
        × (t <ℤ anchor → s' ≡ s)
        × (anchor +ℤ pos (1536 * slot_length) ≤ℤ t → s' ≡ s)
        × ((i : ℕ)
            → i < 1536
            → IsDuring anchor i t
            → (j : ℕ)
            → value_at j s'.slots
              ≡ (if i == j then min (value_at j s.slots + 1) 65535 else value_at j s.slots))
  set_slot-IsDemand anchor t mhz s h = (
    slot_kept anchor t mhz s h,
    λ e. unchanged anchor t mhz s (ground (arith, e)),
    λ e. unchanged anchor t mhz s (ground (arith, late_slot anchor t e)),
    λ i k d j. slot_counted anchor t mhz s h i k d j,
  )
