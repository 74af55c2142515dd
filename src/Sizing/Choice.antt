-- ===== src/Sizing/Choice.antt =====
-- Which option `pickOption` of internal/analysis/sizing_nodes.go recommends.
use rightsizer.Prelude.{
  ℕ, zero, suc, ◌+◌, ◌≤◌, ◌<◌, ◌≡◌, refl, sym, ap, ◌∙◌, ◌⊎◌, inl, inr, true, false, Option, none,
  some, List, [], ◌∷◌, arith, leb, min, Bool-cases, All,
}
use mathlib.Core.Path.{subst}
use rightsizer.Floats.{Floats}
use rightsizer.Sizing.{NodeOption, better, least_cores, too_many_cores, best_of, pick_option}

below : (a b : ℕ) → leb a b ≡ true → a ≤ b
below a b h = ground arith

above : (a b : ℕ) → leb a b ≡ false → b ≤ a
above a b h = ground arith

min_cases : (a b : ℕ) → (min a b ≡ a) ⊎ (min a b ≡ b)
min_cases a b = elim (Bool-cases (leb a b)) [
  | inl h ↦ inl (omega (arith, below a b h))
  | inr h ↦ inr (omega (arith, above a b h))
]

module _ (fl : Floats) where
  better_trans :
      (a b c : NodeOption fl)
      → better fl a b ≡ false
      → better fl b c ≡ false
      → better fl a c ≡ false
  unfolding better
  better_trans a b c h k = ground (arith, h, k)

  better_asym : (a b : NodeOption fl) → better fl a b ≡ true → better fl b a ≡ false
  unfolding better
  better_asym a b h = ground (arith, h)

  better_irrefl : (a : NodeOption fl) → better fl a a ≡ false
  unfolding better
  better_irrefl a = ground arith

  -- The option at an index.
  abbrev pub at : ℕ → List (NodeOption fl) → Option (NodeOption fl)
  at i [] = none
  at zero (o ∷ os) = some o
  at (suc i) (o ∷ os) = at i os

  -- `b` is not worse than any option of the list that is not over the limit.
  abbrev pub IsBest : ℕ → List (NodeOption fl) → NodeOption fl → Type 0
  IsBest least os b = All (λ o. too_many_cores fl least o ≡ false → better fl o b ≡ false) os

  -- Where the loop, which began at index `i` of the list, found the option.
  Found : ℕ → ℕ → List (NodeOption fl) → ℕ → NodeOption fl → Type 0
  Found least i os k o =
      (n : ℕ) × (k ≡ i + n) × (at n os ≡ some o) × (too_many_cores fl least o ≡ false)

  later :
      (least i : ℕ) (x : NodeOption fl) (os : List (NodeOption fl)) (k : ℕ) (o : NodeOption fl)
      → Found least (suc i) os k o
      → Found least i (x ∷ os) k o
  unfolding Found
  later least i x os k o (n, e, f, w) = (suc n, omega (arith, e), f, w)

  kept :
      (least i j : ℕ) (x b : NodeOption fl) (os : List (NodeOption fl)) (k : ℕ) (o : NodeOption fl)
      → ((k ≡ j) × (o ≡ b)) ⊎ Found least (suc i) os k o
      → ((k ≡ j) × (o ≡ b)) ⊎ Found least i (x ∷ os) k o
  kept least i j x b os k o (inl e) = inl e
  kept least i j x b os k o (inr f) = inr (later least i x os k o f)

  moved :
      (least i : ℕ) (x : NodeOption fl) (os : List (NodeOption fl)) (k : ℕ) (o : NodeOption fl)
      → too_many_cores fl least x ≡ false
      → ((k ≡ i) × (o ≡ x)) ⊎ Found least (suc i) os k o
      → Found least i (x ∷ os) k o
  unfolding Found
  moved least i x os k o within (inl (e, same)) =
      (0, omega (arith, e), ap some (sym same), ap (too_many_cores fl least) same ∙ within)
  moved least i x os k o within (inr f) = later least i x os k o f

  -- The loop keeps the best so far or finds one that is not worse.
  choose_over :
      (least i : ℕ) (os : List (NodeOption fl)) (j : ℕ) (b : NodeOption fl)
      → (k : ℕ) × (o : NodeOption fl) × (best_of fl least i os (some (j, b)) ≡ some (k, o))
        × IsBest least os o
        × (better fl b o ≡ false)
        × (((k ≡ j) × (o ≡ b)) ⊎ Found least i os k o)
  unfolding best_of
  choose_over least i [] j b = (j, b, refl, tt, better_irrefl b, inl (refl, refl))
  choose_over least i (x ∷ os) j b = elim (Bool-cases (too_many_cores fl least x)) [
    | inl over ↦
        let (k, o, r, all, n, w) = choose_over least (suc i) os j b in
        (k, o, rw over r, (λ h. absurd (cc), all), n, kept least i j x b os k o w)
    | inr within ↦ elim (Bool-cases (better fl x b)) [
      | inl up ↦
          let (k, o, r, all, n, w) = choose_over least (suc i) os i x in
          (
            k,
            o,
            rw (within, up) r,
            (λ h. n, all),
            better_trans b x o (better_asym x b up) n,
            inr (moved least i x os k o within w),
          )
      | inr down ↦
          let (k, o, r, all, n, w) = choose_over least (suc i) os j b in
          (
            k,
            o,
            rw (within, down) r,
            (λ h. better_trans x b o down n, all),
            n,
            kept least i j x b os k o w,
          )
    ]
  ]

  -- Some option is not over the limit.
  Within : ℕ → List (NodeOption fl) → Type 0
  Within least os =
      (n : ℕ) × (o : NodeOption fl) × (at n os ≡ some o) × (too_many_cores fl least o ≡ false)

  Within-tail :
      (least : ℕ) (x : NodeOption fl) (os : List (NodeOption fl)) (n : ℕ) (o : NodeOption fl)
      → at n (x ∷ os) ≡ some o
      → too_many_cores fl least o ≡ false
      → too_many_cores fl least x ≡ true
      → Within least os
  unfolding Within
  Within-tail least x os zero o f w over = absurd (cc)
  Within-tail least x os (suc n) o f w over = (n, o, f, w)

  choose_first :
      (least i : ℕ) (os : List (NodeOption fl))
      → Within least os
      → (k : ℕ) × (o : NodeOption fl) × (best_of fl least i os none ≡ some (k, o))
        × IsBest least os o
        × Found least i os k o
  unfolding best_of Within
  choose_first least i [] (n, o, f, w) = cc
  choose_first least i (x ∷ os) (n, o, f, w) = elim (Bool-cases (too_many_cores fl least x)) [
    | inl over ↦
        let (k, b, r, all, q) =
          choose_first least (suc i) os (Within-tail least x os n o f w over) in
        (k, b, rw over r, (λ h. absurd (cc), all), later least i x os k b q)
    | inr within ↦
        let (k, b, r, all, worse, q) = choose_over least (suc i) os i x in
        (k, b, rw within r, (λ h. worse, all), moved least i x os k b within q)
  ]

  least_le :
      (l : ℕ) (os : List (NodeOption fl))
      → (least_cores fl l os ≤ l) × All (λ o. least_cores fl l os ≤ o.total_cores) os
  unfolding least_cores
  least_le l [] = (omega arith, tt)
  least_le l (o ∷ os) =
      let (a, b) = least_le (min l o.total_cores) os in (omega (arith, a), (omega (arith, a), b))

  -- The least number of cores is that of an option, or the one to begin with.
  least_at :
      (l : ℕ) (os : List (NodeOption fl))
      → (least_cores fl l os ≡ l)
        ⊎ ((n : ℕ) × (o : NodeOption fl) × (at n os ≡ some o)
            × (o.total_cores ≡ least_cores fl l os))
  unfolding least_cores
  least_at l [] = inl refl
  least_at l (o ∷ os) = elim (least_at (min l o.total_cores) os) [
    | inl e ↦ elim (min_cases l o.total_cores) [
      | inl m ↦ inl (e ∙ m)
      | inr m ↦ inr (0, o, refl, sym (e ∙ m))
    ]
    | inr (n, b, f, t) ↦ inr (suc n, b, f, t)
  ]

  -- The cores of an option are at most a tenth above `least`.
  abbrev pub IsNear : ℕ → NodeOption fl → Type 0
  IsNear least o =
      fl.lt (fl.mul (fl.of_int least) (fl.div (fl.of_int 11) (fl.of_int 10)))
        (fl.of_int o.total_cores)
      ≡ false

  -- `b` fits the largest machine into a NUMA node and `o` does not; or both do or neither, and `b` has
  -- fewer nodes, or as many and no more cores.
  abbrev pub Precedes : NodeOption fl → NodeOption fl → Type 0
  Precedes b o =
      ((b.numa_fit ≡ true) × (o.numa_fit ≡ false))
      ⊎ ((b.numa_fit ≡ o.numa_fit)
          × ((b.nodes < o.nodes) ⊎ ((b.nodes ≡ o.nodes) × (b.total_cores ≤ o.total_cores))))

  better-Precedes : (o b : NodeOption fl) → better fl o b ≡ false → Precedes b o
  unfolding better
  better-Precedes o b h = ground (arith, h)

  Best-Precedes :
      (least : ℕ) (os : List (NodeOption fl)) (b : NodeOption fl)
      → IsBest least os b
      → All (λ o. IsNear least o → Precedes b o) os
  Best-Precedes least [] b h = tt
  Best-Precedes least (o ∷ os) b (h, hs) =
      (λ near. better-Precedes o b (h near), Best-Precedes least os b hs)

  -- Some option has the least number of cores.
  least_reached :
      (x : NodeOption fl) (os : List (NodeOption fl))
      → let least = least_cores fl x.total_cores (x ∷ os) in
        (n : ℕ) × (o : NodeOption fl) × (at n (x ∷ os) ≡ some o) × (o.total_cores ≡ least)
  least_reached x os = elim (least_at x.total_cores (x ∷ os)) [
    | inl e ↦ (0, x, refl, sym e)
    | inr found ↦ found
  ]

  -- The recommendation exists, for float64 in which n is not above n * 1.1. It is the option at its
  -- index. Its cores are at most a tenth above the least number, which is that of an option, and of none
  -- above. It comes before each other option within the tenth, or is level with it: the options that
  -- fit the largest machine into a NUMA node come first, then those with fewer nodes, then those with
  -- fewer cores.
  pub pick_option-IsBest :
      ((k : ℕ)
        → fl.lt (fl.mul (fl.of_int k) (fl.div (fl.of_int 11) (fl.of_int 10))) (fl.of_int k) ≡ false)
      → (x : NodeOption fl) (os : List (NodeOption fl))
      → (i : ℕ) × (b : NodeOption fl) × (n : ℕ) × (l : NodeOption fl) × (pick_option fl (x ∷ os)
          ≡ some (i, b))
        × (at i (x ∷ os) ≡ some b)
        × (at n (x ∷ os) ≡ some l)
        × All (λ o. l.total_cores ≤ o.total_cores) (x ∷ os)
        × IsNear l.total_cores b
        × All (λ o. IsNear l.total_cores o → Precedes b o) (x ∷ os)
  unfolding pick_option Found Within
  pick_option-IsBest tenth x os =
      let least = least_cores fl x.total_cores (x ∷ os) in
      let (n, l, f, t) = least_reached x os in
      let near : IsNear least l =
        ap
          (λ k.
            fl.lt (fl.mul (fl.of_int least) (fl.div (fl.of_int 11) (fl.of_int 10))) (fl.of_int k))
          t
        ∙ tenth least in
      let (k, b, r, all, (m, e, g, w)) = choose_first least 0 (x ∷ os) (n, l, f, near) in
      let here : k ≡ m = omega (arith, e) in
      let Q : ℕ → Type 0 = λ c.
        All (λ o. c ≤ o.total_cores) (x ∷ os)
        × IsNear c b
        × All (λ o. IsNear c o → Precedes b o) (x ∷ os) in
      let (lowest, close, ahead) =
        subst Q (sym t)
          ((least_le x.total_cores (x ∷ os)).1, w, Best-Precedes least (x ∷ os) b all) in
      (k, b, n, l, r, ap (λ j. at j (x ∷ os)) here ∙ g, f, lowest, close, ahead)
