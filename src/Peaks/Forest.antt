-- ===== src/Peaks/Forest.antt =====
-- The parents of internal/analysis/peaks.go as a forest: `find` ends at the root, and keeps every root.
use rightsizer.Prelude.{
  ℕ, zero, suc, ◌+◌, ◌≤◌, ◌<◌, ◌≡◌, ◌≢◌, refl, sym, ap, ◌∙◌, ◌⊎◌, inl, inr, Bool, true, false,
  Option, none, some, arith, ◌==◌, ==_iff, Bool-cases, if-both,
}
use mathlib.Core.Path.{subst}
use rightsizer.Peaks.{set, halved, find}

-- The chain of parents from `k` ends at `r`.
pub data Reaches (p : ℕ → ℕ) : ℕ → ℕ → Type 0 where
  here : (k : ℕ) → p k ≡ k → Reaches p k k
  step : (k r : ℕ) → p k ≢ k → Reaches p (p k) r → Reaches p k r

-- Heights that grow along the parents, up to `u`.
abbrev pub Grows : (ℕ → ℕ) → ℕ → (ℕ → ℕ) → Type 0
Grows h u p = (k : ℕ) → (h k ≤ u) × (p k ≢ k → h k < h (p k))

pub Reaches-root : {p : ℕ → ℕ} {k r : ℕ} → Reaches p k r → p r ≡ r
Reaches-root (here k e) = e
Reaches-root (step k r n s) = Reaches-root s

pub Reaches-unique : {p : ℕ → ℕ} {k r s : ℕ} → Reaches p k r → Reaches p k s → r ≡ s
Reaches-unique (here k e) (here k' e') = refl
Reaches-unique (here k e) (step k' s n t) = absurd (n e)
Reaches-unique (step k r n t) (here k' e) = absurd (n e)
Reaches-unique (step k r n t) (step k' s m t') = Reaches-unique t t'

pub set_same : {A : Type 0} (i k : ℕ) (v : A) (a : ℕ → A) → k ≡ i → set i v a k ≡ v
set_same i k v a e = if-both (λ x. x ≡ v) (k == i) (λ q. refl) (λ q. absurd (ground (arith, q, e)))

pub set_other : {A : Type 0} (i k : ℕ) (v : A) (a : ℕ → A) → k ≢ i → set i v a k ≡ a k
set_other i k v a e =
    if-both (λ x. x ≡ a k) (k == i) (λ q. absurd (e ((==_iff k i).0 q))) (λ q. refl)

pub same_or : (k i : ℕ) → (k ≡ i) ⊎ (k ≢ i)
same_or k i = elim (Bool-cases (k == i)) [
  | inl e ↦ inl ((==_iff k i).0 e)
  | inr e ↦ inr (λ q. absurd (ground (arith, e, q)))
]

-- Path halving keeps the root of every index.
module _ (p h : ℕ → ℕ) (u i : ℕ) (grows : Grows h u p) (n : p i ≢ i) where
  no_cycle : p (p i) ≢ i
  no_cycle e =
      let up = (grows i).1 n in
      let up' = (grows (p i)).1 (λ q. n (sym q ∙ e)) in omega (arith, up, up', ap h e)

  -- A link of an index that is not halved, and that of the one that is.
  kept_link : {k r : ℕ} → k ≢ i → p k ≢ k → Reaches (halved i p) (p k) r → Reaches (halved i p) k r
  kept_link {k} {r} o m s =
      let same = set_other i k (p (p i)) p o in
      step k r (λ q. m (sym same ∙ q)) (subst (λ a. Reaches (halved i p) a r) (sym same) s)

  new_link : {k r : ℕ} → k ≡ i → Reaches (halved i p) (p (p k)) r → Reaches (halved i p) k r
  new_link {k} {r} e s =
      let new = set_same i k (p (p i)) p e ∙ ap (λ a. p (p a)) (sym e) in
      step k r (λ q. no_cycle (ap (λ a. p (p a)) (sym e) ∙ sym new ∙ q ∙ e))
        (subst (λ a. Reaches (halved i p) a r) (sym new) s)

  halved-Reaches : {k r : ℕ} → Reaches p k r → Reaches (halved i p) k r
  halved-Reaches (here k e) =
      here k (set_other i k (p (p i)) p (λ q. n (subst (λ a. p a ≡ a) q e)) ∙ e)
  halved-Reaches (step k r m (here a e)) =
      let s = halved-Reaches (here a e) in
      elim (same_or k i) [
        | inl q ↦ new_link q (subst (λ b. Reaches (halved i p) b r) (sym e) s)
        | inr o ↦ kept_link o m s
      ]
  halved-Reaches (step k r m (step a b m' t)) = elim (same_or k i) [
    | inl q ↦ new_link q (halved-Reaches t)
    | inr o ↦ kept_link o m (halved-Reaches (step a b m' t))
  ]

  grandparent_up : h i < h (p (p i))
  grandparent_up =
      let up = (grows i).1 n in
      elim (same_or (p (p i)) (p i)) [
        | inl q ↦ omega (arith, up, ap h q)
        | inr o ↦ let up' = (grows (p i)).1 o in omega (arith, up, up')
      ]

  halved-Grows : Grows h u (halved i p)
  halved-Grows k = (
    (grows k).0,
    λ m. elim (same_or k i) [
      | inl q ↦ omega (arith, grandparent_up, ap h q, ap h (set_same i k (p (p i)) p q))
      | inr o ↦
          let same = set_other i k (p (p i)) p o in
          omega (arith, (grows k).1 (λ q. m (same ∙ q)), ap h same)
    ],
  )

-- A transitive relation that holds along the parents.
abbrev pub Along : (ℕ → ℕ → Type 0) → (ℕ → ℕ) → Type 0
Along R p = (k : ℕ) → R k (p k)

halved-Along :
    (R : ℕ → ℕ → Type 0) (p : ℕ → ℕ) (i : ℕ)
    → ((a b c : ℕ) → R a b → R b c → R a c)
    → Along R p
    → Along R (halved i p)
halved-Along R p i tr a k = elim (same_or k i) [
  | inl q ↦
      subst (R k) (sym (set_same i k (p (p i)) p q))
        (subst (λ b. R b (p (p i))) (sym q) (tr i (p i) (p (p i)) (a i) (a (p i))))
  | inr o ↦ subst (R k) (sym (set_other i k (p (p i)) p o)) (a k)
]

-- The heights bound every chain, so that each index has a root.
pub has_root : (p h : ℕ → ℕ) (u f k : ℕ) → Grows h u p → u < f + h k → (r : ℕ) × Reaches p k r
has_root p h u zero k g l = absurd (omega (arith, l, (g k).0))
has_root p h u (suc f) k g l = elim (same_or (p k) k) [
  | inl e ↦ (k, here k e)
  | inr n ↦ let (r, t) = has_root p h u f (p k) g (omega (arith, l, (g k).1 n)) in (r, step k r n t)
]

module _ (R : ℕ → ℕ → Type 0) (trans : (a b c : ℕ) → R a b → R b c → R a c) where
  -- What `find` leaves: the root of every index, the heights, and what holds along the parents.
  abbrev pub Keeps : (ℕ → ℕ) → (ℕ → ℕ) → Type 0
  Keeps p q =
      ((k r : ℕ) → Reaches p k r → Reaches q k r)
      × ((h : ℕ → ℕ) (u : ℕ) → Grows h u p → Grows h u q)
      × (Along R p → Along R q)

  abbrev pub Found : ℕ → (ℕ → ℕ) → Option ((ℕ → ℕ) × ℕ) → Type 0
  Found i p none = ⊥
  Found i p (some (q, r)) = Reaches p i r × Keeps p q

  found_further :
      (h : ℕ → ℕ) (u i : ℕ) (p : ℕ → ℕ) (o : Option ((ℕ → ℕ) × ℕ))
      → Grows h u p
      → p i ≢ i
      → Found (halved i p i) (halved i p) o
      → Found i p o
  found_further h u i p none g n x = x
  found_further h u i p (some (q, r)) g n (t, (k, w, a)) =
      let p' = halved i p in
      let (r0, t0) = has_root p h u (suc u) i g (omega arith) in
      let t' : Reaches p' i r =
        step i r (λ e. no_cycle p h u i g n (sym (set_same i i (p (p i)) p refl) ∙ e)) t in
      let same = Reaches-unique (halved-Reaches p h u i g n t0) t' in
      (
        subst (Reaches p i) same t0,
        (
          λ k' s z. k k' s (halved-Reaches p h u i g n z),
          λ h' u' g'. w h' u' (halved-Grows p h' u' i g' n),
          λ z. a (halved-Along R p i trans z),
        ),
      )

  -- With more fuel than the heights leave, `find` answers the root.
  pub find-Found :
      (h : ℕ → ℕ) (u f i : ℕ) (p : ℕ → ℕ) → Grows h u p → u < f + h i → Found i p (find f i p)
  unfolding find
  find-Found h u zero i p g l = absurd (omega (arith, l, (g i).0))
  find-Found h u (suc f) i p g l =
      let rest = find f (halved i p i) (halved i p) in
      let P : Bool → Type 0 = λ b. Found i p (elim b [ true ↦ some (p, i) | false ↦ rest ]) in
      elim (Bool-cases (p i == i)) [
        | inl e ↦
            subst P (sym e)
              (here i ((==_iff (p i) i).0 e), ((λ k r t. t), (λ h' u' g'. g'), (λ a. a)))
        | inr e ↦ subst P (sym e) (
            let n : p i ≢ i = λ q. absurd (ground (arith, e, q)) in
            let up = grandparent_up p h u i g n in
            let at = ap h (set_same i i (p (p i)) p refl) in
            found_further h u i p rest g n (
              find-Found h u f (halved i p i) (halved i p) (halved-Grows p h u i g n)
                (omega (arith, l, up, at))))
      ]
