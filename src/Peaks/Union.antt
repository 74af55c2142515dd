-- ===== src/Peaks/Union.antt =====
-- `parent[find(i)] = find(j)` of internal/analysis/peaks.go: two trees become one, all others stay.
use rightsizer.Prelude.{
  ℕ, suc, ◌≤◌, ◌<◌, ◌≡◌, ◌≢◌, refl, sym, ap, ◌∙◌, inl, inr, max, Option, none, some, arith, ◌==◌,
  ==_iff, if-both,
}
use mathlib.Core.Path.{subst}
use rightsizer.Peaks.{set, find, found, linked, union}
use rightsizer.Peaks.Forest.{
  Reaches, here, step, Grows, Along, Keeps, Found, find-Found, Reaches-root, set_same, set_other,
  same_or,
}

-- Two indices with one root.
abbrev pub Linked : (ℕ → ℕ) → ℕ → ℕ → Type 0
Linked p i j = (r : ℕ) × Reaches p i r × Reaches p j r

-- The root after `a` has become a child of `b`.
abbrev moved : ℕ → ℕ → ℕ → ℕ
moved a b r = set a b (λ k. k) r

module _ (p : ℕ → ℕ) (a b : ℕ) (root_a : p a ≡ a) (root_b : p b ≡ b) where
  set-b : set a b p b ≡ b
  set-b = if-both (λ x. x ≡ b) (b == a) (λ e. refl) (λ e. root_b)

  set-Reaches : {k r : ℕ} → Reaches p k r → Reaches (set a b p) k (moved a b r)
  set-Reaches (here k e) = elim (same_or k a) [
    | inl q ↦
        let at = set_same a k b p q in
        let root = set_same a k b (λ c. c) q in
        elim (same_or k b) [
          | inl w ↦ subst (Reaches (set a b p) k) (w ∙ sym root) (here k (at ∙ sym w))
          | inr w ↦
              step k (moved a b k) (λ m. w (sym m ∙ at))
                (subst (λ c. Reaches (set a b p) c (moved a b k)) (sym at)
                  (subst (Reaches (set a b p) b) (sym root) (here b set-b)))
        ]
    | inr o ↦
        subst (Reaches (set a b p) k) (sym (set_other a k b (λ c. c) o))
          (here k (set_other a k b p o ∙ e))
  ]
  set-Reaches (step k r n t) =
      let o : k ≢ a = λ q. n (subst (λ c. p c ≡ c) (sym q) root_a) in
      let same = set_other a k b p o in
      step k (moved a b r) (λ e. n (sym same ∙ e))
        (subst (λ c. Reaches (set a b p) c (moved a b r)) (sym same) (set-Reaches t))

  -- The height of `b` grows over that of `a`.
  abbrev raised : (ℕ → ℕ) → ℕ → ℕ
  raised h = set b (max (h b) (suc (h a))) h

  set-Grows : (h : ℕ → ℕ) (u : ℕ) → Grows h u p → Grows (raised h) (suc u) (set a b p)
  set-Grows h u g k =
      let top = max (h b) (suc (h a)) in
      let above : (c : ℕ) → h c ≤ raised h c = λ c.
        if-both (λ x. h c ≤ x) (c == b) (λ e. omega (arith, ap h ((==_iff c b).0 e)))
          (λ e. omega arith) in
      let low : k ≢ b → raised h k ≡ h k = λ o. set_other b k top h o in
      (
        if-both (λ x. x ≤ suc u) (k == b) (λ e. omega (arith, (g a).0, (g b).0))
            (λ e. omega (arith, (g k).0)),
        λ m. elim (same_or k a) [
          | inl q ↦
              let at = set_same a k b p q in
              let high = set_same b b top h refl in
              let up = ap (raised h) at in
              omega (arith, low (λ w. m (at ∙ sym w)), high, up, ap h q)
          | inr o ↦
              let same = set_other a k b p o in
              let n : p k ≢ k = λ w. m (same ∙ w) in
              let up = ap (raised h) same in
              omega (
                arith,
                low (λ w. n (subst (λ c. p c ≡ c) (sym w) root_b)),
                (g k).1 n,
                above (p k),
                up,
              )
        ],
      )

  set-Along : (R : ℕ → ℕ → Type 0) → R a b → Along R p → Along R (set a b p)
  set-Along R r l k = elim (same_or k a) [
    | inl q ↦ subst (R k) (sym (set_same a k b p q)) (subst (λ c. R c b) (sym q) r)
    | inr o ↦ subst (R k) (sym (set_other a k b p o)) (l k)
  ]

-- A relation that the parents follow, as the closure of the pairs will be.
pub record IsEquivalence (R : ℕ → ℕ → Type 0) : Type 0 where
  pub reflexive : (a : ℕ) → R a a
  pub symmetric : (a b : ℕ) → R a b → R b a
  pub transitive : (a b c : ℕ) → R a b → R b c → R a c

pub Along-Reaches :
    (R : ℕ → ℕ → Type 0)
    → IsEquivalence R
    → {p : ℕ → ℕ} {k r : ℕ} → Along R p
    → Reaches p k r
    → R k r
Along-Reaches R eqv l (here k e) = eqv.reflexive k
Along-Reaches R eqv {p} l (step k r n t) = eqv.transitive k (p k) r (l k) (Along-Reaches R eqv l t)

module _ (R : ℕ → ℕ → Type 0) (eqv : IsEquivalence R) where
  -- What a union makes of the forest `p`, whose heights are at most `u`.
  abbrev pub Joined : ℕ → ℕ → ℕ → (ℕ → ℕ) → Option (ℕ → ℕ) → Type 0
  Joined u i j p none = ⊥
  Joined u i j p (some q) =
      ((h : ℕ → ℕ) × Grows h (suc u) q)
      × Linked q i j
      × ((k l : ℕ) → Linked p k l → Linked q k l)
      × (R i j → Along R p → Along R q)

  linked-Joined :
      (h : ℕ → ℕ) (u i j a : ℕ) (p p1 : ℕ → ℕ) (o : Option ((ℕ → ℕ) × ℕ))
      → Grows h u p
      → Reaches p i a
      → Keeps R eqv.transitive p p1
      → Found R eqv.transitive j p1 o
      → Joined u i j p (linked a o)
  linked-Joined h u i j a p p1 none g t k x = x
  linked-Joined h u i j a p p1 (some (q, b)) g t (k1, w1, l1) (t2, (k2, w2, l2)) =
      let root_a = Reaches-root (k2 i a (k1 i a t)) in
      let tb = k2 j b t2 in
      let root_b = Reaches-root tb in
      let moves : (k r : ℕ) → Reaches p k r → Reaches (set a b q) k (moved a b r) =
        λ k r z. set-Reaches q a b root_a root_b (k2 k r (k1 k r z)) in
      let at_a : moved a b a ≡ b = set_same a a b (λ c. c) refl in
      let at_b : moved a b b ≡ b = if-both (λ x. x ≡ b) (b == a) (λ e. refl) (λ e. refl) in
      (
        (raised q a b root_a root_b h, set-Grows q a b root_a root_b h u (w2 h u (w1 h u g))),
        (
          b,
          subst (Reaches (set a b q) i) at_a (moves i a t),
          subst (Reaches (set a b q) j) at_b (set-Reaches q a b root_a root_b tb),
        ),
        λ k l (r, x, y). (moved a b r, moves k r x, moves l r y),
        λ r l.
            let lq = l2 (l1 l) in
            let ia = Along-Reaches R eqv l t in
            let jb = Along-Reaches R eqv (l1 l) t2 in
            set-Along q a b root_a root_b R
              (eqv.transitive a i b (eqv.symmetric i a ia) (eqv.transitive i j b r jb)) lq,
      )

  found-Joined :
      (h : ℕ → ℕ) (u f i j : ℕ) (p : ℕ → ℕ) (o : Option ((ℕ → ℕ) × ℕ))
      → u < f
      → Grows h u p
      → Found R eqv.transitive i p o
      → Joined u i j p (found f j o)
  found-Joined h u f i j p none l g x = x
  found-Joined h u f i j p (some (p1, a)) l g (t, (k1, w1, l1)) =
      linked-Joined h u i j a p p1 (find f j p1) g t (k1, w1, l1)
        (find-Found R eqv.transitive h u f j p1 (w1 h u g) (omega (arith, l)))

  -- `parent[find(i)] = find(j)` ends, joins the trees of `i` and `j`, parts no two that were together,
  -- and keeps to any equivalence that the parents kept to and that holds of `i` and `j`.
  pub union-Joined :
      (h : ℕ → ℕ) (u f i j : ℕ) (p : ℕ → ℕ) → u < f → Grows h u p → Joined u i j p (union f i j p)
  unfolding union
  union-Joined h u f i j p l g =
      found-Joined h u f i j p (find f i p) l g
        (find-Found R eqv.transitive h u f i p g (omega (arith, l)))
