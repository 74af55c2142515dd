-- ===== src/Peaks/Groups.antt =====
-- The groups of internal/analysis/peaks.go: what `correlate` takes for one group is what the strong
-- pairs connect.
use rightsizer.Prelude.{
  ℕ, zero, suc, ◌+◌, ◌≤◌, ◌<◌, ◌≡◌, ◌↔◌, refl, sym, ◌∙◌, inl, inr, Option, none, some, List, [],
  ◌∷◌, arith, length, Among,
}
use mathlib.Core.Path.{subst}
use rightsizer.Stats.Demand.{value_at}
use rightsizer.Peaks.{
  find, union, union_rest, union_all, next_root, roots, roots_after, group_roots,
}
use rightsizer.Peaks.Forest.{
  Reaches, Reaches-unique, has_root, Grows, Along, Keeps, Found, find-Found,
}
use rightsizer.Peaks.Union.{Linked, IsEquivalence, Along-Reaches, Joined, union-Joined}

-- The least equivalence that holds of the pairs.
pub data Connected (ps : List (ℕ × ℕ)) : ℕ → ℕ → Type 0 where
  pair : (i j : ℕ) → Among (i, j) ps → Connected ps i j
  same : (i : ℕ) → Connected ps i i
  back : (i j : ℕ) → Connected ps i j → Connected ps j i
  chain : (i j k : ℕ) → Connected ps i j → Connected ps j k → Connected ps i k

Connected-IsEquivalence : (ps : List (ℕ × ℕ)) → IsEquivalence (Connected ps)
Connected-IsEquivalence ps = record {
  reflexive = λ a. same a;
  symmetric = λ a b h. back a b h;
  transitive = λ a b c h k. chain a b c h k;
}

Grows-le : (h : ℕ → ℕ) (u v : ℕ) (p : ℕ → ℕ) → u ≤ v → Grows h u p → Grows h v p
Grows-le h u v p l g k = (omega (arith, l, (g k).0), (g k).1)

module _ (R : ℕ → ℕ → Type 0) (eqv : IsEquivalence R) where
  -- What all unions make of the forest `p`, whose heights are at most `u`.
  abbrev AllJoined : ℕ → List (ℕ × ℕ) → (ℕ → ℕ) → Option (ℕ → ℕ) → Type 0
  AllJoined u ps p none = ⊥
  AllJoined u ps p (some q) =
      ((h : ℕ → ℕ) × Grows h (u + length ps) q)
      × ((i j : ℕ) → Among (i, j) ps → Linked q i j)
      × ((k l : ℕ) → Linked p k l → Linked q k l)
      × (((i j : ℕ) → Among (i, j) ps → R i j) → Along R p → Along R q)

  rest-AllJoined :
      (u i j : ℕ) (ps : List (ℕ × ℕ)) (p q : ℕ → ℕ) (o : Option (ℕ → ℕ))
      → Joined R eqv u i j p (some q)
      → AllJoined (suc u) ps q o
      → AllJoined u ((i, j) ∷ ps) p o
  rest-AllJoined u i j ps p q none x y = y
  rest-AllJoined u i j ps p q (some q') (g, l, k, a) ((h, g'), l', k', a') = (
    (h, Grows-le h _ _ q' (omega arith) g'),
    λ m n among. elim among [
      | inl e ↦ subst (λ (z : ℕ × ℕ). Linked q' (z.0) (z.1)) (sym e) (k' i j l)
      | inr b ↦ l' m n b
    ],
    λ m n z. k' m n (k m n z),
    λ all z. a' (λ m n b. all m n (inr b)) (a (all i j (inl refl)) z),
  )

  further-AllJoined :
      (u f i j : ℕ) (ps : List (ℕ × ℕ)) (p : ℕ → ℕ) (o : Option (ℕ → ℕ))
      → ((h q : ℕ → ℕ) → Grows h (suc u) q → AllJoined (suc u) ps q (union_all f ps q))
      → Joined R eqv u i j p o
      → AllJoined u ((i, j) ∷ ps) p (union_rest f (union_all f ps) o)
  further-AllJoined u f i j ps p none more x = x
  further-AllJoined u f i j ps p (some q) more x =
      let (h, g) = x.0 in rest-AllJoined u i j ps p q (union_all f ps q) x (more h q g)

  union_all-AllJoined :
      (h : ℕ → ℕ) (u f : ℕ) (ps : List (ℕ × ℕ)) (p : ℕ → ℕ)
      → u + length ps < f
      → Grows h u p
      → AllJoined u ps p (union_all f ps p)
  unfolding union_all
  union_all-AllJoined h u f [] p l g =
      ((h, Grows-le h u (u + 0) p (omega arith) g), λ i j b. absurd b, λ k l z. z, λ all z. z)
  union_all-AllJoined h u f ((i, j) ∷ ps) p l g =
      further-AllJoined u f i j ps p (union f i j p)
        (λ h' q g'. union_all-AllJoined h' (suc u) f ps q (omega (arith, l)) g')
        (union-Joined R eqv h u f i j p (omega (arith, l)) g)

module _ (R : ℕ → ℕ → Type 0) (eqv : IsEquivalence R) where
  -- The answers of `find`, one index after the other, are the roots.
  abbrev AreRoots : ℕ → ℕ → (ℕ → ℕ) → Option (List ℕ) → Type 0
  AreRoots i m p none = ⊥
  AreRoots i m p (some rs) = (k : ℕ) → k < m → Reaches p (i + k) (value_at k rs)

  cons-roots :
      (h : ℕ → ℕ) (u i m r : ℕ) (p q : ℕ → ℕ) (rs : List ℕ)
      → Grows h u p
      → Reaches p i r
      → Keeps R eqv.transitive p q
      → AreRoots (suc i) m q (some rs)
      → (k : ℕ) → k < suc m
      → Reaches p (i + k) (value_at k (r ∷ rs))
  cons-roots h u i m r p q rs g t (k, w, l) x zero b = subst (λ n. Reaches p n r) (omega arith) t
  cons-roots h u i m r p q rs g t (k, w, l) x (suc c) b =
      let (r0, t0) = has_root p h u (suc u) (suc i + c) g (omega arith) in
      let same = Reaches-unique (k (suc i + c) r0 t0) (x c (omega (arith, b))) in
      subst (λ n. Reaches p n (value_at c rs)) (omega arith) (subst (Reaches p (suc i + c)) same t0)

  cons-AreRoots :
      (h : ℕ → ℕ) (u i m r : ℕ) (p q : ℕ → ℕ) (o : Option (List ℕ))
      → Grows h u p
      → Reaches p i r
      → Keeps R eqv.transitive p q
      → AreRoots (suc i) m q o
      → AreRoots i (suc m) p (next_root (λ z. o) (some (q, r)))
  cons-AreRoots h u i m r p q none g t w x = x
  cons-AreRoots h u i m r p q (some rs) g t w x = cons-roots h u i m r p q rs g t w x

  next-AreRoots :
      (h : ℕ → ℕ) (u f i m : ℕ) (p : ℕ → ℕ) (o : Option ((ℕ → ℕ) × ℕ))
      → Grows h u p
      → ((q : ℕ → ℕ) → Grows h u q → AreRoots (suc i) m q (roots f (suc i) m q))
      → Found R eqv.transitive i p o
      → AreRoots i (suc m) p (next_root (roots f (suc i) m) o)
  next-AreRoots h u f i m p none g more x = x
  next-AreRoots h u f i m p (some (q, r)) g more (t, (k, w, l)) =
      cons-AreRoots h u i m r p q (roots f (suc i) m q) g t (k, w, l) (more q (w h u g))

  roots-AreRoots :
      (h : ℕ → ℕ) (u f i m : ℕ) (p : ℕ → ℕ) → u < f → Grows h u p → AreRoots i m p (roots f i m p)
  unfolding roots
  roots-AreRoots h u f i zero p l g = λ k b. absurd (omega (arith, b))
  roots-AreRoots h u f i (suc m) p l g =
      next-AreRoots h u f i m p (find f i p) g (λ q g'. roots-AreRoots h u f (suc i) m q l g')
        (find-Found R eqv.transitive h u f i p g (omega (arith, l)))

-- Two indices below `n` have one root exactly when the pairs connect them.
abbrev pub ArePartition : ℕ → List (ℕ × ℕ) → Option (List ℕ) → Type 0
ArePartition n ps none = ⊥
ArePartition n ps (some rs) =
    (i j : ℕ) → i < n → j < n → (value_at i rs ≡ value_at j rs) ↔ Connected ps i j

-- In a forest that has joined the pairs and keeps to their closure.
Connected-Linked :
    (ps : List (ℕ × ℕ)) (p h : ℕ → ℕ) (u : ℕ)
    → Grows h u p
    → ((i j : ℕ) → Among (i, j) ps → Linked p i j)
    → {i j : ℕ} → Connected ps i j
    → Linked p i j
Connected-Linked ps p h u g l (pair i j b) = l i j b
Connected-Linked ps p h u g l (same i) =
    let (r, t) = has_root p h u (suc u) i g (omega arith) in (r, t, t)
Connected-Linked ps p h u g l (back i j c) =
    let (r, s, t) = Connected-Linked ps p h u g l c in (r, t, s)
Connected-Linked ps p h u g l (chain i j k c d) =
    let (r, s, t) = Connected-Linked ps p h u g l c in
    let (r', s', t') = Connected-Linked ps p h u g l d in
    (r, s, subst (Reaches p k) (Reaches-unique s' t) t')

roots-ArePartition :
    (n u : ℕ) (ps : List (ℕ × ℕ)) (q h : ℕ → ℕ) (o : Option (List ℕ))
    → Grows h u q
    → ((i j : ℕ) → Among (i, j) ps → Linked q i j)
    → Along (Connected ps) q
    → AreRoots (Connected ps) (Connected-IsEquivalence ps) 0 n q o
    → ArePartition n ps o
roots-ArePartition n u ps q h none g l a x = x
roots-ArePartition n u ps q h (some rs) g l a x = λ i j bi bj.
    let eqv = Connected-IsEquivalence ps in
    let ri = subst (λ k. Reaches q k (value_at i rs)) (omega arith) (x i bi) in
    let rj = subst (λ k. Reaches q k (value_at j rs)) (omega arith) (x j bj) in
    (
      λ e. chain i (value_at i rs) j (Along-Reaches (Connected ps) eqv a ri) (
          back j (value_at i rs)
            (subst (Connected ps j) (sym e) (Along-Reaches (Connected ps) eqv a rj))),
      λ c.
          let (r, s, t) = Connected-Linked ps q h u g l c in
          Reaches-unique ri s ∙ Reaches-unique t rj,
    )

after-ArePartition :
    (n : ℕ) (ps : List (ℕ × ℕ)) (o : Option (ℕ → ℕ))
    → AllJoined (Connected ps) (Connected-IsEquivalence ps) 0 ps (λ k. k) o
    → ArePartition n ps (roots_after (suc (length ps)) n o)
after-ArePartition n ps none x = x
after-ArePartition n ps (some q) ((h, g), l, k, a) =
    let eqv = Connected-IsEquivalence ps in
    let grows = Grows-le h (0 + length ps) (length ps) q (omega arith) g in
    let along = a (λ i j b. pair i j b) (λ i. same i) in
    roots-ArePartition n (length ps) ps q h _ grows l along
      (roots-AreRoots (Connected ps) eqv h (length ps) (suc (length ps)) 0 n q (omega arith) grows)

-- The unions of `correlate` and the calls of `find` behind them end, on every list of pairs, and give
-- two VMs one root exactly when the pairs connect them, directly or through other VMs.
pub group_roots-ArePartition : (n : ℕ) (ps : List (ℕ × ℕ)) → ArePartition n ps (group_roots n ps)
unfolding group_roots
group_roots-ArePartition n ps = after-ArePartition n ps (union_all (suc (length ps)) ps (λ k. k)) (
    union_all-AllJoined (Connected ps) (Connected-IsEquivalence ps) (λ k. 0) 0 (suc (length ps)) ps
      (λ k. k) (omega arith) (λ k. (omega arith, λ n. absurd (n refl))))
