-- ===== src/Accuracy/Peak.antt =====
-- What `earlierPeak` of internal/analysis/accuracy.go reports.
use rightsizer.Prelude.{
  arith, ◌≡◌, refl, sym, ap, ◌⊎◌, inl, inr, Bool, true, false, some, List, [], ◌∷◌, ℤ, ltℤ, All,
  Among, Bool-cases, if-both,
}
use mathlib.Core.Path.{subst}
use rightsizer.Floats.{Floats}
use rightsizer.Text.{Text}
use rightsizer.Map.{lookup}
use rightsizer.Stats.Vm.{Point, ClusterStats, Store}
use rightsizer.Recommend.Order.{same}
use rightsizer.Recommend.Ranking.{IsOrder}
use rightsizer.Accuracy.{no_point, higher, highest, clear_peak, peak_of, peak_in, earlier_peak}

module _ (fl : Floats) (order : IsOrder fl) (start : ℤ) where
  abbrev pub IsNumber : Point fl → Type 0
  IsNumber p = fl.is_nan p.cpu_mhz ≡ false

  abbrev NoHigher : Point fl → Point fl → Type 0
  NoHigher p q = fl.le q.cpu_mhz p.cpu_mhz ≡ true

  -- Of the points of one side, none is higher.
  abbrev pub IsHighest : Bool → List (Point fl) → Point fl → Type 0
  IsHighest side pts p = All (λ q. ltℤ q.t start ≡ side → NoHigher p q) pts

  le_refl : (p : Point fl) → IsNumber p → NoHigher p p
  le_refl p h = elim (Bool-cases (fl.le p.cpu_mhz p.cpu_mhz)) [
    | inl e ↦ e
    | inr e ↦ order.le_total p.cpu_mhz p.cpu_mhz h h e
  ]

  higher-NoHigher :
      (q p : Point fl)
      → IsNumber q
      → IsNumber p
      → NoHigher (higher fl q p) p × NoHigher (higher fl q p) q × IsNumber (higher fl q p)
  higher-NoHigher q p hq hp =
      if-both (λ r. NoHigher r p × NoHigher r q × IsNumber r) (fl.lt p.cpu_mhz q.cpu_mhz)
        (λ e. (
          order.le_total q.cpu_mhz p.cpu_mhz hq hp
              (ground (arith, e, order.lt_not_le p.cpu_mhz q.cpu_mhz hp hq)),
          le_refl q hq,
          hq,
        ))
        (λ e. (le_refl p hp, ground (arith, e, order.lt_not_le p.cpu_mhz q.cpu_mhz hp hq), hp))

  -- What the loop makes of one side, from the point that it has.
  abbrev pub Kept : Bool → List (Point fl) → Point fl → Point fl → Type 0
  Kept side pts old new =
      IsNumber new
      × NoHigher new old
      × IsHighest side pts new
      × ((new ≡ old) ⊎ (Among new pts × (ltℤ new.t start ≡ side)))

  passed :
      (side : Bool) (q : Point fl) (pts : List (Point fl)) (old new : Point fl)
      → ¬ (ltℤ q.t start ≡ side)
      → Kept side pts old new
      → Kept side (q ∷ pts) old new
  passed side q pts old new other (n, h, a, w) =
      (n, h, (λ e. absurd (other e), a), elim w [ inl e ↦ inl e | inr (m, e) ↦ inr (inr m, e) ])

  taken :
      (side : Bool) (q : Point fl) (pts : List (Point fl)) (old new : Point fl)
      → IsNumber q
      → IsNumber old
      → ltℤ q.t start ≡ side
      → Kept side pts (higher fl q old) new
      → Kept side (q ∷ pts) old new
  taken side q pts old new hq ho e (n, h, a, w) =
      let (over_old, over_q, num) = higher-NoHigher q old hq ho in
      let up = λ (r : Point fl) (k : NoHigher (higher fl q old) r).
        order.le_trans r.cpu_mhz (higher fl q old).cpu_mhz new.cpu_mhz k h in
      (
        n,
        up old over_old,
        (λ f. up q over_q, a),
        elim w [
          | inl f ↦
              if-both
                (λ r. new ≡ r → (new ≡ old) ⊎ (Among new (q ∷ pts) × (ltℤ new.t start ≡ side)))
                (fl.lt old.cpu_mhz q.cpu_mhz)
                (λ g k. inr (inl k, subst (λ (z : Point fl). ltℤ z.t start ≡ side) (sym k) e))
                (λ g k. inl k) f
          | inr (m, f) ↦ inr (inr m, f)
        ],
      )

  highest-Kept :
      (pts : List (Point fl)) (b d : Point fl)
      → All IsNumber pts
      → IsNumber b
      → IsNumber d
      → let (b', d') = highest fl start pts (b, d) in Kept true pts b b' × Kept false pts d d'
  unfolding highest
  highest-Kept [] b d hs hb hd =
      ((hb, le_refl b hb, tt, inl refl), (hd, le_refl d hd, tt, inl refl))
  highest-Kept (q ∷ pts) b d (hq, hs) hb hd =
      let left = highest fl start pts (higher fl q b, d) in
      let right = highest fl start pts (b, higher fl q d) in
      let P : Bool → Type 0 = λ c.
        let r : Point fl × Point fl = elim c [ true ↦ left | false ↦ right ] in
        Kept true (q ∷ pts) b r.0 × Kept false (q ∷ pts) d r.1 in
      elim (Bool-cases (ltℤ q.t start)) [
        | inl e ↦ subst P (sym e) (
            let (k, l) = highest-Kept pts (higher fl q b) d hs (higher-NoHigher q b hq hb).2 hd in
            (taken true q pts b left.0 hq hb e k, passed false q pts d left.1 (λ f. absurd (cc)) l))
        | inr e ↦ subst P (sym e) (
            let (k, l) = highest-Kept pts b (higher fl q d) hs hb (higher-NoHigher q d hq hd).2 in
            (
              passed true q pts b right.0 (λ f. absurd (cc)) k,
              taken false q pts d right.1 hq hd e l,
            ))
      ]

  -- `earlierPeak` compares a highest point before the start of the window with a highest one from then
  -- on, or with none where that side has no point above zero: it reports what `clear_peak` makes of
  -- the two. The demand of no point is NaN, and the other floats are in order.
  pub earlier_peak_lem :
      (hist : Store fl) (name : Text) (cap : fl.F) (cs : ClusterStats fl)
      → same fl cap (fl.of_int 0) ≡ false
      → lookup name hist.clusters ≡ some cs
      → All IsNumber cs.points
      → IsNumber (no_point fl)
      → (b : Point fl) × (d : Point fl) × (earlier_peak fl (some hist) name start cap
          ≡ clear_peak fl cap (b, d))
        × Kept true cs.points (no_point fl) b
        × Kept false cs.points (no_point fl) d
  unfolding earlier_peak peak_in
  earlier_peak_lem hist name cap cs some_cap found numbers zero_number =
      let r = highest fl start cs.points (no_point fl, no_point fl) in
      let (kb, kd) =
        highest-Kept cs.points (no_point fl) (no_point fl) numbers zero_number zero_number in
      (r.0, r.1, rw some_cap (ap (peak_of fl start cap) found), kb, kd)
