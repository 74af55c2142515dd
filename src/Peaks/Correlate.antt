-- ===== src/Peaks/Correlate.antt =====
-- `pearson` and `correlate` of internal/analysis/peaks.go. The groups and the pairs are those before the
-- last sorts, which leave the order of equal ones open, and before the limit of five.
use rightsizer.Prelude.{
  ℕ, suc, Bool, false, ◌&&◌, ◌||◌, Option, none, some, List, [], ◌∷◌, ◌++◌, ltb, ◌==◌,
  if◌then◌else◌, length,
}
use rightsizer.Floats.{Floats}
use rightsizer.Text.{Text}
use rightsizer.Stats.Demand.{Demand}
use rightsizer.Recommend.Data.{ratio}
use rightsizer.Peaks.{set, group_roots}

module _ (fl : Floats) where
  pub record Load : Type 0 where
    pub name : Text
    pub series : Demand fl
    pub peak : fl.F

  pub record Sums : Type 0 where
    pub n : fl.F
    pub sx : fl.F
    pub sy : fl.F
    pub sxx : fl.F
    pub syy : fl.F
    pub sxy : fl.F

  abbrev no_sums : Sums
  no_sums = let z = fl.of_int 0 in record { n = z; sx = z; sy = z; sxx = z; syy = z; sxy = z }

  abbrev with_slot : fl.F → fl.F → Sums → Sums
  with_slot x y s = record {
    n = fl.add s.n (fl.of_int 1);
    sx = fl.add s.sx x;
    sy = fl.add s.sy y;
    sxx = fl.add s.sxx (fl.mul x x);
    syy = fl.add s.syy (fl.mul y y);
    sxy = fl.add s.sxy (fl.mul x y);
  }

  -- The loop over the slots, up to the end of the shorter series.
  unfoldable pub add_slots : List fl.F → List ℕ → List fl.F → List ℕ → Sums → Sums
  add_slots (x ∷ xs) (a ∷ ms) (y ∷ ys) (b ∷ ns) s =
      add_slots xs ms ys ns (if a == 0 || b == 0 then s else with_slot x y s)
  add_slots _ _ _ _ s = s

  abbrev variance : fl.F → fl.F → fl.F → fl.F
  variance n sx sxx = fl.sub sxx (fl.div (fl.mul sx sx) n)

  unfoldable pub pearson : Load → Load → Option fl.F
  unfolding add_slots
  pearson a b =
      let s = add_slots a.series.demand a.series.slots b.series.demand b.series.slots no_sums in
      let cov = fl.sub s.sxy (fl.div (fl.mul s.sx s.sy) s.n) in
      let vx = variance s.n s.sx s.sxx in
      let vy = variance s.n s.sy s.syy in
      if fl.lt s.n (fl.of_int 48)
      then none
      else (if fl.le vx (fl.of_int 0) || fl.le vy (fl.of_int 0)
          then none
          else some (fl.div cov (fl.sqrt (fl.mul vx vy))))

  -- The pairs of loads with their correlation, in the order of the two loops.
  unfoldable pub row : ℕ → ℕ → Load → List Load → List (ℕ × ℕ × Option fl.F)
  unfolding pearson
  row i j a [] = []
  row i j a (b ∷ bs) = (i, j, pearson a b) ∷ row i (suc j) a bs

  unfoldable pub rows : ℕ → List Load → List (ℕ × ℕ × Option fl.F)
  unfolding row
  rows i [] = []
  rows i (a ∷ ls) = row i (suc i) a ls ++ rows (suc i) ls

  abbrev pub is_strong : Option fl.F → Bool
  is_strong none = false
  is_strong (some r) = fl.le (ratio fl 8 10) r

  unfoldable pub strong : List (ℕ × ℕ × Option fl.F) → List (ℕ × ℕ)
  strong [] = []
  strong ((i, j, o) ∷ cs) = let rest = strong cs in if is_strong o then (i, j) ∷ rest else rest

  abbrev raise : ℕ → ℕ → Option fl.F → (ℕ → fl.F) → ℕ → fl.F
  raise i j none s = s
  raise i j (some r) s = let s' = set i (fl.larger (s i) r) s in set j (fl.larger (s' j) r) s'

  -- The strongest correlation of every load.
  unfoldable pub strongest : List (ℕ × ℕ × Option fl.F) → (ℕ → fl.F) → ℕ → fl.F
  strongest [] s = s
  strongest ((i, j, o) ∷ cs) s = strongest cs (if is_strong o then raise i j o s else s)

  -- The pairs with a correlation of -0.4 or less.
  abbrev is_complement : Option fl.F → Bool
  is_complement none = false
  is_complement (some r) = fl.le r (fl.sub (fl.of_int 0) (ratio fl 4 10))

  unfoldable pub complements : List (ℕ × ℕ × Option fl.F) → List (ℕ × ℕ)
  complements [] = []
  complements ((i, j, o) ∷ cs) =
      let rest = complements cs in if is_complement o then (i, j) ∷ rest else rest

  pub record Group : Type 0 where
    pub root : ℕ
    pub vms : List Text
    pub r : fl.F

  abbrev joining : Text → fl.F → Group → Group
  joining name r g = record g { vms = g.vms ++ (name ∷ []); r = fl.larger g.r r }

  -- groups[root], with a new member
  unfoldable pub add_member : ℕ → Text → fl.F → List Group → List Group
  add_member root name r [] =
      record { root = root; vms = name ∷ []; r = fl.larger (fl.of_int 0) r } ∷ []
  add_member root name r (g ∷ gs) =
      let rest = add_member root name r gs in
      if g.root == root then joining name r g ∷ gs else g ∷ rest

  -- The loop over the loads with their roots; a load that is strong with none is passed over.
  unfoldable pub collect : ℕ → List Load → List ℕ → (ℕ → fl.F) → List Group → List Group
  unfolding add_member
  collect i (l ∷ ls) (r ∷ rs) s gs =
      let z = fl.of_int 0 in
      let alone = r == i && (fl.le (s i) z && fl.le z (s i)) in
      collect (suc i) ls rs s (if alone then gs else add_member r l.name (s i) gs)
  collect i _ _ s gs = gs

  unfoldable pub several : List Group → List Group
  several [] = []
  several (g ∷ gs) = let rest = several gs in if ltb 1 (length g.vms) then g ∷ rest else rest

  abbrev grouped : List Load → (ℕ → fl.F) → Option (List ℕ) → Option (List Group)
  grouped ls s none = none
  grouped ls s (some rs) = some (several (collect 0 ls rs s []))

  unfoldable pub correlate : List Load → Option (List Group) × List (ℕ × ℕ)
  unfolding rows strong strongest complements group_roots collect several
  correlate ls =
      let cs = rows 0 ls in
      let s = strongest cs (λ k. fl.of_int 0) in
      (grouped ls s (group_roots (length ls) (strong cs)), complements cs)
