-- ===== src/Peaks.antt =====
-- internal/analysis/peaks.go: which VMs peak together. `correlate` is modelled from the loads that its
-- sort and its limit of 200 leave, in their order. An array of indices is a function; `find` and what
-- calls it run on fuel, and `none` is running out of it.
pub mod Forest
pub mod Union
pub mod Groups
pub mod Correlate
mod Tests
use rightsizer.Prelude.{
  ℕ, zero, suc, ◌+◌, ◌*◌, ◌≡◌, Bool, true, false, ◌&&◌, ◌||◌, Option, none, some, List, [], ◌∷◌,
  ◌++◌, map, ltb, ◌==◌, if◌then◌else◌, length,
}
use rightsizer.Floats.{Floats}
use rightsizer.Text.{Text}
use rightsizer.Stats.Demand.{Demand}
use rightsizer.Recommend.Data.{ratio}

-- a[i] = v
abbrev pub set : {A : Type 0} → ℕ → A → (ℕ → A) → ℕ → A
set i v a k = if k == i then v else a k

-- parent[i] = parent[parent[i]]
abbrev pub halved : ℕ → (ℕ → ℕ) → ℕ → ℕ
halved i p = set i (p (p i)) p

unfoldable pub find : ℕ → ℕ → (ℕ → ℕ) → Option ((ℕ → ℕ) × ℕ)
find zero i p = none
find (suc f) i p = elim (p i == i) [
  | true ↦ some (p, i)
  | false ↦ find f (halved i p i) (halved i p)
]

abbrev linked : ℕ → Option ((ℕ → ℕ) × ℕ) → Option (ℕ → ℕ)
linked a none = none
linked a (some (p, b)) = some (set a b p)

abbrev found : ℕ → ℕ → Option ((ℕ → ℕ) × ℕ) → Option (ℕ → ℕ)
found f j none = none
found f j (some (p, a)) = linked a (find f j p)

-- parent[find(i)] = find(j)
unfoldable pub union : ℕ → ℕ → ℕ → (ℕ → ℕ) → Option (ℕ → ℕ)
unfolding find
union f i j p = found f j (find f i p)

abbrev union_rest : (f : ℕ) → ((ℕ → ℕ) → Option (ℕ → ℕ)) → Option (ℕ → ℕ) → Option (ℕ → ℕ)
union_rest f more none = none
union_rest f more (some p) = more p

-- The unions of a list of pairs, in order.
unfoldable pub union_all : ℕ → List (ℕ × ℕ) → (ℕ → ℕ) → Option (ℕ → ℕ)
unfolding union
union_all f [] p = some p
union_all f ((i, j) ∷ ps) p = union_rest f (union_all f ps) (union f i j p)

-- `find` of one index after the other, each in the parents that the one before left.
abbrev next_root : ((ℕ → ℕ) → Option (List ℕ)) → Option ((ℕ → ℕ) × ℕ) → Option (List ℕ)
next_root more none = none
next_root more (some (p, r)) = elim (more p) [ none ↦ none | some rs ↦ some (r ∷ rs) ]

unfoldable pub roots : ℕ → ℕ → ℕ → (ℕ → ℕ) → Option (List ℕ)
unfolding find
roots f i zero p = some []
roots f i (suc m) p = next_root (roots f (suc i) m) (find f i p)

abbrev roots_after : ℕ → ℕ → Option (ℕ → ℕ) → Option (List ℕ)
roots_after f n none = none
roots_after f n (some p) = roots f 0 n p

-- The root of every VM behind the unions of `ps`, with more fuel than there are unions.
unfoldable pub group_roots : ℕ → List (ℕ × ℕ) → Option (List ℕ)
unfolding union_all roots
group_roots n ps = let f = suc (length ps) in roots_after f n (union_all f ps (λ k. k))
