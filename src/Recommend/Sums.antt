-- ===== src/Recommend/Sums.antt =====
-- Sums over the clusters of internal/analysis/recommend.go, in a map and in a sorted list.
use rightsizer.Prelude.{
  ℕ, ◌+◌, ◌≡◌, refl, sym, ap, ◌∙◌, Bool, Option, none, some, List, [], ◌∷◌, ◌++◌, arith, length,
  Bool-cases, inl, inr,
}
use rightsizer.Floats.{Floats}
use rightsizer.Text.{Text}
use rightsizer.Text.Equality.{text_eq}
use rightsizer.Map.{Map, lookup, insert}
use rightsizer.Recommend.Order.{insert_by, sort_by}
use rightsizer.Recommend.Cluster.{Cluster, new_cluster}
use rightsizer.Recommend.Analyze.{known, with_cluster}

module _ {A : Type 0} (f : A → ℕ) where
  abbrev pub sum_of : List A → ℕ
  sum_of [] = 0
  sum_of (x ∷ xs) = f x + sum_of xs

  abbrev pub sum_map : Map A → ℕ
  sum_map [] = 0
  sum_map ((k, x) ∷ m) = f x + sum_map m

  pub sum_of-append : (xs ys : List A) → sum_of (xs ++ ys) ≡ sum_of xs + sum_of ys
  sum_of-append [] ys = omega arith
  sum_of-append (x ∷ xs) ys = omega (arith, sum_of-append xs ys)

  sum_of-insert_by :
      (before : A → A → Bool) (x : A) (xs : List A)
      → sum_of (insert_by before x xs) ≡ f x + sum_of xs
  unfolding insert_by
  sum_of-insert_by before x [] = refl
  sum_of-insert_by before x (y ∷ ys) = ground (arith, sum_of-insert_by before x ys)

  pub sum_of-sort_by :
      (before : A → A → Bool) (xs : List A) → sum_of (sort_by before xs) ≡ sum_of xs
  unfolding sort_by
  sum_of-sort_by before [] = refl
  sum_of-sort_by before (x ∷ xs) =
      sum_of-insert_by before x (sort_by before xs) ∙ ap (λ n. f x + n) (sum_of-sort_by before xs)

abbrev old : {A : Type 0} → (A → ℕ) → Option A → ℕ
old f none = 0
old f (some x) = f x

-- A length is the sum of ones.
length-sum_of : {A : Type 0} (xs : List A) → sum_of (λ x. 1) xs ≡ length xs
length-sum_of [] = refl
length-sum_of (x ∷ xs) = omega (arith, length-sum_of xs)

pub length-sort_by :
    {A : Type 0} (before : A → A → Bool) (xs : List A) → length (sort_by before xs) ≡ length xs
length-sort_by before xs =
    sym (length-sum_of (sort_by before xs)) ∙ sum_of-sort_by (λ x. 1) before xs ∙ length-sum_of xs

sum_map-insert :
    {A : Type 0} (f : A → ℕ) (k : Text) (x : A) (m : Map A)
    → sum_map f (insert k x m) + old f (lookup k m) ≡ sum_map f m + f x
unfolding insert lookup
sum_map-insert f k x [] = omega arith
sum_map-insert f k x ((j, y) ∷ m) = elim (Bool-cases (text_eq j k)) [
  | inl e ↦ rw e (omega arith)
  | inr e ↦ rw e (omega (arith, sum_map-insert f k x m))
]

module _ (fl : Floats) where
  old-known :
      (f : Cluster fl → ℕ) (n : Text) (o : Option (Cluster fl))
      → f (new_cluster fl n) ≡ 0
      → old f o ≡ f (known fl n o)
  old-known f n none z = ground (arith, z)
  old-known f n (some c) z = refl

  -- A change that adds `d` to a field of one cluster adds it to the sum.
  pub sum_map-with_cluster :
      (f : Cluster fl → ℕ) (d : ℕ) (n : Text) (g : Cluster fl → Cluster fl) (m : Map (Cluster fl))
      → f (new_cluster fl n) ≡ 0
      → ((c : Cluster fl) → f (g c) ≡ f c + d)
      → sum_map f (with_cluster fl n g m) ≡ sum_map f m + d
  unfolding with_cluster
  sum_map-with_cluster f d n g m z h =
      let c = known fl n (lookup n m) in
      omega (arith, sum_map-insert f n (g c) m, old-known f n (lookup n m) z, h c)
