-- ===== src/Recommend/Ranking.antt =====
-- `SortFindings` of internal/analysis/recommend.go: the order in which findings are reported.
use mathlib.Core.List.{Perm}
use mathlib.Core.List.Perm
use rightsizer.Prelude.{
  ◌<◌, ◌≡◌, refl, ◌⊎◌, inl, inr, Bool, true, false, not, List, [], ◌∷◌, arith, All, if-both,
}
use rightsizer.Floats.{Floats}
use rightsizer.Text.{Text}
use rightsizer.Recommend.Data.{level, Finding}
use rightsizer.Recommend.Cluster.{text_lt}
use rightsizer.Recommend.Order.{insert_by, sort_by, before, sort_findings}

pub text_lt_asym : (s t : Text) → text_lt s t ≡ true → text_lt t s ≡ false
unfolding text_lt
text_lt_asym [] [] h = refl
text_lt_asym [] (d ∷ t) h = refl
text_lt_asym (c ∷ s) [] h = cc
text_lt_asym (c ∷ s) (d ∷ t) h = ground (arith, text_lt_asym s t)

pub text_le_trans : (s t u : Text) → text_lt t s ≡ false → text_lt u t ≡ false → text_lt u s ≡ false
unfolding text_lt
text_le_trans [] t u h k = refl
text_le_trans (c ∷ s) [] u h k = cc
text_le_trans (c ∷ s) (d ∷ t) [] h k = cc
text_le_trans (c ∷ s) (d ∷ t) (e ∷ u) h k = ground (arith, text_le_trans s t u)

module _ {A : Type 0} (before : A → A → Bool) where
  insert_by-perm : (x : A) (xs : List A) → Perm (insert_by before x xs) (x ∷ xs)
  unfolding insert_by
  insert_by-perm x [] = Perm.rfl
  insert_by-perm x (y ∷ ys) =
      if-both (λ l. Perm l (x ∷ y ∷ ys)) (before y x)
        (λ e. Perm.trans (Perm.cons y (insert_by-perm x ys)) (Perm.swap x y ys)) (λ e. Perm.rfl)

  pub sort_by-perm : (xs : List A) → Perm (sort_by before xs) xs
  unfolding sort_by
  sort_by-perm [] = Perm.rfl
  sort_by-perm (x ∷ xs) =
      Perm.trans (insert_by-perm x (sort_by before xs)) (Perm.cons x (sort_by-perm xs))

  pub All-insert_by :
      (P : A → Type 0) (x : A) (xs : List A) → P x → All P xs → All P (insert_by before x xs)
  unfolding insert_by
  All-insert_by P x [] h k = (h, k)
  All-insert_by P x (y ∷ ys) h (k, ks) =
      if-both (All P) (before y x) (λ e. (k, All-insert_by P x ys h ks)) (λ e. (h, (k, ks)))

  pub All-sort_by : (P : A → Type 0) (xs : List A) → All P xs → All P (sort_by before xs)
  unfolding sort_by
  All-sort_by P [] h = tt
  All-sort_by P (x ∷ xs) (h, hs) = All-insert_by P x (sort_by before xs) h (All-sort_by P xs hs)

-- Every earlier element is related to every later one.
abbrev pub Ordered : {A : Type 0} → (A → A → Type 0) → List A → Type 0
Ordered R [] = Unit
Ordered R (x ∷ xs) = All (R x) xs × Ordered R xs

All-imp :
    {A : Type 0} (P Q : A → Type 0) (xs : List A) → ((a : A) → P a → Q a) → All P xs → All Q xs
All-imp P Q [] f h = tt
All-imp P Q (x ∷ xs) f (h, hs) = (f x h, All-imp P Q xs f hs)

module _ {A : Type 0} (before : A → A → Bool) (P : A → Type 0) (R : A → A → Type 0)
    (trans : (a b c : A) → R a b → R b c → R a c)
    (yes : (a b : A) → P a → P b → before a b ≡ true → R a b)
    (no : (a b : A) → P a → P b → before b a ≡ false → R a b) where
  insert_by-Ordered :
      (x : A) (xs : List A) → P x → All P xs → Ordered R xs → Ordered R (insert_by before x xs)
  unfolding insert_by
  insert_by-Ordered x [] h hs o = (tt, tt)
  insert_by-Ordered x (y ∷ ys) h (k, ks) (r, o) =
      if-both (Ordered R) (before y x)
        (λ e. (All-insert_by before (R y) x ys (yes y x k h e) r, insert_by-Ordered x ys h ks o))
        (λ e.
          let xy = no x y h k e in ((xy, All-imp (R y) (R x) ys (λ z. trans x y z xy) r), (r, o)))

  pub sort_by-Ordered : (xs : List A) → All P xs → Ordered R (sort_by before xs)
  unfolding sort_by
  sort_by-Ordered [] hs = tt
  sort_by-Ordered (x ∷ xs) (h, hs) =
      insert_by-Ordered x (sort_by before xs) h (All-sort_by before P xs hs) (sort_by-Ordered xs hs)

-- IEEE 754: the numbers other than NaN are in order.
pub record IsOrder (fl : Floats) : Type 0 where
  pub lt_not_le :
      (a b : fl.F) → fl.is_nan a ≡ false → fl.is_nan b ≡ false → fl.lt a b ≡ not (fl.le b a)
  pub le_total :
      (a b : fl.F)
      → fl.is_nan a ≡ false
      → fl.is_nan b ≡ false
      → fl.le a b ≡ false
      → fl.le b a ≡ true
  pub le_trans : (a b c : fl.F) → fl.le a b ≡ true → fl.le b c ≡ true → fl.le a c ≡ true

module _ (fl : Floats) (order : IsOrder fl) where
  -- `a` is more severe than `b`, or as severe with no smaller impact, and by name where these are equal.
  abbrev pub Ranks : Finding fl → Finding fl → Type 0
  Ranks a b =
      (level b.severity < level a.severity)
      ⊎ ((level a.severity ≡ level b.severity)
          × (fl.le b.impact a.impact ≡ true)
          × (fl.le a.impact b.impact ≡ true → text_lt b.vm a.vm ≡ false))

  abbrev pub HasImpact : Finding fl → Type 0
  HasImpact f = fl.is_nan f.impact ≡ false

  Ranks-trans : (a b c : Finding fl) → Ranks a b → Ranks b c → Ranks a c
  Ranks-trans a b c (inl h) (inl k) = inl (omega (arith, h, k))
  Ranks-trans a b c (inl h) (inr (e, _, _)) = inl (omega (arith, h, e))
  Ranks-trans a b c (inr (e, _, _)) (inl k) = inl (omega (arith, k, e))
  Ranks-trans a b c (inr (e, h, p)) (inr (g, k, q)) =
      let all = order.le_trans c.impact b.impact a.impact k h in
      inr (
        omega (arith, e, g),
        all,
        λ r.
            text_le_trans a.vm b.vm c.vm (p (order.le_trans a.impact c.impact b.impact r k))
              (q (order.le_trans b.impact a.impact c.impact h r)),
      )

  before-Ranks : (a b : Finding fl) → HasImpact a → HasImpact b → before fl a b ≡ true → Ranks a b
  unfolding before
  before-Ranks a b h k e =
      let ab = order.lt_not_le b.impact a.impact k h in
      let total = order.le_total a.impact b.impact h k in
      let asym = text_lt_asym a.vm b.vm in ground (arith, e, ab, total, asym)

  not_before-Ranks :
      (a b : Finding fl) → HasImpact a → HasImpact b → before fl b a ≡ false → Ranks a b
  unfolding before
  not_before-Ranks a b h k e =
      let ba = order.lt_not_le a.impact b.impact h k in
      let total = order.le_total b.impact a.impact k h in ground (arith, e, ba, total)

  -- `SortFindings` reports the same findings, each as often, with the more severe before the less
  -- severe, equally severe ones by falling impact, and those of one impact by name, if the impact of
  -- none is NaN and the other floats are in order.
  pub sort_findings-Ordered :
      (fs : List (Finding fl))
      → All HasImpact fs
      → Perm (sort_findings fl fs) fs × Ordered Ranks (sort_findings fl fs)
  unfolding sort_findings
  sort_findings-Ordered fs h = (
    sort_by-perm (before fl) fs,
    sort_by-Ordered (before fl) HasImpact Ranks Ranks-trans before-Ranks not_before-Ranks fs h,
  )
