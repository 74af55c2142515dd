-- ===== src/Io/Load/Flushed.antt =====
-- The five-minute points of `IOStats` of internal/analysis/io.go, after any samples and flushes.
use mathlib.Core.List.{Perm}
use rightsizer.Prelude.{
  ℕ, suc, ◌+◌, ◌<◌, ◌≡◌, refl, ap, ◌∙◌, inl, inr, Bool, not, ◌&&◌, List, [], ◌∷◌, ◌++◌, map, arith,
  length, length-append, ℤ, ◌≤ℤ◌, ltℤ→ge, All, Bool-cases, if-both, filter_by,
}
use rightsizer.Floats.{Floats}
use rightsizer.Recommend.Order.{insert_by, sort_by}
use rightsizer.Recommend.Ranking.{sort_by-perm, sort_by-Ordered, Ordered}
use rightsizer.Io.{Logs, entry, set_entry}
use rightsizer.Io.Load.{
  five_minutes, same_time, IoSample, IoPoint, Pending, IoStats, record_ops, record_kb, record_size,
  record_latency, record_point, begun, joined, add_sum, is_due, point, earlier, flush,
}

module _ {A : Type 0} where
  length-insert_by :
      (before : A → A → Bool) (x : A) (xs : List A)
      → length (insert_by before x xs) ≡ suc (length xs)
  unfolding insert_by
  length-insert_by before x [] = refl
  length-insert_by before x (y ∷ ys) =
      if-both (λ (l : List A). length l ≡ suc (suc (length ys))) (before y x)
        (λ e. ap suc (length-insert_by before x ys)) (λ e. refl)

  length-sort_by : (before : A → A → Bool) (xs : List A) → length (sort_by before xs) ≡ length xs
  unfolding sort_by
  length-sort_by before [] = refl
  length-sort_by before (x ∷ xs) =
      length-insert_by before x (sort_by before xs) ∙ ap suc (length-sort_by before xs)

  -- What passes a test and what does not are all of the list.
  length-filters :
      (p : A → Bool) (xs : List A)
      → length (filter_by p xs) + length (filter_by (λ x. not (p x)) xs) ≡ length xs
  length-filters p [] = refl
  length-filters p (x ∷ xs) = elim (Bool-cases (p x)) [
    | inl e ↦ rw e (omega (arith, length-filters p xs))
    | inr e ↦ rw e (omega (arith, length-filters p xs))
  ]

length-map : {A B : Type 0} (f : A → B) (xs : List A) → length (map f xs) ≡ length xs
length-map f [] = refl
length-map f (x ∷ xs) = ap suc (length-map f xs)

module _ (fl : Floats) (lg : Logs fl) where
  pub data Step : Type 0 where
    sample : IoSample fl → ℤ → ℕ → Bool → Step
    flushing : ℤ → Step

  abbrev pub step : Step → IoStats fl lg → IoStats fl lg
  unfolding add_sum flush
  step (sample a t w points) st = add_sum fl lg a t w points st
  step (flushing before) st = flush fl lg before st

  unfoldable pub run : List Step → IoStats fl lg → IoStats fl lg
  unfolding step
  run [] st = st
  run (s ∷ ss) st = run ss (step s st)

  -- Every pending average has a sample.
  abbrev pub IsPending : IoStats fl lg → Type 0
  IsPending st = All (λ e. 0 < e.1.n) st.acc

  set_entry-All :
      (t : ℤ) (p : Pending fl) (m : List (ℤ × Pending fl))
      → 0 < p.n
      → All (λ e. 0 < e.1.n) m
      → All (λ e. 0 < e.1.n) (set_entry same_time t p m)
  unfolding set_entry
  set_entry-All t p [] h hs = (h, tt)
  set_entry-All t p ((u, q) ∷ m) h (k, ks) =
      if-both (All (λ e. 0 < e.1.n)) (same_time u t) (λ e. (h, ks))
        (λ e. (k, set_entry-All t p m h ks))

  All-filter_by :
      (P : ℤ × Pending fl → Type 0) (p : ℤ × Pending fl → Bool) (xs : List (ℤ × Pending fl))
      → All P xs
      → All P (filter_by p xs)
  All-filter_by P p [] h = tt
  All-filter_by P p (x ∷ xs) (h, hs) =
      if-both (All P) (p x) (λ e. (h, All-filter_by P p xs hs)) (λ e. All-filter_by P p xs hs)

  counted-IsPending :
      (a : IoSample fl) (w : ℕ) (st : IoStats fl lg)
      → IsPending st
      → IsPending (
          record_latency fl lg a w
            (record_size fl lg a w (record_kb fl lg a w (record_ops fl lg a w st))))
  unfolding record_ops record_kb record_latency
  counted-IsPending a w st h =
      if-both IsPending (fl.lt (fl.of_int 0) a.lat_io) (λ e. sized) (λ e. sized)
    where
      counted : IsPending (record_ops fl lg a w st)
      counted = if-both IsPending a.ops (λ e. h) (λ e. h)

      thrown : IsPending (record_kb fl lg a w (record_ops fl lg a w st))
      thrown = if-both IsPending a.kb (λ e. counted) (λ e. counted)

      sized : IsPending (record_size fl lg a w (record_kb fl lg a w (record_ops fl lg a w st)))
      sized = if-both IsPending (a.ops && a.kb) (λ e. thrown) (λ e. thrown)

  point-IsPending :
      (a : IoSample fl) (t : ℤ) (points : Bool) (st : IoStats fl lg)
      → IsPending st
      → IsPending (record_point fl lg a t points st)
  unfolding record_point
  point-IsPending a t points st h =
      let bt = five_minutes t in
      if-both IsPending points
        (λ e.
          set_entry-All bt (joined fl lg a (begun fl lg (entry same_time bt st.acc))) st.acc
            (omega arith) h)
        (λ e. h)

  step-IsPending : (s : Step) (st : IoStats fl lg) → IsPending st → IsPending (step s st)
  unfolding step add_sum flush
  step-IsPending (sample a t w points) st h =
      point-IsPending a t points
        (record_latency fl lg a w
          (record_size fl lg a w (record_kb fl lg a w (record_ops fl lg a w st))))
        (counted-IsPending a w st h)
  step-IsPending (flushing before) st h =
      All-filter_by (λ e. 0 < e.1.n) (λ e. not (is_due fl lg before e)) st.acc h

  run-IsPending : (ss : List Step) (st : IoStats fl lg) → IsPending st → IsPending (run ss st)
  unfolding run
  run-IsPending [] st h = h
  run-IsPending (s ∷ ss) st h = run-IsPending ss (step s st) (step-IsPending s st h)

  -- What a flush leaves behind is not before its time.
  left-Later :
      (before : ℤ) (m : List (ℤ × Pending fl))
      → All (λ e. 0 < e.1.n) m
      → All (λ e. before ≤ℤ e.0) (filter_by (λ e. not (is_due fl lg before e)) m)
  left-Later before [] h = tt
  left-Later before ((t, p) ∷ m) (h, hs) = elim (Bool-cases (is_due fl lg before (t, p))) [
    | inl e ↦ rw e (left-Later before m hs)
    | inr e ↦ rw e ((ground (arith, h, e, ltℤ→ge t before), left-Later before m hs))
  ]

  abbrev Any : IoPoint fl → Type 0
  Any a = Unit

  All-Any : (ps : List (IoPoint fl)) → All Any ps
  All-Any [] = tt
  All-Any (p ∷ ps) = (tt, All-Any ps)

  earlier-Ordered :
      (ps : List (IoPoint fl)) → Ordered (λ a b. a.t ≤ℤ b.t) (sort_by (earlier fl lg) ps)
  earlier-Ordered ps =
      sort_by-Ordered (earlier fl lg) Any (λ (a b : IoPoint fl). a.t ≤ℤ b.t)
        (λ a b c h k. omega (arith, h, k)) (λ a b h k e. ground (arith, e))
        (λ a b h k e. ground (arith, e)) ps (All-Any ps)

  -- After any samples and flushes of a datastore's load that begins with none pending, a flush turns
  -- each pending average that began before its time into one point and loses none. The points then
  -- stand in the order of their times, and what is still pending did not begin before that time.
  pub run-flush :
      (ss : List Step) (before : ℤ) (st : IoStats fl lg)
      → st.acc ≡ []
      → let old = run ss st in
        let new = flush fl lg before old in
        Perm new.points (old.points ++ map (point fl lg) (filter_by (is_due fl lg before) old.acc))
        × (length new.points + length new.acc ≡ length old.points + length old.acc)
        × Ordered (λ a b. a.t ≤ℤ b.t) new.points
        × All (λ e. before ≤ℤ e.0) new.acc
  unfolding flush
  run-flush ss before st idle =
      let old = run ss st in
      let due = filter_by (is_due fl lg before) old.acc in
      let all = old.points ++ map (point fl lg) due in
      (
        sort_by-perm (earlier fl lg) all,
        omega (
          arith,
          length-sort_by (earlier fl lg) all,
          length-append old.points (map (point fl lg) due),
          length-map (point fl lg) due,
          length-filters (is_due fl lg before) old.acc,
        ),
        earlier-Ordered all,
        left-Later before old.acc (run-IsPending ss st (rw idle tt)),
      )
