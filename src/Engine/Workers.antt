-- ===== src/Engine/Workers.antt =====
-- The goroutines of a source of internal/engine/source.go, and what a pass of the loop keeps of them.
use rightsizer.Prelude.{
  List, Bool-cases, leℤ, ◌-ℤ◌, ℕ, ◌≡◌, refl, ◌⊎◌, inl, inr, Bool, true, false, Option, none, some,
  [], ◌∷◌, arith, ℤ, Outcome, ok, err,
}
use rightsizer.Engine.Data.{
  World, done, CallError, canceled, auth_error, call_error, Source, inventory_every, Inventory,
}
use rightsizer.Engine.Source.{others, save, refresh_result, stop}
use rightsizer.Engine.Loop.{
  Pass, Exit, stopped, ended, waiting, pause, count_auth_failure, fail, refresh_inventory,
  record_samples, poll, schedule, after_fail, after_poll, after_inventory, pass, next_pass, loop,
}

others_self : (k : ℕ) → others (some k) (k ∷ []) ≡ []
others_self k = ground arith

others-none : (c : Option ℕ) → others c [] ≡ []
others-none none = refl
others-none (some k) = refl

module _ {W : World} where
  -- No background goroutine runs.
  abbrev pub IsIdle : Source W → Type 0
  IsIdle s = s.backgrounds ≡ []

  -- A background goroutine runs, at most one, and its context is the one that is kept.
  abbrev pub IsManaged : Source W → Type 0
  IsManaged s = IsIdle s ⊎ ((k : ℕ) × (s.cancel ≡ some k) × (s.backgrounds ≡ k ∷ []))

  pub others_managed : (s : Source W) → IsManaged s → others s.cancel s.backgrounds ≡ []
  others_managed s (inl e) = rw e (others-none s.cancel)
  others_managed s (inr (k, c, e)) = rw (c, e) (others_self k)

  pub stop_clean :
      (s : Source W)
      → others s.cancel s.backgrounds ≡ []
      → stop s ≡ some (record s { cancel = none; loops = []; backgrounds = []; client = false })
  unfolding stop
  stop_clean s h = rw h refl

  -- The goroutines of `t` are those of `s`, and `t` is done only if `s` is.
  abbrev pub Same : Source W → Source W → Type 0
  Same s t =
      (t.cancel ≡ s.cancel)
      × (t.backgrounds ≡ s.backgrounds)
      × (t.st.phase ≡ done → s.st.phase ≡ done)

  fail-Same : (e : CallError) (written : Bool) (s : Source W) → Same s (fail e written s).0
  unfolding fail count_auth_failure pause save
  fail-Same canceled written s = ground arith
  fail-Same call_error written s = ground arith
  fail-Same auth_error written s = ground arith

  schedule-Same : (x : Pass W) (t : ℤ) (s : Source W) → Same s (schedule x t s).0
  unfolding schedule
  schedule-Same x t s = ground arith

  poll-Same : (x : Pass W) (s : Source W) → Same s (poll x s).0
  unfolding poll record_samples save refresh_result
  poll-Same x s = ground arith

  trans-Same : (s t u : Source W) → Same s t → Same t u → Same s u
  trans-Same s t u h k = ground (arith, h, k)

  after_fail-Same :
      (x : Pass W) (t : ℤ) (go_on : Source W → Source W × Exit)
      → ((u : Source W) → Same u (go_on u).0)
      → (s : Source W) (r : Source W × Bool) → Same s r.0
      → Same s (after_fail x t go_on r).0
  unfolding after_fail
  after_fail-Same x t go_on k s (u, true) h = h
  after_fail-Same x t go_on k s (u, false) h = trans-Same s u (go_on u).0 h (k u)

  after_poll-Same :
      (x : Pass W) (t : ℤ) (s u : Source W) (r : Outcome CallError (Unit {0}))
      → Same s u
      → Same s (after_poll x t (u, r)).0
  unfolding after_poll
  after_poll-Same x t s u (ok a) h = trans-Same s u (schedule x t u).0 h (schedule-Same x t u)
  after_poll-Same x t s u (err e) h =
      after_fail-Same x t (schedule x t) (schedule-Same x t) s (fail e x.written u)
        (trans-Same s u (fail e x.written u).0 h (fail-Same e x.written u))

  poll_next-Same : (x : Pass W) (t : ℤ) (s : Source W) → Same s (after_poll x t (poll x s)).0
  poll_next-Same x t s = after_poll-Same x t s (poll x s).0 (poll x s).1 (poll-Same x s)

  refreshed-Same :
      (x : Pass W) (t : ℤ) (s : Source W) (r : Outcome CallError Inventory)
      → Same s (after_inventory x t (refresh_inventory r s)).0
  unfolding refresh_inventory after_inventory
  refreshed-Same x t s (ok inv) = poll_next-Same x x.refreshed_at (refresh_inventory (ok inv) s).0
  refreshed-Same x t s (err e) =
      after_fail-Same x t (λ u. after_poll x t (poll x u)) (poll_next-Same x t) s
        (fail e x.written s) (fail-Same e x.written s)

  pub pass-Same : (x : Pass W) (t : ℤ) (s : Source W) → Same s (pass x t s).0
  unfolding pass
  pass-Same x t s = elim (Bool-cases (leℤ s.st.ends x.now)) [
    | inl late ↦ rw late (refl, refl, λ d. d)
    | inr early ↦ elim (Bool-cases (leℤ inventory_every (x.now -ℤ t))) [
      | inl old ↦ rw (early, old) (refreshed-Same x t s x.inventory)
      | inr new ↦ rw (early, new) (poll_next-Same x t s)
    ]
  ]

  next_pass-Same :
      (go_on : ℤ → Source W → Source W × Exit)
      → ((t : ℤ) (u : Source W) → Same u (go_on t u).0)
      → (s : Source W) (r : Source W × Exit) → Same s r.0
      → Same s (next_pass go_on r).0
  next_pass-Same go_on k s (u, stopped) h = h
  next_pass-Same go_on k s (u, ended) h = h
  next_pass-Same go_on k s (u, waiting t) h = trans-Same s u (go_on t u).0 h (k t u)

  pub loop-Same : (xs : List (Pass W)) (t : ℤ) (s : Source W) → Same s (loop xs t s).0
  unfolding loop
  loop-Same [] t s = (refl, refl, λ d. d)
  loop-Same (x ∷ xs) t s = next_pass-Same (loop xs) (loop-Same xs) s (pass x t s) (pass-Same x t s)
