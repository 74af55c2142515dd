-- ===== src/Engine/Pause.antt =====
-- Failed logins pause an analysis (`fail` and `loop` of internal/engine/source.go).
use rightsizer.Prelude.{
  suc, ◌+◌, ap, ◌∙◌, ◌<◌, ◌≤◌, ◌≡◌, refl, ◌⊎◌, inl, inr, Bool, true, false, some, List, [], ◌∷◌,
  arith, ℤ, leℤ, Outcome, ok, err, Bool-cases, length, All, ltb, ◌-ℤ◌,
}
use rightsizer.Engine.Data.{
  World, need_password, Inventory, CallError, canceled, auth_error, call_error, Source,
  max_auth_fails, inventory_every,
}
use rightsizer.Engine.Source.{save, refresh_result}
use rightsizer.Engine.Loop.{
  Pass, Exit, stopped, ended, waiting, pause, count_auth_failure, fail, refresh_inventory,
  record_samples, poll, schedule, after_fail, after_poll, after_inventory, next_pass, pass, loop,
}

module _ {W : World} where
  -- Fewer than three failed logins are counted, or the third has paused the analysis.
  abbrev pub Counted : Source W × Exit → Type 0
  Counted (s, r) =
      (s.auth_fails < max_auth_fails)
      ⊎ ((s.auth_fails ≡ max_auth_fails) × (s.st.phase ≡ need_password) × (r ≡ stopped))

  fail_cases :
      (e : CallError) (written : Bool) (s : Source W)
      → s.auth_fails < max_auth_fails
      → let (s', stop) = fail e written s in
        (s'.auth_fails < max_auth_fails)
        ⊎ ((s'.auth_fails ≡ max_auth_fails) × (s'.st.phase ≡ need_password) × (stop ≡ true))
  unfolding fail count_auth_failure pause save
  fail_cases auth_error written s h = ground arith
  fail_cases call_error written s h = inl h
  fail_cases canceled written s h = inl h

  schedule-Counted :
      (x : Pass W) (t : ℤ) (s : Source W) → s.auth_fails < max_auth_fails → Counted (schedule x t s)
  unfolding schedule
  schedule-Counted x t s h = inl h

  after_fail-Counted :
      (x : Pass W) (t : ℤ) (go_on : Source W → Source W × Exit)
      → ((s : Source W) → s.auth_fails < max_auth_fails → Counted (go_on s))
      → (e : CallError) (written : Bool) (s : Source W) → s.auth_fails < max_auth_fails
      → Counted (after_fail x t go_on (fail e written s))
  unfolding after_fail fail count_auth_failure pause save
  after_fail-Counted x t go_on k auth_error written s h =
      elim (Bool-cases (ltb (suc s.auth_fails) max_auth_fails)) [
        | inl l ↦ rw l (
            k (record s { last_err = some auth_error; auth_fails = suc s.auth_fails })
              (ground (arith, l)))
        | inr l ↦ rw l (ground (arith, l))
      ]
  after_fail-Counted x t go_on k call_error written s h =
      k (record s { last_err = some call_error }) h
  after_fail-Counted x t go_on k canceled written s h = inl h

  after_poll-Counted :
      (x : Pass W) (t : ℤ) (s : Source W) (r : Outcome CallError (Unit {0}))
      → s.auth_fails < max_auth_fails
      → Counted (after_poll x t (s, r))
  unfolding after_poll
  after_poll-Counted x t s (ok u) h = schedule-Counted x t s h
  after_poll-Counted x t s (err e) h =
      after_fail-Counted x t (schedule x t) (schedule-Counted x t) e x.written s h

  poll-fails :
      (x : Pass W) (s : Source W)
      → s.auth_fails < max_auth_fails
      → (poll x s).0.auth_fails < max_auth_fails
  unfolding poll record_samples save refresh_result
  poll-fails x s h = ground arith

  poll_next-Counted :
      (x : Pass W) (t : ℤ) (s : Source W)
      → s.auth_fails < max_auth_fails
      → Counted (after_poll x t (poll x s))
  poll_next-Counted x t s h = after_poll-Counted x t (poll x s).0 (poll x s).1 (poll-fails x s h)

  after_inventory-Counted :
      (x : Pass W) (t : ℤ) (s : Source W) (r : Outcome CallError (Unit {0}))
      → s.auth_fails < max_auth_fails
      → Counted (after_inventory x t (s, r))
  unfolding after_inventory
  after_inventory-Counted x t s (ok u) h = poll_next-Counted x x.refreshed_at s h
  after_inventory-Counted x t s (err e) h =
      after_fail-Counted x t (λ s'. after_poll x t (poll x s')) (poll_next-Counted x t) e x.written
        s h

  refreshed-Counted :
      (x : Pass W) (t : ℤ) (s : Source W) (r : Outcome CallError Inventory)
      → s.auth_fails < max_auth_fails
      → Counted (after_inventory x t (refresh_inventory r s))
  unfolding refresh_inventory
  refreshed-Counted x t s (err e) h = after_inventory-Counted x t s (err e) h
  refreshed-Counted x t s (ok inv) h =
      after_inventory-Counted x t (refresh_inventory (ok inv) s).0 (ok tt) h

  pass-Counted :
      (x : Pass W) (t : ℤ) (s : Source W) → s.auth_fails < max_auth_fails → Counted (pass x t s)
  unfolding pass
  pass-Counted x t s h = elim (Bool-cases (leℤ s.st.ends x.now)) [
    | inl late ↦ rw late (inl h)
    | inr early ↦ elim (Bool-cases (leℤ inventory_every (x.now -ℤ t))) [
      | inl old ↦ rw (early, old) (refreshed-Counted x t s x.inventory h)
      | inr new ↦ rw (early, new) (poll_next-Counted x t s h)
    ]
  ]

  next_pass-Counted :
      (go_on : ℤ → Source W → Source W × Exit)
      → ((t : ℤ) (s : Source W) → s.auth_fails < max_auth_fails → Counted (go_on t s))
      → (p : Source W × Exit) → Counted p
      → Counted (next_pass go_on p)
  next_pass-Counted go_on k (s, stopped) h = h
  next_pass-Counted go_on k (s, ended) h = h
  next_pass-Counted go_on k (s, waiting t) (inl h) = k t s h
  next_pass-Counted go_on k (s, waiting t) (inr (a, b, c)) = cc

  -- However many passes run, fewer than three failed logins are counted at the end, or three are: then
  -- the loop has stopped and the analysis waits for a password.
  pub loop-Counted :
      (xs : List (Pass W)) (t : ℤ) (s : Source W)
      → s.auth_fails < max_auth_fails
      → Counted (loop xs t s)
  unfolding loop
  loop-Counted [] t s h = inl h
  loop-Counted (x ∷ xs) t s h =
      next_pass-Counted (loop xs) (loop-Counted xs) (pass x t s) (pass-Counted x t s h)

-- A pass before the end whose calls are refused for the password.
abbrev pub Refused : {W : World} → ℤ → Pass W → Type 0
Refused ends x =
    (leℤ ends x.now ≡ false) × (x.inventory ≡ err auth_error) × (x.clock ≡ err auth_error)

module _ {W : World} where
  -- Closer to the pause by one failed login, and still in a position to collect.
  abbrev Closer : Source W → Source W × Exit → Type 0
  Closer s (s', r) =
      ((r ≡ stopped) × (s'.st.phase ≡ need_password))
      ⊎ ((t : ℤ) × (r ≡ waiting t)
          × (s.auth_fails < s'.auth_fails)
          × (s'.auth_fails < max_auth_fails)
          × (s'.st.inventory ≡ s.st.inventory)
          × (s'.st.ends ≡ s.st.ends))

  refused_fail :
      (x : Pass W) (t : ℤ) (go_on : Source W → Source W × Exit) (s s' : Source W)
      → s'.auth_fails < max_auth_fails
      → s.auth_fails ≤ s'.auth_fails
      → s'.st ≡ s.st
      → ((s'' : Source W)
          → s''.auth_fails < max_auth_fails
          → suc s.auth_fails ≤ s''.auth_fails
          → s''.st ≡ s.st
          → Closer s (go_on s''))
      → Closer s (after_fail x t go_on (fail auth_error x.written s'))
  unfolding after_fail fail count_auth_failure pause save
  refused_fail x t go_on s s' h n same k =
      elim (Bool-cases (ltb (suc s'.auth_fails) max_auth_fails)) [
        | inl l ↦ rw l (
            k (record s' { last_err = some auth_error; auth_fails = suc s'.auth_fails })
              (ground (arith, l)) (omega (arith, n)) same)
        | inr l ↦ rw l (inl (refl, ground arith))
      ]

  schedule-Closer :
      (x : Pass W) (t : ℤ) (s s' : Source W)
      → s'.auth_fails < max_auth_fails
      → suc s.auth_fails ≤ s'.auth_fails
      → s'.st ≡ s.st
      → Closer s (schedule x t s')
  unfolding schedule
  schedule-Closer x t s s' h k e =
      inr (t, refl, k, h, ap (λ st. st.inventory) e, ap (λ st. st.ends) e)

  poll_refused :
      (x : Pass W) (s : Source W) (inv : Inventory)
      → s.st.inventory ≡ some inv
      → x.clock ≡ err auth_error
      → poll x s ≡ (s, err auth_error)
  unfolding poll
  poll_refused x s inv k e = cc

  -- `s'` differs from `s` by the failed logins.
  refused_poll :
      (x : Pass W) (t : ℤ) (s s' : Source W) (inv : Inventory)
      → s.st.inventory ≡ some inv
      → s'.auth_fails < max_auth_fails
      → s.auth_fails ≤ s'.auth_fails
      → s'.st ≡ s.st
      → x.clock ≡ err auth_error
      → Closer s (after_poll x t (poll x s'))
  unfolding after_poll
  refused_poll x t s s' inv k h n same e =
      rw (poll_refused x s' inv (ap (λ st. st.inventory) same ∙ k) e) (
        refused_fail x t (schedule x t) s s' h n same
          (λ s'' l m st. schedule-Closer x t s s'' l m st))

  Refused-pass :
      (x : Pass W) (t : ℤ) (s : Source W) (inv : Inventory)
      → s.st.inventory ≡ some inv
      → s.auth_fails < max_auth_fails
      → Refused s.st.ends x
      → Closer s (pass x t s)
  unfolding pass refresh_inventory after_inventory
  Refused-pass x t s inv k h (early, no_inventory, no_clock) =
      elim (Bool-cases (leℤ inventory_every (x.now -ℤ t))) [
        | inl old ↦
            rw (early, old, no_inventory)
              (refused_fail x t (λ s'. after_poll x t (poll x s')) s s h (omega arith) refl
                (λ s' l n st. refused_poll x t s s' inv k l (omega (arith, n)) st no_clock))
        | inr new ↦ rw (early, new) (refused_poll x t s s inv k h (omega arith) refl no_clock)
      ]

  -- If every pass begins before the end of the analysis and meets a refused password in each of its
  -- calls, an inventory is there, and fewer than three failed logins are counted, the loop stops with
  -- the analysis paused within as many passes as are left to three failed logins.
  pub loop-Refused :
      (xs : List (Pass W)) (t : ℤ) (s : Source W) (inv : Inventory)
      → s.st.inventory ≡ some inv
      → s.auth_fails < max_auth_fails
      → All (Refused s.st.ends) xs
      → max_auth_fails ≤ s.auth_fails + length xs
      → let (s', r) = loop xs t s in (r ≡ stopped) × (s'.st.phase ≡ need_password)
  unfolding loop
  loop-Refused [] t s inv k h all n = absurd (omega (arith, h, n))
  loop-Refused (x ∷ xs) t s inv k h (refused, all) n = elim (Refused-pass x t s inv k h refused) [
    | inl (r, p) ↦ rw r (refl, p)
    | inr (t', r, more, less, same, ends) ↦ rw r (
        loop-Refused xs t' (pass x t s).0 inv (same ∙ k) less (rw ends all)
          (omega (arith, n, more)))
  ]
