-- ===== src/Engine/Duration.antt =====
-- How long an analysis can run, and how far back a poll asks (internal/engine).
use rightsizer.Prelude.{
  ℕ, ◌*◌, ◌≡◌, ◌⊎◌, ◌↔◌, inl, inr, Bool, true, false, some, arith, ℤ, pos, ◌+ℤ◌, ◌-ℤ◌, ◌≤ℤ◌, ltℤ,
  int_laws, ok, ltℤ→lt, ltℤ→ge, ◌<ℤ◌, Bool-cases, refl,
}
use rightsizer.Engine.Data.{World, running, done, Source, max_total, is_done, minute}
use rightsizer.Engine.Source.{save, fits, extend, refresh_result, run, reopen, is_zero}
use rightsizer.Engine.Loop.{since}

module _ (newest now : ℤ) where
  abbrev overlap : ℤ
  overlap = newest -ℤ pos minute

  abbrev oldest : ℤ
  oldest = now -ℤ pos (55 * minute)

  since_cases :
      is_zero newest ≡ false
      → ((pos (55 * minute) <ℤ now -ℤ overlap) × (since newest now ≡ oldest))
        ⊎ ((now -ℤ overlap ≤ℤ pos (55 * minute)) × (since newest now ≡ overlap))
  unfolding since
  since_cases h = elim (Bool-cases (ltℤ (pos (55 * minute)) (now -ℤ overlap))) [
    | inl e ↦ inl (ltℤ→lt (pos (55 * minute)) (now -ℤ overlap) e, rw h (rw e refl))
    | inr e ↦ inr (ltℤ→ge (pos (55 * minute)) (now -ℤ overlap) e, rw h (rw e refl))
  ]

  -- Once there is a sample, the first instant that a poll asks for is at most 55 minutes back and
  -- not before a minute ahead of the newest sample; it is that minute exactly if it is no further
  -- back, so that polls overlap.
  pub since_window :
      is_zero newest ≡ false
      → (now -ℤ since newest now ≤ℤ pos (55 * minute))
        × (newest -ℤ pos minute ≤ℤ since newest now)
        × (now -ℤ (newest -ℤ pos minute) ≤ℤ pos (55 * minute)
            → since newest now ≡ newest -ℤ pos minute)
  since_window h = elim (since_cases h) [
    | inl (l, e) ↦ rw e (omega int_laws, omega int_laws, λ k. absurd (omega int_laws))
    | inr (l, e) ↦ rw e (l, omega int_laws, λ k. refl)
  ]

module _ {W : World} where
  pub fits-le : (ends : ℤ) (s : Source W) → fits ends s ≡ true → ends -ℤ s.st.started ≤ℤ max_total
  unfolding fits
  fits-le ends s h = ground (arith, ltℤ→ge max_total (ends -ℤ s.st.started))

  extend_ok :
      (extra : ℤ) (written : Bool) (s : Source W)
      → (extend extra written s).1 ≡ ok tt
      → let s' = (extend extra written s).0 in
        (s'.st.ends ≡ s.st.ends +ℤ extra)
        × (s'.st.ends -ℤ s'.st.started ≤ℤ max_total)
        × (s'.st.config.duration ≡ s'.st.ends -ℤ s.st.started)
        × (s'.st.phase ≡ s.st.phase)
        × (s'.st.store ≡ s.st.store)
        × (s'.saved ≡ some s'.st)
  unfolding extend save
  extend_ok extra written s h = ground (arith, fits-le (s.st.ends +ℤ extra) s)

  extend_iff :
      (extra : ℤ) (written : Bool) (s : Source W)
      → ((extend extra written s).1 ≡ ok tt)
        ↔ ((fits (s.st.ends +ℤ extra) s ≡ true) × (is_done s.st.phase ≡ false) × (written ≡ true))
  unfolding extend save
  extend_iff extra written s = (λ h. ground arith, λ h. ground arith)

  extend_refused :
      (extra : ℤ) (written : Bool) (s : Source W)
      → (fits (s.st.ends +ℤ extra) s ≡ false) ⊎ (is_done s.st.phase ≡ true)
      → (extend extra written s).0 ≡ s
  unfolding extend
  extend_refused extra written s h = ground arith

  -- `reopen` of an analysis that is done: it runs again until `extra` from now, with no failed login
  -- counted and with everything that was collected.
  pub reopen_done :
      (now extra : ℤ) (written : Bool) (ctx : ℕ) (s : Source W)
      → s.st.phase ≡ done
      → let s' = (reopen now extra written ctx s).0 in
        (s'.st.phase ≡ running)
        × (s'.st.ends ≡ now +ℤ extra)
        × (s'.st.config.duration ≡ s'.st.ends -ℤ s.st.started)
        × (s'.st.started ≡ s.st.started)
        × (s'.st.store ≡ s.st.store)
        × (s'.st.polls ≡ s.st.polls)
        × (s'.auth_fails ≡ 0)
        × (s'.id ≡ s.id)
        × (s'.st.config.host ≡ s.st.config.host)
  unfolding reopen save refresh_result run
  reopen_done now extra written ctx s h = ground arith

  -- `extend` succeeds exactly when the longer analysis fits into 30 days, is not done, and could be
  -- saved. Then the end has moved by the extra time, the whole analysis is at most 30 days, its
  -- planned duration is the whole one, phase and measurements are kept, and the new state is on the
  -- disk. If it does not fit, or is done, nothing has changed.
  pub extend_outcome :
      (extra : ℤ) (written : Bool) (s : Source W)
      → let (s', r) = extend extra written s in
        ((r ≡ ok tt) ↔ (
          (fits (s.st.ends +ℤ extra) s ≡ true) × (is_done s.st.phase ≡ false) × (written ≡ true)))
        × (r ≡ ok tt
            → (s'.st.ends ≡ s.st.ends +ℤ extra)
              × (s'.st.ends -ℤ s'.st.started ≤ℤ max_total)
              × (s'.st.config.duration ≡ s'.st.ends -ℤ s.st.started)
              × (s'.st.phase ≡ s.st.phase)
              × (s'.st.store ≡ s.st.store)
              × (s'.saved ≡ some s'.st))
        × ((fits (s.st.ends +ℤ extra) s ≡ false) ⊎ (is_done s.st.phase ≡ true) → s' ≡ s)
  extend_outcome extra written s =
      (extend_iff extra written s, extend_ok extra written s, extend_refused extra written s)
