-- ===== src/Engine/Closing.antt =====
-- `finalize` of internal/engine/source.go, and what `New` of internal/engine/engine.go finds of it.
use rightsizer.Prelude.{◌≡◌, ◌≢◌, refl, Bool, true, false, some, [], arith, ℤ, ok}
use rightsizer.Text.{Text}
use rightsizer.Engine.Data.{World, Phase, need_password, running, done, State, Source}
use rightsizer.Engine.Source.{save, refresh_result, publish, serve, Closing, finalize}
use rightsizer.Engine.Manager.{load}

-- A restart pauses what was running.
abbrev pub after_restart : Phase → Phase
after_restart running = need_password
after_restart need_password = need_password
after_restart done = done

never_running : (p : Phase) → after_restart p ≢ running
never_running running = λ e. cc
never_running need_password = λ e. cc
never_running done = λ e. cc

module _ {W : World} where
  -- A source that `save` stored without error is what `New` finds, but that an analysis that was
  -- running waits for its password; there is no session, no goroutine and no failed login.
  pub save-load :
      (now : ℤ) (id : Text) (written : Bool) (s : Source W)
      → (save written s).1 ≡ ok tt
      → (st : State W) × ((save written s).0.saved ≡ some st)
        × ((load now id st).st ≡ record (s.st) { phase = after_restart s.st.phase })
        × ((load now id st).st.phase ≢ running)
        × ((load now id st).client ≡ false)
        × ((load now id st).loops ≡ [])
        × ((load now id st).backgrounds ≡ [])
        × ((load now id st).auth_fails ≡ 0)
  unfolding load refresh_result save
  save-load now id true s h = (s.st, refl, refl, never_running s.st.phase, refl, refl, refl, refl)
  save-load now id false s h = cc

  -- `finalize` of an analysis that is not done ends it, whatever fails: it is done from now on, with
  -- everything that was collected. It returns no error only if the state is on the disk.
  pub finalize_outcome :
      (y : Closing) (s : Source W)
      → s.st.phase ≢ done
      → let (s', r) = finalize y s in
        (s'.st.phase ≡ done)
        × (s'.st.finished ≡ y.now)
        × (s'.st.store ≡ s.st.store)
        × (s'.st.inventory ≡ s.st.inventory)
        × (s'.st.polls ≡ s.st.polls)
        × (r ≡ ok tt → s'.saved ≡ some s'.st)
  unfolding finalize publish serve save refresh_result
  finalize_outcome y s h = ground (arith, h)
