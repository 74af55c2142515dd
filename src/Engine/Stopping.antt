-- ===== src/Engine/Stopping.antt =====
-- Whether `stop` of internal/engine/source.go returns: on the sources that calls lead to, and after
-- `Resume` of one whose background goroutine still runs.
use rightsizer.Prelude.{
  ℕ, ap, ◌∙◌, Bool-cases, ◌≡◌, ◌≢◌, refl, inl, inr, Bool, true, false, none, some, List, [], ◌∷◌,
  arith, ℤ, ok, Outcome-cases,
}
use rightsizer.Text.{Text}
use rightsizer.Text.Equality.{text_eq_iff}
use rightsizer.Map.{lookup, lookup-insert}
use rightsizer.Vault.{Crypto}
use rightsizer.Engine.Data.{World, Phase, running, done, Config, State, Source, is_done}
use rightsizer.Engine.Source.{
  others, save, run, begin, resume, extend, fits, refresh_result, reopen, stop, Closing, finalize,
  publish, serve,
}
use rightsizer.Engine.Loop.{Pass, pass, loop}
use rightsizer.Engine.Manager.{Engine, Call, new_source, load, set_source}
use rightsizer.Engine.Sessions.{resume_source, reconnect, finish, remove}
use rightsizer.Engine.Workers.{IsIdle, IsManaged, others_managed, stop_clean, pass-Same, loop-Same}

is_done-true : (p : Phase) → is_done p ≡ true → p ≡ done
is_done-true p h = ground arith

others_two : (k ctx : ℕ) → k ≢ ctx → others (some ctx) (ctx ∷ k ∷ []) ≡ k ∷ []
others_two k ctx apart = ground arith

module _ {W : World} where
  -- The sources that the calls of an engine lead to, if `resume` only meets sources without a
  -- background goroutine, as after a restart. `Finish`, the end of an analysis and `Shutdown` stop the
  -- source first.
  pub data Reaches : Source W → Type 0 where
    begins :
        (now : ℤ) (about : Text) (written : Bool) (ctx : ℕ) (id : Text) (cfg : Config)
        → Reaches (begin now about written ctx (new_source id cfg))
    loads : (now : ℤ) (id : Text) (st : State W) → Reaches (load now id st)
    collects : (xs : List (Pass W)) (t : ℤ) (s : Source W) → Reaches s → Reaches (loop xs t s).0
    extends :
        (extra : ℤ) (written : Bool) (s : Source W) → Reaches s → Reaches (extend extra written s).0
    stops : (s u : Source W) → stop s ≡ some u → Reaches s → Reaches u
    finishes :
        (y : Closing) (s u : Source W) → stop s ≡ some u → Reaches s → Reaches (finalize y u).0
    reopens :
        (now extra : ℤ) (written : Bool) (ctx : ℕ) (s : Source W)
        → Reaches s
        → Reaches (reopen now extra written ctx s).0
    resumes : (ctx : ℕ) (s : Source W) → IsIdle s → Reaches s → Reaches (resume ctx s)

  -- One that is done has no background goroutine.
  abbrev Kept : Source W → Type 0
  Kept s = IsManaged s × (s.st.phase ≡ done → IsIdle s)

  stop-IsIdle : (s u : Source W) → IsManaged s → stop s ≡ some u → IsIdle u
  stop-IsIdle s u h e = ground (arith, stop_clean s (others_managed s h))

  finalize-IsIdle : (y : Closing) (s : Source W) → IsIdle s → IsIdle (finalize y s).0
  unfolding finalize publish serve save refresh_result
  finalize-IsIdle y s h = ground arith

  reopen_workers :
      (now extra : ℤ) (written : Bool) (ctx : ℕ) (s : Source W)
      → is_done s.st.phase ≡ true
      → let s' = (reopen now extra written ctx s).0 in
        (s'.cancel ≡ some ctx) × (s'.backgrounds ≡ ctx ∷ s.backgrounds) × (s'.st.phase ≡ running)
  unfolding reopen save refresh_result run
  reopen_workers now extra written ctx s h = ground arith

  reopen-Kept :
      (now extra : ℤ) (written : Bool) (ctx : ℕ) (s : Source W)
      → Kept s
      → Kept (reopen now extra written ctx s).0
  unfolding reopen
  reopen-Kept now extra written ctx s h = elim (Bool-cases (is_done s.st.phase)) [
    | inl d ↦
        let (c, b, p) = reopen_workers now extra written ctx s d in
        (inr (ctx, c, b ∙ ap (λ cs. ctx ∷ cs) (h.1 (is_done-true s.st.phase d))), λ q. cc)
    | inr n ↦ rw n h
  ]

  loop-Kept : (xs : List (Pass W)) (t : ℤ) (s : Source W) → Kept s → Kept (loop xs t s).0
  loop-Kept xs t s (inl idle, d) =
      let (c, b, p) = loop-Same xs t s in (inl (b ∙ idle), λ k. b ∙ idle)
  loop-Kept xs t s (inr (k, e, one), d) =
      let (c, b, p) = loop-Same xs t s in (inr (k, c ∙ e, b ∙ one), λ q. b ∙ d (p q))

  Reaches-Kept : (s : Source W) → Reaches s → Kept s
  unfolding begin save run new_source load refresh_result extend fits resume
  Reaches-Kept _ (begins now about true ctx id cfg) = ground arith
  Reaches-Kept _ (begins now about false ctx id cfg) = ground arith
  Reaches-Kept _ (loads now id st) = (inl refl, λ d. refl)
  Reaches-Kept _ (collects xs t s h) = loop-Kept xs t s (Reaches-Kept s h)
  Reaches-Kept _ (extends extra written s h) = ground (arith, Reaches-Kept s h)
  Reaches-Kept _ (stops s u e h) =
      (inl (stop-IsIdle s u (Reaches-Kept s h).0 e), λ d. stop-IsIdle s u (Reaches-Kept s h).0 e)
  Reaches-Kept _ (finishes y s u e h) =
      let idle = finalize-IsIdle y u (stop-IsIdle s u (Reaches-Kept s h).0 e) in
      (inl idle, λ d. idle)
  Reaches-Kept _ (reopens now extra written ctx s h) =
      reopen-Kept now extra written ctx s (Reaches-Kept s h)
  Reaches-Kept _ (resumes ctx s idle h) = (inr (ctx, refl, ap (λ b. ctx ∷ b) idle), λ d. cc)

  -- On every source that calls lead to, if `Resume` only met sources without a background goroutine,
  -- `stop` returns: the session is closed, no goroutine runs, and the state of the analysis is kept.
  pub stop_returns :
      (s : Source W)
      → Reaches s
      → (u : Source W) × (stop s ≡ some u)
        × (u.client ≡ false)
        × (u.loops ≡ [])
        × IsIdle u
        × (u.st ≡ s.st)
  stop_returns s h = (
    record s { cancel = none; loops = []; backgrounds = []; client = false },
    stop_clean s (others_managed s (Reaches-Kept s h).0),
    refl,
    refl,
    refl,
    refl,
  )

  stop_waits :
      (s : Source W) (c : ℕ) (cs : List ℕ) → others s.cancel s.backgrounds ≡ c ∷ cs → stop s ≡ none
  unfolding stop
  stop_waits s c cs h = rw h refl

  stop-resume :
      (s : Source W) (k ctx : ℕ) → s.backgrounds ≡ k ∷ [] → k ≢ ctx → stop (resume ctx s) ≡ none
  unfolding resume run
  stop-resume s k ctx b apart =
      stop_waits (resume ctx s) k []
        (ap (λ cs. others (some ctx) (ctx ∷ cs)) b ∙ others_two k ctx apart)

  -- A pass of the loop, one that pauses the analysis too, leaves the background goroutine. After
  -- `resume` under another context, `stop` does not return.
  pub stop_hangs :
      (x : Pass W) (t : ℤ) (s : Source W) (k ctx : ℕ)
      → s.backgrounds ≡ k ∷ []
      → k ≢ ctx
      → stop (resume ctx (pass x t s).0) ≡ none
  stop_hangs x t s k ctx b apart = stop-resume (pass x t s).0 k ctx ((pass-Same x t s).1 ∙ b) apart

module _ {W : World} (c : Crypto) where
  resume_source_inv :
      (x : Call) (id password : Text) (e : Engine W) (s : Source W)
      → lookup id e.sources ≡ some s
      → (resume_source c x id password e).1 ≡ ok tt
      → (e' : Engine W) × ((resume_source c x id password e).0 ≡ set_source e' (resume x.ctx s))
  unfolding resume_source
  resume_source_inv x id password e s l h = elim (Outcome-cases (reconnect c x s password e)) [
    | inl (e', r) ↦ (e', ground (arith, l, r))
    | inr (failure, r) ↦ ground (arith, l, r)
  ]

  lookup-resume_source :
      (x : Call) (id password : Text) (e : Engine W) (s : Source W)
      → lookup id e.sources ≡ some s
      → s.id ≡ id
      → (resume_source c x id password e).1 ≡ ok tt
      → lookup id (resume_source c x id password e).0.sources ≡ some (resume x.ctx s)
  unfolding resume run
  lookup-resume_source x id password e s l name h =
      let (e', r) = resume_source_inv x id password e s l h in
      rw r (
        lookup-insert s.id id (resume x.ctx s) e'.sources
        ∙ ground (arith, text_eq_iff s.id id, name))

  finish_stuck :
      (y : Closing) (id : Text) (e : Engine W) (s : Source W)
      → lookup id e.sources ≡ some s
      → s.st.phase ≡ running
      → stop s ≡ none
      → finish c y id e ≡ none
  unfolding finish
  finish_stuck y id e s l p h = ground (arith, l, p, h)

  remove_stuck :
      (x : Call) (id : Text) (e : Engine W) (s : Source W)
      → lookup id e.sources ≡ some s
      → stop s ≡ none
      → remove c x id e ≡ none
  unfolding remove
  remove_stuck x id e s l h = ground (arith, l, h)

  resume-running : (ctx : ℕ) (s : Source W) → (resume ctx s).st.phase ≡ running
  unfolding resume run
  resume-running ctx s = refl

  -- `Resume` without an error of a source whose background goroutine still runs under another context
  -- makes both `Finish` and `Remove` of it wait for ever.
  pub resume_source_hangs :
      (x y : Call) (z : Closing) (id password : Text) (e : Engine W) (s : Source W) (k : ℕ)
      → lookup id e.sources ≡ some s
      → s.id ≡ id
      → s.backgrounds ≡ k ∷ []
      → k ≢ x.ctx
      → (resume_source c x id password e).1 ≡ ok tt
      → let e' = (resume_source c x id password e).0 in
        (finish c z id e' ≡ none) × (remove c y id e' ≡ none)
  resume_source_hangs x y z id password e s k l name b apart h =
      let e' = (resume_source c x id password e).0 in
      let r = lookup-resume_source x id password e s l name h in
      let n = stop-resume s k x.ctx b apart in
      (
        finish_stuck z id e' (resume x.ctx s) r (resume-running x.ctx s) n,
        remove_stuck y id e' (resume x.ctx s) r n,
      )
