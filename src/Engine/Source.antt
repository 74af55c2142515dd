-- ===== src/Engine/Source.antt =====
-- The methods of Source in internal/engine/source.go that start, extend and end an analysis.
-- Each holds the source's mutex while it changes the state, so each is a step. Clock readings and
-- the outcome of each write to the disk are arguments.
use rightsizer.Prelude.{
  ℕ, Bool, true, false, Option, none, some, List, [], ◌∷◌, if◌then◌else◌, ◌==◌, ℤ, pos_part,
  neg_part, ◌+ℤ◌, ◌-ℤ◌, ltℤ, not, ◌&&◌, Outcome, ok, err, filter_by,
}
use rightsizer.Text.{Text}
use rightsizer.Vault
use rightsizer.Engine.Data.{World, running, done, Source, zero_time, max_total, is_done}

pub data Error : Type 0 where
  bad_duration already_analysed too_many_sources connect_failed mkdir_failed : Error
  unknown_source not_paused too_long just_finished not_finished already_finished : Error
  password_required save_failed render_failed serve_failed no_report : Error
  vault_failed : Vault.Error → Error

abbrev pub is_zero : ℤ → Bool
is_zero t = pos_part t == 0 && neg_part t == 0

-- The contexts that cancelling one leaves.
abbrev pub others : Option ℕ → List ℕ → List ℕ
others none cs = cs
others (some ctx) cs = filter_by (λ c. not (c == ctx)) cs

module _ {W : World} where
  -- `save`; a write that fails leaves the file as it was
  unfoldable pub save : Bool → Source W → Source W × Outcome Error (Unit {0})
  save written s = if written then (record s { saved = some s.st }, ok tt) else (s, err save_failed)

  -- `run`: a context, and the two goroutines that end with it
  unfoldable pub run : ℕ → Source W → Source W
  run ctx s = record s {
    cancel = some ctx;
    loops = ctx ∷ s.loops;
    backgrounds = ctx ∷ s.backgrounds;
  }

  -- The session `about` and the new store are those of the connection.
  unfoldable pub begin : ℤ → Text → Bool → ℕ → Source W → Source W
  unfolding save run
  begin now about written ctx s =
      let st = record (s.st) {
        phase = running;
        started = now;
        ends = now +ℤ s.st.config.duration;
        about = about;
        store = some (W.new_store now);
      } in
      run ctx (save written (record s { st = st; client = true })).0

  unfoldable pub resume : ℕ → Source W → Source W
  unfolding run
  resume ctx s = run ctx (record s {
    client = true;
    st = record (s.st) { phase = running };
    last_err = none;
    auth_fails = 0;
  })

  -- The analysis may run until `ends`.
  unfoldable pub fits : ℤ → Source W → Bool
  fits ends s = not (ltℤ max_total (ends -ℤ s.st.started))

  unfoldable pub extend : ℤ → Bool → Source W → Source W × Outcome Error (Unit {0})
  unfolding save fits
  extend extra written s =
      let ends = s.st.ends +ℤ extra in
      if not (fits ends s)
      then (s, err too_long)
      else if is_done s.st.phase
      then (s, err just_finished)
      else save written (record s {
        st = record (s.st) {
          ends = ends;
          config = record (s.st.config) { duration = ends -ℤ s.st.started };
        };
      })

  abbrev analyzed : ℤ → Source W → Option (W.Report)
  analyzed now s = elim s.st.inventory [
    | none ↦ s.result
    | some inv ↦ elim s.st.store [
      | none ↦ s.result
      | some store ↦ some (
          W.analyze inv store s.st.started (if is_zero s.st.finished then now else s.st.finished)
            s.st.config.duration (is_done s.st.phase))
    ]
  ]

  unfoldable pub refresh_result : ℤ → Source W → Source W
  refresh_result now s = record s { result = analyzed now s }

  unfoldable pub reopen : ℤ → ℤ → Bool → ℕ → Source W → Source W × Outcome Error (Unit {0})
  unfolding save refresh_result run
  reopen now extra written ctx s =
      if not (is_done s.st.phase)
      then (s, err not_finished)
      else (let ends = now +ℤ extra in
          let (s', e) = save written (record s {
            st = record (s.st) {
              phase = running;
              ends = ends;
              config = record (s.st.config) { duration = ends -ℤ s.st.started };
              finished = zero_time;
            };
            client = true;
            last_err = none;
            auth_fails = 0;
          }) in
          (run ctx (refresh_result now s'), e))

  abbrev when_none : List ℕ → Source W → Option (Source W)
  when_none [] s = some (record s { client = false })
  when_none (c ∷ cs) s = none

  -- `stop` cancels the context that is kept and waits for every goroutine. A background goroutine
  -- ends with its own context only, and no other `cancel` is kept: with one left, `stop` does not
  -- return. The wait for the loops is not modelled: a loop ends with its context, or at the latest with
  -- the analysis, and none is left here when `stop` returns.
  unfoldable pub stop : Source W → Option (Source W)
  stop s =
      when_none (others s.cancel s.backgrounds)
        (record s { cancel = none; loops = []; backgrounds = others s.cancel s.backgrounds })

-- What `finalize` meets: the outcomes of both saves, of the rendering and of the share.
pub record Closing : Type 0 where
  pub now : ℤ
  pub first_save : Bool
  pub rendered : Option Text
  pub second_save : Bool
  pub served : Bool

module _ {W : World} where
  unfoldable pub serve :
      Closing → Source W × Outcome Error (Unit {0}) → Source W × Outcome Error (Unit {0})
  serve x (s, err e) = (s, err e)
  serve x (s, ok u) = (s, if x.served then ok tt else err serve_failed)

  unfoldable pub publish : Closing → Source W → Source W × Outcome Error (Unit {0})
  unfolding serve save
  publish x s = elim x.rendered [
    | none ↦ (s, err render_failed)
    | some path ↦
        serve x (save x.second_save (record s { st = record (s.st) { report = some path } }))
  ]

  unfoldable pub finalize : Closing → Source W → Source W × Outcome Error (Unit {0})
  unfolding publish save refresh_result
  finalize x s =
      if is_done s.st.phase
      then (s, ok tt)
      else (let s' = refresh_result x.now (record s {
        st = record (s.st) { phase = done; finished = x.now };
        next_poll = zero_time;
      }) in
          elim s'.result [ none ↦ save x.first_save s' | some r ↦ publish x s' ])
