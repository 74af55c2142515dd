-- ===== src/Engine/Sessions.antt =====
-- The calls of internal/engine/engine.go on sources that exist: `Resume`, `Extend`, `Finish`,
-- `Remove` and `Unlock`.
use rightsizer.Prelude.{
  Bool, Option, none, some, List, [], ◌∷◌, if◌then◌else◌, ℤ, ◌+ℤ◌, ltℤ, not, ◌||◌, Outcome, ok, err,
  ◌>>=◌,
}
use rightsizer.Text.{Text}
use rightsizer.Map.{lookup, delete}
use rightsizer.Vault
use rightsizer.Vault.{Vault, Crypto, Env, Secret}
use rightsizer.Engine.Data.{
  World, call_error, Source, min_duration, max_duration, is_done, is_paused,
}
use rightsizer.Engine.Source.{
  Error, bad_duration, connect_failed, unknown_source, not_paused, too_long, already_finished,
  password_required, vault_failed, resume, fits, extend, reopen, stop, Closing, finalize,
}
use rightsizer.Engine.Manager.{Engine, Call, set_source, set_vault}

module _ (c : Crypto) where
  -- The password that `reconnect` uses: the stored one if none is given.
  unfoldable pub reconnect_password : Text → Text → Option Vault → Outcome Error Text
  reconnect_password id (ch ∷ password) vault = ok (ch ∷ password)
  reconnect_password id [] none = err password_required
  reconnect_password id [] (some v) = elim (Vault.get c id v) [
    | err failure ↦ err (vault_failed failure)
    | ok secret ↦ ok secret.password
  ]

  abbrev pub forget : Call → Text → Option Vault → Option Vault
  forget x id none = none
  forget x id (some v) = if Vault.locked v then some v else some (Vault.remove c x.env id v).0

module _ {W : World} (c : Crypto) where
  -- A password that was typed is kept for the next time, if the vault is open; a failure is logged.
  unfoldable pub keep_typed : Call → Text → Source W → Option Vault → Option Vault
  keep_typed x [] s vault = vault
  keep_typed x (ch ∷ password) s none = none
  keep_typed x (ch ∷ password) s (some v) =
      if Vault.locked v
      then some v
      else some (
          (Vault.put c x.env s.id (record { user = s.st.config.user; password = ch ∷ password })
            v).0)

  -- `reconnect`: the engine, with the vault as it is after the login.
  unfoldable pub reconnect : Call → Source W → Text → Engine W → Outcome Error (Engine W)
  reconnect x s password e = do
    p ← reconnect_password c s.id password e.vault
    elim (x.connect p) [
      | err failure ↦ err connect_failed
      | ok about ↦ ok (record e { vault = keep_typed x password s e.vault })
    ]

  abbrev pub resumed :
      Call → Source W → Engine W → Outcome Error (Engine W) → Engine W × Outcome Error (Unit {0})
  resumed x s e (err failure) = (e, err failure)
  resumed x s e (ok e') = (set_source e' (resume x.ctx s), ok tt)

  -- `Resume`
  unfoldable pub resume_source : Call → Text → Text → Engine W → Engine W × Outcome Error (Unit {0})
  resume_source x id password e = elim (lookup id e.sources) [
    | none ↦ (e, err unknown_source)
    | some s ↦
        if not (is_paused s.st.phase)
        then (e, err not_paused)
        else resumed x s e (reconnect x s password e)
  ]

  abbrev pub updated :
      Engine W → Source W × Outcome Error (Unit {0}) → Engine W × Outcome Error (Unit {0})
  updated e (s, r) = (set_source e s, r)

  abbrev pub reopened :
      Call
      → ℤ
      → Source W
      → Engine W
      → Outcome Error (Engine W)
      → Engine W × Outcome Error (Unit {0})
  reopened x extra s e (err failure) = (e, err failure)
  reopened x extra s e (ok e') = updated e' (reopen x.connected_at extra x.written x.ctx s)

  -- `Extend`
  unfoldable pub extend_source :
      Call → Text → ℤ → Text → Engine W → Engine W × Outcome Error (Unit {0})
  extend_source x id extra password e = elim (lookup id e.sources) [
    | none ↦ (e, err unknown_source)
    | some s ↦
        if ltℤ extra min_duration || ltℤ max_duration extra
        then (e, err bad_duration)
        else if not (is_done s.st.phase)
        then updated e (extend extra x.written s)
        else if not (fits (x.now +ℤ extra) s)
        then (e, err too_long)
        else reopened x extra s e (reconnect x s password e)
  ]

  abbrev pub closed :
      Closing → Engine W → Option (Source W) → Option (Engine W × Outcome Error (Unit {0}))
  closed y e none = none
  closed y e (some s) = some (updated e (finalize y s))

  -- `Finish`
  unfoldable pub finish : Closing → Text → Engine W → Option (Engine W × Outcome Error (Unit {0}))
  finish y id e = elim (lookup id e.sources) [
    | none ↦ some (e, err unknown_source)
    | some s ↦ if is_done s.st.phase then some (e, err already_finished) else closed y e (stop s)
  ]

  abbrev pub removed :
      Call → Text → Engine W → Option (Source W) → Option (Engine W × Outcome Error (Unit {0}))
  removed x id e none = none
  removed x id e (some s) =
      some (record { sources = delete id e.sources; vault = forget c x id e.vault }, ok tt)

  -- `Remove`, with the source's directory removed
  unfoldable pub remove : Call → Text → Engine W → Option (Engine W × Outcome Error (Unit {0}))
  remove x id e = elim (lookup id e.sources) [
    | none ↦ some (e, err unknown_source)
    | some s ↦ removed x id e (stop s)
  ]

  abbrev pub logged : Engine W → Source W → Engine W × Outcome Error (Unit {0}) → Engine W
  logged e s (e', ok u) = e'
  logged e s (e', err failure) = set_source e' (record s { last_err = some call_error })

  unfoldable pub resume_paused : Call → Engine W → Source W → Engine W
  resume_paused x e s = if is_paused s.st.phase then logged e s (resume_source x s.id [] e) else e

  -- `resumeAll` over the identifiers of `list`
  unfoldable pub resume_all : (Text → Call) → List Text → Engine W → Engine W
  resume_all x [] e = e
  resume_all x (id ∷ ids) e =
      resume_all x ids (elim (lookup id e.sources) [ none ↦ e | some s ↦ resume_paused (x id) e s ])

  abbrev pub opened_vault :
      (Text → Call)
      → List Text
      → Bool
      → Engine W
      → Vault × Outcome Vault.Error (Unit {0})
      → Engine W × Outcome Error (Unit {0})
  opened_vault x ids was_locked e (v, err failure) = (set_vault e v, err (vault_failed failure))
  opened_vault x ids was_locked e (v, ok u) =
      (if was_locked then resume_all x ids (set_vault e v) else set_vault e v, ok tt)

  -- `Unlock`, with the goroutine that resumes every source run to its end.
  unfoldable pub unlock :
      Env → (Text → Call) → List Text → Text → Engine W → Engine W × Outcome Error (Unit {0})
  unlock env x ids password e = elim e.vault [
    | none ↦ (e, ok tt)
    | some v ↦ opened_vault x ids (Vault.locked v) e (Vault.unlock c env password v)
  ]
