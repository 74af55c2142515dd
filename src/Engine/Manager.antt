-- ===== src/Engine/Manager.antt =====
-- The engine of internal/engine/engine.go: its sources by identifier, and the vault.
--
-- The lists of shares, exclusions and sizing parameters are left out, and with them the order in
-- which `list` returns the sources. `connect` is vc.Connect at a password, with what the session
-- says of the vCenter. A call that waits for ever has no result.
use rightsizer.Prelude.{
  ℕ, Bool, false, Option, none, some, [], ◌∷◌, if◌then◌else◌, leb, ℤ, ltℤ, not, ◌&&◌, ◌||◌, Outcome,
  ok, err, length,
}
use rightsizer.Text.{Text}
use rightsizer.Text.Equality.{text_eq}
use rightsizer.Map.{Map, insert}
use rightsizer.Vault
use rightsizer.Vault.{Vault, Crypto, Env, Secret}
use rightsizer.Engine.Data.{
  World, running, done, need_password, Config, CallError, State, Source, zero_time, max_sources,
  min_duration, max_duration, is_done,
}
use rightsizer.Engine.Source.{
  Error, bad_duration, already_analysed, too_many_sources, connect_failed, mkdir_failed,
  vault_failed, begin, refresh_result,
}

pub record Engine (W : World) : Type 0 where
  pub sources : Map (Source W)
  pub vault : Option Vault

-- What a call meets: the clock, the session, the disk, and the next context.
pub record Call : Type 0 where
  pub now : ℤ
  -- the clock when `reopen` reads it, after the login
  pub connected_at : ℤ
  pub connect : Text → Outcome CallError Text
  pub made_dir : Bool
  pub env : Env
  pub written : Bool
  pub ctx : ℕ

abbrev pub is_locked : Option Vault → Bool
is_locked none = false
is_locked (some v) = Vault.locked v

abbrev is_unlocked : Option Vault → Bool
is_unlocked none = false
is_unlocked (some v) = not (Vault.locked v)

module _ {W : World} where
  -- Some source of the host is not done.
  unfoldable pub busy : Text → Map (Source W) → Bool
  busy host [] = false
  busy host ((id, s) ∷ m) =
      (text_eq s.st.config.host host && not (is_done s.st.phase)) || busy host m

  -- A source that has not begun.
  unfoldable pub new_source : Text → Config → Source W
  new_source id cfg = record {
    id = id;
    st = record {
      config = cfg;
      phase = need_password;
      started = zero_time;
      ends = zero_time;
      finished = zero_time;
      about = [];
      inventory = none;
      store = none;
      polls = 0;
      report = none;
    };
    client = false;
    cancel = none;
    loops = [];
    backgrounds = [];
    last_poll = zero_time;
    next_poll = zero_time;
    last_err = none;
    auth_fails = 0;
    result = none;
    saved = none;
  }

  abbrev pub set_source : Engine W → Source W → Engine W
  set_source e s = record e { sources = insert s.id s e.sources }

  abbrev pub set_vault : Engine W → Vault → Engine W
  set_vault e v = record e { vault = some v }

  -- `New` on the state that a source saved.
  unfoldable pub load : ℤ → Text → State W → Source W
  unfolding refresh_result
  load now id st = refresh_result now (record {
    id = id;
    st = record st {
      phase = elim st.phase [
        | running ↦ need_password
        | need_password ↦ need_password
        | done ↦ done
      ];
    };
    client = false;
    cancel = none;
    loops = [];
    backgrounds = [];
    last_poll = zero_time;
    next_poll = zero_time;
    last_err = none;
    auth_fails = 0;
    result = none;
    saved = some st;
  })

  abbrev load_saved : ℤ → Text → Option (State W) → Map (Source W) → Map (Source W)
  load_saved now id none m = m
  load_saved now id (some st) m = (id, load now id st) ∷ m

  -- `New`: the sources whose state was saved.
  pub load_all : ℤ → Map (Source W) → Map (Source W)
  unfolding load
  load_all now [] = []
  load_all now ((id, s) ∷ m) = load_saved now id s.saved (load_all now m)

module _ {W : World} (c : Crypto) where
  abbrev pub started : Call → Text → Config → Text → Engine W → Engine W
  started x id cfg about e = set_source e (begin x.now about x.written x.ctx (new_source id cfg))

  abbrev pub stored :
      Call
      → Text
      → Config
      → Text
      → Engine W
      → Vault × Outcome Vault.Error (Unit {0})
      → Engine W × Outcome Error Text
  stored x id cfg about e (v, err failure) = (set_vault e v, err (vault_failed failure))
  stored x id cfg about e (v, ok u) = (started x id cfg about (set_vault e v), ok id)

  abbrev pub keep_secret :
      Call → Text → Config → Text → Text → Engine W → Engine W × Outcome Error Text
  keep_secret x id cfg password about e = elim e.vault [
    | none ↦ (started x id cfg about e, ok id)
    | some v ↦
        stored x id cfg about e
          (Vault.put c x.env id (record { user = cfg.user; password = password }) v)
  ]

  abbrev pub logged_in :
      Call
      → Text
      → Config
      → Text
      → Engine W
      → Outcome CallError Text
      → Engine W × Outcome Error Text
  logged_in x id cfg password e (err failure) = (e, err connect_failed)
  logged_in x id cfg password e (ok about) =
      if x.made_dir then keep_secret x id cfg password about e else (e, err mkdir_failed)

  -- `Add`, behind the checks
  unfoldable pub admit : Call → Text → Config → Text → Engine W → Engine W × Outcome Error Text
  admit x id cfg password e = logged_in x id cfg password e (x.connect password)

  -- `Add`; `id` is the new random identifier.
  unfoldable pub add : Call → Text → Config → Text → Engine W → Engine W × Outcome Error Text
  add x id cfg password e =
      if ltℤ cfg.duration min_duration || ltℤ max_duration cfg.duration
      then (e, err bad_duration)
      else if is_locked e.vault
      then (e, err (vault_failed Vault.locked_error))
      else if busy cfg.host e.sources
      then (e, err already_analysed)
      else if leb max_sources (length e.sources)
      then (e, err too_many_sources)
      else admit x id cfg password e
