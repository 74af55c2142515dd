-- ===== src/Engine/Admission.antt =====
-- `Add` of internal/engine/engine.go: what it admits, and what it leaves alone.
use rightsizer.Prelude.{
  ◌<◌, ◌≡◌, ◌≢◌, refl, ◌⊎◌, inl, inr, Bool, true, false, some, none, [], ◌∷◌, arith, ◌+ℤ◌, ◌≤ℤ◌,
  ltℤ→ge, Outcome, ok, err, Option, Outcome-cases, length,
}
use rightsizer.Text.{Text}
use rightsizer.Text.Equality.{text_eq_iff}
use rightsizer.Map.{Map, lookup, insert, lookup-insert}
use rightsizer.Vault
use rightsizer.Vault.{Crypto, Vault}
use rightsizer.Engine.Data.{
  World, Config, CallError, running, done, Source, min_duration, max_duration, max_sources,
}
use rightsizer.Engine.Source.{Error, begin, save, run, vault_failed, connect_failed, mkdir_failed}
use rightsizer.Engine.Manager.{
  Engine, Call, set_vault, is_locked, busy, new_source, started, stored, keep_secret, logged_in,
  admit, add,
}

abbrev pub OneOf : {W : World} → Map (Source W) → Type 0
OneOf {W} m =
    (i j : Text) (s t : Source W)
    → i ≢ j
    → lookup i m ≡ some s
    → lookup j m ≡ some t
    → s.st.config.host ≡ t.st.config.host
    → (s.st.phase ≡ done) ⊎ (t.st.phase ≡ done)

-- Of two sources with the same host one is done.
abbrev pub OneActive : {W : World} → Engine W → Type 0
OneActive e = OneOf e.sources

module _ {W : World} where
  busy-lookup :
      (host i : Text) (m : Map (Source W)) (s : Source W)
      → busy host m ≡ false
      → lookup i m ≡ some s
      → s.st.config.host ≡ host
      → s.st.phase ≡ done
  unfolding busy lookup
  busy-lookup host i [] s b l h = cc
  busy-lookup host i ((j, t) ∷ m) s b l h =
      ground (arith, busy-lookup host i m s, text_eq_iff t.st.config.host host)

module _ {W : World} where
  OneOf-insert :
      (id : Text) (m : Map (Source W)) (b : Source W)
      → busy b.st.config.host m ≡ false
      → OneOf m
      → OneOf (insert id b m)
  OneOf-insert id m b free one i j s t apart l r h = ground (
    arith,
    one i j s t,
    lookup-insert id i b m,
    lookup-insert id j b m,
    text_eq_iff id i,
    text_eq_iff id j,
    busy-lookup b.st.config.host j m t free,
    busy-lookup b.st.config.host i m s free,
  )

-- The source that `add` begins.
abbrev pub begun : {W : World} → Call → Text → Config → Text → Source W
begun x id cfg about = begin x.now about x.written x.ctx (new_source id cfg)

begun_fields :
    (W : World) (x : Call) (id : Text) (cfg : Config) (about : Text)
    → let s = begun {W = W} x id cfg about in
      (s.id ≡ id)
      × (s.st.config ≡ cfg)
      × (s.st.phase ≡ running)
      × (s.st.started ≡ x.now)
      × (s.st.ends ≡ x.now +ℤ cfg.duration)
      × (s.auth_fails ≡ 0)
      × (s.backgrounds ≡ x.ctx ∷ [])
unfolding begin save run new_source
begun_fields W x id cfg about = ground arith

module _ {W : World} (c : Crypto) where
  -- What `admit` does: it ends in an error before any state has changed but the vault's, or the source
  -- begins.
  Admitted : Call → Text → Config → Text → Engine W → Engine W × Outcome Error Text → Type 0
  Admitted x id cfg password e r =
      ((f : Error) × (r.1 ≡ err f) × (r.0.sources ≡ e.sources))
      ⊎ ((about : Text) × (e' : Engine W) × (x.connect password ≡ ok about)
          × (e'.sources ≡ e.sources)
          × (r ≡ (started c x id cfg about e', ok id)))

  stored_cases :
      (x : Call) (id : Text) (cfg : Config) (about password : Text) (e : Engine W)
      → x.connect password ≡ ok about
      → (r : Vault × Outcome Vault.Error (Unit {0}))
      → Admitted x id cfg password e (stored c x id cfg about e r)
  unfolding Admitted
  stored_cases x id cfg about password e h (v, err f) = inl (vault_failed f, refl, refl)
  stored_cases x id cfg about password e h (v, ok u) = inr (about, set_vault e v, h, refl, refl)

  keep_secret_cases :
      (x : Call) (id : Text) (cfg : Config) (about password : Text) (e : Engine W)
      → x.connect password ≡ ok about
      → (v : Option Vault) → e.vault ≡ v
      → Admitted x id cfg password e (keep_secret c x id cfg password about e)
  unfolding Admitted
  keep_secret_cases x id cfg about password e h none k =
      rw k (inr (about, record e { vault = none }, h, refl, refl))
  keep_secret_cases x id cfg about password e h (some v) k = rw k (
      stored_cases x id cfg about password e h
        (Vault.put c x.env id (record { user = cfg.user; password = password }) v))

  logged_in_cases :
      (x : Call) (id : Text) (cfg : Config) (password : Text) (e : Engine W)
      → (o : Outcome CallError Text) → x.connect password ≡ o
      → (made : Bool) → x.made_dir ≡ made
      → Admitted x id cfg password e (logged_in c x id cfg password e o)
  unfolding Admitted
  logged_in_cases x id cfg password e (err f) h made k = inl (connect_failed, refl, refl)
  logged_in_cases x id cfg password e (ok about) h false k = rw k (inl (mkdir_failed, refl, refl))
  logged_in_cases x id cfg password e (ok about) h true k =
      rw k (keep_secret_cases x id cfg about password e h e.vault refl)

  admit_cases :
      (x : Call) (id : Text) (cfg : Config) (password : Text) (e : Engine W)
      → Admitted x id cfg password e (admit c x id cfg password e)
  unfolding admit
  admit_cases x id cfg password e =
      logged_in_cases x id cfg password e (x.connect password) refl x.made_dir refl

  busy_refused :
      (x : Call) (id : Text) (cfg : Config) (password : Text) (e : Engine W) (i : Text)
      → (add c x id cfg password e).1 ≡ ok i
      → (min_duration ≤ℤ cfg.duration)
        × (cfg.duration ≤ℤ max_duration)
        × (is_locked e.vault ≡ false)
        × (busy cfg.host e.sources ≡ false)
        × (length e.sources < max_sources)
        × (add c x id cfg password e ≡ admit c x id cfg password e)
  unfolding add
  busy_refused x id cfg password e i h =
      ground (arith, ltℤ→ge cfg.duration min_duration, ltℤ→ge max_duration cfg.duration)

  admit_fails :
      (x : Call) (id : Text) (cfg : Config) (password : Text) (e : Engine W) (f : Error)
      → (admit c x id cfg password e).1 ≡ err f
      → (admit c x id cfg password e).0.sources ≡ e.sources
  unfolding Admitted
  admit_fails x id cfg password e f h = elim (admit_cases x id cfg password e) [
    | inl (r, a, b) ↦ b
    | inr (about, e', a, b, r) ↦ cc
  ]

  add_fails :
      (x : Call) (id : Text) (cfg : Config) (password : Text) (e : Engine W) (f : Error)
      → (add c x id cfg password e).1 ≡ err f
      → (add c x id cfg password e).0.sources ≡ e.sources
  unfolding add
  add_fails x id cfg password e f h = ground (arith, admit_fails x id cfg password e f)

  add_succeeds :
      (x : Call) (id : Text) (cfg : Config) (password : Text) (e : Engine W) (i : Text)
      → (add c x id cfg password e).1 ≡ ok i
      → (about : Text) × (x.connect password ≡ ok about)
        × (i ≡ id)
        × ((add c x id cfg password e).0.sources ≡ insert id (begun x id cfg about) e.sources)
  unfolding Admitted
  add_succeeds x id cfg password e i h =
      let (lo, hi, l, free, n, same) = busy_refused x id cfg password e i h in
      elim (admit_cases x id cfg password e) [
        | inl (r, a, b) ↦ cc
        | inr (about, e', a, b, r) ↦
            (about, a, cc, rw (same, r, b, (begun_fields W x id cfg about).0) refl)
      ]

  -- When `Add` returns no error, the duration was between one day and fourteen, the vault was not
  -- locked, no analysis of that host was going on and there were fewer than 32 sources; the new one
  -- collects from now until the duration is over, and every other source is as it was. When it
  -- returns an error, every source is as it was.
  pub add_outcome :
      (x : Call) (id : Text) (cfg : Config) (password : Text) (e : Engine W)
      → let (e', r) = add c x id cfg password e in
        ((i : Text)
          → r ≡ ok i
          → (i ≡ id)
            × (min_duration ≤ℤ cfg.duration)
            × (cfg.duration ≤ℤ max_duration)
            × (is_locked e.vault ≡ false)
            × (busy cfg.host e.sources ≡ false)
            × (length e.sources < max_sources)
            × (s : Source W) × (lookup id e'.sources ≡ some s)
            × (s.st.phase ≡ running)
            × (s.st.ends ≡ x.now +ℤ cfg.duration)
            × (s.st.config ≡ cfg)
            × ((j : Text) → j ≢ id → lookup j e'.sources ≡ lookup j e.sources))
        × ((f : Error) → r ≡ err f → e'.sources ≡ e.sources)
  add_outcome x id cfg password e = (
    λ i h.
        let (lo, hi, l, free, n, same) = busy_refused x id cfg password e i h in
        let (about, a, k, m) = add_succeeds x id cfg password e i h in
        let s = begun x id cfg about in
        let (named, conf, p, st, ends, f, b) = begun_fields W x id cfg about in
        (
          k,
          lo,
          hi,
          l,
          free,
          n,
          s,
          rw (m, lookup-insert id id s e.sources) (ground (arith, text_eq_iff id id)),
          p,
          ends,
          conf,
          λ j apart. rw (m, lookup-insert id j s e.sources) (ground (arith, text_eq_iff id j)),
        ),
    add_fails x id cfg password e,
  )

  -- `Add` keeps the rule that of two sources with the same host one is done.
  pub add-OneActive :
      (x : Call) (id : Text) (cfg : Config) (password : Text) (e : Engine W)
      → OneActive e
      → OneActive (add c x id cfg password e).0
  add-OneActive x id cfg password e one i j s t apart l r h =
      elim (Outcome-cases (add c x id cfg password e).1) [
        | inl (k, good) ↦
            let (about, a, named, m) = add_succeeds x id cfg password e k good in
            OneOf-insert id e.sources (begun x id cfg about)
              (rw (begun_fields W x id cfg about).1 (busy_refused x id cfg password e k good).3) one
              i j s t apart (rw⁻¹ m l) (rw⁻¹ m r) h
        | inr (f, bad) ↦
            one i j s t apart (rw⁻¹ (add_fails x id cfg password e f bad) l)
              (rw⁻¹ (add_fails x id cfg password e f bad) r) h
      ]
