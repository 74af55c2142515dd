-- ===== src/Engine/Reopening.antt =====
-- `Extend` of internal/engine/engine.go on an analysis that is done.
use rightsizer.Prelude.{
  ◌≡◌, ◌≢◌, inl, inr, true, some, arith, ℤ, ◌+ℤ◌, ◌-ℤ◌, ◌≤ℤ◌, int_laws, ok, Outcome-cases,
  if◌then◌else◌,
}
use rightsizer.Text.{Text}
use rightsizer.Text.Equality.{text_eq, text_eq_iff}
use rightsizer.Map.{lookup, lookup-insert}
use rightsizer.Vault.{Crypto}
use rightsizer.Engine.Admission.{OneActive}
use rightsizer.Engine.Data.{World, running, done, Source, max_total}
use rightsizer.Engine.Source.{fits, reopen}
use rightsizer.Engine.Duration.{fits-le, reopen_done}
use rightsizer.Engine.Manager.{Engine, Call, set_source}
use rightsizer.Engine.Sessions.{extend_source, reconnect, reconnect_password}

login-delay :
    (now later extra start : ℤ)
    → now +ℤ extra -ℤ start ≤ℤ max_total
    → later +ℤ extra -ℤ start ≤ℤ max_total +ℤ (later -ℤ now)
login-delay now later extra start h = omega int_laws

module _ {W : World} (c : Crypto) where
  lookup-set_source :
      (e : Engine W) (s : Source W) (id : Text)
      → lookup id (set_source e s).sources
        ≡ (if text_eq s.id id then some s else lookup id e.sources)
  lookup-set_source e s id = lookup-insert s.id id s e.sources

  reconnect-sources :
      (x : Call) (s : Source W) (password : Text) (e e' : Engine W)
      → reconnect c x s password e ≡ ok e'
      → e'.sources ≡ e.sources
  unfolding reconnect
  reconnect-sources x s password e e' h =
      elim (Outcome-cases (reconnect_password c s.id password e.vault)) [
        | inl (p, r) ↦ elim (Outcome-cases (x.connect p)) [
          | inl (about, k) ↦ ground (arith, r, k)
          | inr (failure, k) ↦ ground (arith, r, k)
        ]
        | inr (failure, r) ↦ ground (arith, r)
      ]

  extend_source_inv :
      (x : Call) (id : Text) (extra : ℤ) (password : Text) (e : Engine W) (s : Source W)
      → lookup id e.sources ≡ some s
      → s.st.phase ≡ done
      → (extend_source c x id extra password e).1 ≡ ok tt
      → (e' : Engine W) × (e'.sources ≡ e.sources)
        × (fits (x.now +ℤ extra) s ≡ true)
        × ((extend_source c x id extra password e).0
            ≡ set_source e' (reopen x.connected_at extra x.written x.ctx s).0)
  unfolding extend_source
  extend_source_inv x id extra password e s l d h =
      elim (Outcome-cases (reconnect c x s password e)) [
        | inl (e', r) ↦ (
          e',
          reconnect-sources x s password e e' r,
          ground (arith, l, d, r),
          ground (arith, l, d, r),
        )
        | inr (failure, r) ↦ ground (arith, l, d, r)
      ]

  -- `Extend` of an analysis that is done, when it returns no error: it collects again until `extra`
  -- after the login, keeps what it had, and spans at most 30 days and the time that the login took.
  -- Every other source is as it was.
  pub extend_source-done :
      (x : Call) (id : Text) (extra : ℤ) (password : Text) (e : Engine W) (s : Source W)
      → lookup id e.sources ≡ some s
      → s.id ≡ id
      → s.st.phase ≡ done
      → (extend_source c x id extra password e).1 ≡ ok tt
      → let e' = (extend_source c x id extra password e).0 in
        (s' : Source W) × (lookup id e'.sources ≡ some s')
        × (s'.st.phase ≡ running)
        × (s'.st.ends ≡ x.connected_at +ℤ extra)
        × (s'.st.store ≡ s.st.store)
        × (s'.st.ends -ℤ s'.st.started ≤ℤ max_total +ℤ (x.connected_at -ℤ x.now))
        × ((j : Text) → j ≢ id → lookup j e'.sources ≡ lookup j e.sources)
  extend_source-done x id extra password e s l name d h =
      let s' = (reopen x.connected_at extra x.written x.ctx s).0 in
      let (e', kept, fit, result) = extend_source_inv x id extra password e s l d h in
      let (p, ends, dur, start, store, polls, fails, named, same_host) =
        reopen_done x.connected_at extra x.written x.ctx s d in
      (
        s',
        ground (arith, result, lookup-set_source e' s' id, text_eq_iff s'.id id, named, name),
        p,
        ends,
        store,
        rw (ends, start)
            (login-delay x.now x.connected_at extra s.st.started (fits-le (x.now +ℤ extra) s fit)),
        λ j apart.
            ground
              (arith, result, kept, lookup-set_source e' s' j, text_eq_iff s'.id j, named, name),
      )

  -- `Extend` does not ask for the rule that `Add` keeps: if it returns no error on an analysis that is
  -- done while another source of the same host is not, two sources of one host are not done.
  pub extend_source_twin :
      (x : Call) (id j : Text) (extra : ℤ) (password : Text) (e : Engine W) (s t : Source W)
      → lookup id e.sources ≡ some s
      → s.id ≡ id
      → s.st.phase ≡ done
      → j ≢ id
      → lookup j e.sources ≡ some t
      → t.st.config.host ≡ s.st.config.host
      → t.st.phase ≢ done
      → (extend_source c x id extra password e).1 ≡ ok tt
      → ¬ OneActive (extend_source c x id extra password e).0
  extend_source_twin x id j extra password e s t l name d apart m same active h one =
      let s' = (reopen x.connected_at extra x.written x.ctx s).0 in
      let (e', kept, fit, result) = extend_source_inv x id extra password e s l d h in
      let (p, ends, dur, start, store, polls, fails, named, same_host) =
        reopen_done x.connected_at extra x.written x.ctx s d in
      let here = lookup-set_source e' s' id in
      let there = lookup-set_source e' s' j in
      ground (
        arith,
        one id j s' t,
        result,
        kept,
        here,
        there,
        text_eq_iff s'.id id,
        text_eq_iff s'.id j,
        named,
        name,
        p,
        same_host,
      )
