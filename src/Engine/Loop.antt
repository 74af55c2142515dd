-- ===== src/Engine/Loop.antt =====
-- The collection loop of internal/engine/source.go: `fail`, `refreshInventory`, `poll`, `loop`.
use mathlib.Core.Option
use rightsizer.Prelude.{
  suc, ◌*◌, map, filter_by, not, ◌&&◌, ◌>>=◌, Bool, true, false, none, some, List, [], ◌∷◌,
  if◌then◌else◌, ltb, ℤ, pos, ◌+ℤ◌, ◌-ℤ◌, ltℤ, leℤ, Outcome, ok, err,
}
use rightsizer.Text.{Text}
use rightsizer.Engine.Data.{
  World, need_password, Inventory, filter_clusters, CallError, canceled, auth_error, call_error,
  Source, max_auth_fails, poll_every, inventory_every, minute, zero_time,
}
use rightsizer.Engine.Source.{Error, save, refresh_result, is_zero}

-- The first instant that `poll` asks samples for: a minute before the newest one it has, but not
-- more than 55 minutes back. With no sample it is the zero time.
unfoldable pub since : ℤ → ℤ → ℤ
since newest now =
    if is_zero newest
    then newest
    else (let from = newest -ℤ pos minute in
        if ltℤ (pos (55 * minute)) (now -ℤ from) then now -ℤ pos (55 * minute) else from)

-- The machines and the hosts that `poll` asks samples for.
abbrev powered_on : Inventory → List Text
powered_on inv = map (λ v. v.ref) (filter_by (λ v. v.power_on && not v.template) inv.vms)

abbrev connected : Inventory → List Text
connected inv = map (λ h. h.ref) (filter_by (λ h. h.connected) inv.hosts)

-- What one pass of the loop meets.
pub record Pass (W : World) : Type 0 where
  pub now : ℤ
  pub inventory : Outcome CallError Inventory
  pub refreshed_at : ℤ
  -- vCenter's clock
  pub clock : Outcome CallError ℤ
  -- both sample calls of `poll`, by the machines and hosts asked for and the first instant: their
  -- first error or the samples
  pub samples : List Text → List Text → ℤ → Outcome CallError (W.Samples)
  pub polled_at : ℤ
  pub scheduled_at : ℤ
  pub written : Bool

-- How a pass ends: for good, at the end of the analysis (which another goroutine then closes), or
-- waiting, with the time of the last inventory.
pub data Exit : Type 0 where
  stopped ended : Exit
  waiting : ℤ → Exit

abbrev kept : List Text → Inventory → Inventory
kept [] inv = inv
kept (c ∷ cs) inv = filter_clusters inv (c ∷ cs)

abbrev save_error : Outcome Error (Unit {0}) → Outcome CallError (Unit {0})
save_error (ok u) = ok tt
save_error (err e) = err call_error

module _ {W : World} where
  unfoldable pub pause : Bool → Source W → Source W × Bool
  unfolding save
  pause written s =
      ((save written (record s { st = record (s.st) { phase = need_password } })).0, true)

  unfoldable pub count_auth_failure : Bool → Source W → Source W × Bool
  unfolding pause
  count_auth_failure written s =
      if ltb s.auth_fails max_auth_fails then (s, false) else pause written s

  -- Whether the loop must stop.
  unfoldable pub fail : CallError → Bool → Source W → Source W × Bool
  unfolding count_auth_failure
  fail canceled written s = (s, true)
  fail call_error written s = (record s { last_err = some call_error }, false)
  fail auth_error written s =
      count_auth_failure written
        (record s { last_err = some auth_error; auth_fails = suc s.auth_fails })

  -- `refreshInventory`
  unfoldable pub refresh_inventory :
      Outcome CallError Inventory → Source W → Source W × Outcome CallError (Unit {0})
  refresh_inventory (err e) s = (s, err e)
  refresh_inventory (ok inv) s =
      (record s { st = record (s.st) { inventory = some (kept s.st.config.clusters inv) } }, ok tt)

  unfoldable pub record_samples :
      Pass W → Inventory → W.Samples → Source W → Source W × Outcome CallError (Unit {0})
  unfolding save refresh_result
  record_samples x inv samples s =
      let (s', e) = save x.written (record s {
        st = record (s.st) {
          store = Option.map (W.ingest inv samples) s.st.store;
          polls = suc s.st.polls;
        };
        last_poll = x.polled_at;
        last_err = none;
        auth_fails = 0;
      }) in
      (refresh_result x.polled_at s', save_error e)

  -- `store.Newest()`; an analysis that has begun has a store.
  abbrev newest_sample : Source W → ℤ
  newest_sample s = elim s.st.store [ none ↦ zero_time | some store ↦ W.newest store ]

  -- The samples that `poll` asks for when the clock shows `t`.
  abbrev ask : Pass W → Inventory → Source W → ℤ → Outcome CallError (W.Samples)
  ask x inv s t = x.samples (powered_on inv) (connected inv) (since (newest_sample s) t)

  -- `poll`
  unfoldable pub poll : Pass W → Source W → Source W × Outcome CallError (Unit {0})
  unfolding record_samples
  poll x s = elim s.st.inventory [
    | none ↦ (s, err call_error)
    | some inv ↦ elim (x.clock >>= ask x inv s) [
      | err e ↦ (s, err e)
      | ok samples ↦ record_samples x inv samples s
    ]
  ]

  unfoldable pub schedule : Pass W → ℤ → Source W → Source W × Exit
  schedule x last_inv s =
      let next = x.scheduled_at +ℤ poll_every in
      (record s { next_poll = if ltℤ s.st.ends next then s.st.ends else next }, waiting last_inv)

  unfoldable pub after_fail :
      Pass W → ℤ → (Source W → Source W × Exit) → Source W × Bool → Source W × Exit
  after_fail x last_inv go_on (s, true) = (s, stopped)
  after_fail x last_inv go_on (s, false) = go_on s

  unfoldable pub after_poll : Pass W → ℤ → Source W × Outcome CallError (Unit {0}) → Source W × Exit
  unfolding after_fail schedule fail
  after_poll x last_inv (s, ok u) = schedule x last_inv s
  after_poll x last_inv (s, err e) =
      after_fail x last_inv (schedule x last_inv) (fail e x.written s)

  abbrev poll_next : Pass W → ℤ → Source W → Source W × Exit
  poll_next x last_inv s = after_poll x last_inv (poll x s)

  unfoldable pub after_inventory :
      Pass W → ℤ → Source W × Outcome CallError (Unit {0}) → Source W × Exit
  unfolding after_fail fail poll after_poll
  after_inventory x last_inv (s, ok u) = poll_next x x.refreshed_at s
  after_inventory x last_inv (s, err e) =
      after_fail x last_inv (poll_next x last_inv) (fail e x.written s)

  -- One pass of `loop` behind the time of the last inventory.
  unfoldable pub pass : Pass W → ℤ → Source W → Source W × Exit
  unfolding after_inventory after_poll poll refresh_inventory
  pass x last_inv s =
      if leℤ s.st.ends x.now
      then (s, ended)
      else if leℤ inventory_every (x.now -ℤ last_inv)
      then after_inventory x last_inv (refresh_inventory x.inventory s)
      else poll_next x last_inv s

  abbrev pub next_pass : (ℤ → Source W → Source W × Exit) → Source W × Exit → Source W × Exit
  next_pass go_on (s, stopped) = (s, stopped)
  next_pass go_on (s, ended) = (s, ended)
  next_pass go_on (s, waiting last_inv) = go_on last_inv s

  -- `loop`, for as many passes as the list has; it still waits if the list is too short.
  unfoldable pub loop : List (Pass W) → ℤ → Source W → Source W × Exit
  loop [] last_inv s = (s, waiting last_inv)
  loop (x ∷ xs) last_inv s = next_pass (loop xs) (pass x last_inv s)
