-- ===== src/Engine/Tests.antt =====
-- One vCenter, added, paused, resumed, extended and closed, and the theorems of the engine at it.
use rightsizer.Prelude.{
  ℕ, ◌+◌, ◌*◌, ◌≡◌, ◌≢◌, refl, true, false, none, some, [], ◌∷◌, arith, ℤ, pos, ◌+ℤ◌, ◌-ℤ◌, ◌≤ℤ◌,
  ok, err, ◌<◌,
}
use rightsizer.Text.{Text, codes}
use rightsizer.Text.Equality.{text_eq}
use rightsizer.Map.{lookup, insert}
use rightsizer.Vault.Toy.{toy, calm}
use rightsizer.Engine.Data.{
  World, need_password, running, done, Config, Source, Inventory, auth_error, day, hour, zero_time,
  max_auth_fails, min_duration, max_duration, max_sources, max_total,
}
use rightsizer.Engine.Source.{
  Error, already_analysed, too_long, is_zero, save, run, begin, fits, extend, refresh_result,
  reopen, stop, Closing, finalize, serve, publish,
}
use rightsizer.Engine.Loop.{
  Pass, stopped, pause, count_auth_failure, fail, refresh_inventory, record_samples, poll, schedule,
  after_fail, after_poll, after_inventory, pass, loop,
}
use rightsizer.Engine.Manager.{Engine, Call, busy, new_source, set_source, admit, add}
use rightsizer.Engine.Sessions.{
  reconnect_password, reconnect, resume_source, extend_source, finish, remove,
}
use rightsizer.Engine.Reopening.{extend_source-done, extend_source_twin}
use rightsizer.Engine.Admission.{OneActive, add_outcome, add-OneActive}
use rightsizer.Engine.Pause.{Refused, loop-Refused}
use rightsizer.Engine.Workers.{IsIdle}
use rightsizer.Engine.Stopping.{begins, collects, stop_returns, resume_source_hangs}
use rightsizer.Engine.Closing.{finalize_outcome}

-- Stores, reports and samples are numbers, and a store adds up its samples.
abbrev counts : World
counts = record {
  Store = ℕ;
  Report = ℕ;
  Samples = ℕ;
  new_store = λ t. 0;
  newest = λ s. pos s;
  ingest = λ inv n s. n + s;
  analyze = λ inv s a b d f. s;
}

abbrev now : ℤ
now = pos (100 * day)

abbrev call : ℕ → Call
call ctx = record {
  now = now;
  connected_at = now +ℤ pos 5;
  connect = λ p. ok (codes "vCenter 8");
  made_dir = true;
  env = calm;
  written = true;
  ctx = ctx;
}

abbrev config : Text → Config
config host = record {
  host = host;
  user = codes "ro";
  fingerprint = [];
  duration = pos (7 * day);
  profile = [];
  clusters = [];
}

abbrev vc_host : Text
vc_host = codes "vc"

abbrev id_a : Text
id_a = 1 ∷ []

abbrev id_b : Text
id_b = 2 ∷ []

abbrev no_sources : Engine counts
no_sources = record { sources = []; vault = none }

abbrev started_at : ℕ → Source counts
started_at ctx = begin now (codes "vCenter 8") true ctx (new_source id_a (config vc_host))

add_ok : (add toy (call 1) id_a (config vc_host) (codes "pw") no_sources).1 ≡ ok id_a
unfolding add admit busy begin run save new_source insert
add_ok = refl

has_sample : is_zero (now -ℤ pos hour) ≡ false
unfolding ◌-ℤ◌
has_sample = refl

extend_ok : (extend (pos (20 * day)) true (started_at 1)).1 ≡ ok tt
unfolding ◌-ℤ◌ ◌+ℤ◌ extend fits begin run save new_source
extend_ok = refl

extend_too_long : (extend (pos (24 * day)) true (started_at 1)).1 ≡ err too_long
unfolding ◌-ℤ◌ ◌+ℤ◌ extend fits begin run save new_source
extend_too_long = refl

-- One source of the vCenter, running.
abbrev with_a : Engine counts
with_a = (add toy (call 1) id_a (config vc_host) (codes "pw") no_sources).0

second_refused :
    (add toy (call 2) id_b (config vc_host) (codes "pw") with_a).1 ≡ err already_analysed
unfolding add admit busy begin run save new_source insert text_eq
second_refused = refl

none_active : OneActive no_sources
unfolding lookup
none_active i j s t apart l r h = absurd (cc)

add-OneActive_example : OneActive with_a
add-OneActive_example =
    add-OneActive toy (call 1) id_a (config vc_host) (codes "pw") no_sources none_active

add_outcome_example :
    ((i : Text)
      → (add toy (call 1) id_a (config vc_host) (codes "pw") no_sources).1 ≡ ok i
      → (i ≡ id_a)
        × (min_duration ≤ℤ pos (7 * day))
        × (pos (7 * day) ≤ℤ max_duration)
        × (false ≡ false)
        × (busy vc_host no_sources.sources ≡ false)
        × (0 < max_sources)
        × (s : Source counts) × (lookup id_a with_a.sources ≡ some s)
        × (s.st.phase ≡ running)
        × (s.st.ends ≡ now +ℤ pos (7 * day))
        × (s.st.config ≡ config vc_host)
        × ((j : Text) → j ≢ id_a → lookup j with_a.sources ≡ lookup j no_sources.sources))
    × ((f : Error)
        → (add toy (call 1) id_a (config vc_host) (codes "pw") no_sources).1 ≡ err f
        → with_a.sources ≡ no_sources.sources)
add_outcome_example = add_outcome toy (call 1) id_a (config vc_host) (codes "pw") no_sources

-- Passes of the loop: one that finds everything, and ones whose password is refused.
abbrev inventory : Inventory
inventory = record { taken = now; hosts = []; vms = []; datastores = [] }

abbrev good_pass : Pass counts
good_pass = record {
  now = now;
  inventory = ok inventory;
  refreshed_at = now;
  clock = ok now;
  samples = λ vms hosts t. ok 12;
  polled_at = now;
  scheduled_at = now;
  written = true;
}

abbrev bad_pass : Pass counts
bad_pass = record good_pass { inventory = err auth_error; clock = err auth_error }

abbrev collected : Source counts
collected = (loop (good_pass ∷ []) zero_time (started_at 1)).0

collected_fields :
    (collected.st.store ≡ some 12)
    × (collected.result ≡ some 12)
    × (collected.st.inventory ≡ some inventory)
    × (collected.auth_fails < max_auth_fails)
    × Refused collected.st.ends bad_pass
unfolding loop pass after_inventory after_poll poll record_samples schedule refresh_inventory
    refresh_result begin run save new_source ◌-ℤ◌ ◌+ℤ◌
collected_fields = (refl, refl, refl, omega arith, (refl, refl, refl))

three_refused :
    let (s, r) = loop (bad_pass ∷ bad_pass ∷ bad_pass ∷ []) now collected in
    (r ≡ stopped) × (s.auth_fails ≡ 3) × (s.st.phase ≡ need_password)
unfolding loop pass after_inventory after_poll after_fail fail count_auth_failure pause poll
    record_samples schedule refresh_inventory refresh_result begin run save new_source ◌-ℤ◌ ◌+ℤ◌
three_refused = (refl, refl, refl)

fresh_fails : (started_at 1).auth_fails < max_auth_fails
unfolding begin run save new_source
fresh_fails = omega arith

loop-Refused_example :
    let (s, r) = loop (bad_pass ∷ bad_pass ∷ bad_pass ∷ []) now collected in
    (r ≡ stopped) × (s.st.phase ≡ need_password)
loop-Refused_example =
    let (store, result, inv, fails, refused) = collected_fields in
    loop-Refused (bad_pass ∷ bad_pass ∷ bad_pass ∷ []) now collected inventory inv fails
      (refused, (refused, (refused, tt))) (omega (arith, fails))

-- The end of the analysis.
abbrev closing : Closing
closing = record {
  now = now +ℤ pos (7 * day);
  first_save = true;
  rendered = some (codes "report.pdf");
  second_save = true;
  served = true;
}

abbrev finished : Source counts
finished = (finalize closing (started_at 1)).0

started_running : (started_at 1).st.phase ≢ done
unfolding begin run save new_source
started_running = λ e. cc

finalize_outcome_example :
    let (s', r) = finalize closing (started_at 1) in
    (s'.st.phase ≡ done)
    × (s'.st.finished ≡ closing.now)
    × (s'.st.store ≡ (started_at 1).st.store)
    × (s'.st.inventory ≡ (started_at 1).st.inventory)
    × (s'.st.polls ≡ (started_at 1).st.polls)
    × (r ≡ ok tt → s'.saved ≡ some s'.st)
finalize_outcome_example = finalize_outcome closing (started_at 1) started_running

saved_ok : (save true (started_at 1)).1 ≡ ok tt
unfolding save
saved_ok = refl

stop_returns_example :
    (u : Source counts) × (stop collected ≡ some u)
    × (u.client ≡ false)
    × (u.loops ≡ [])
    × IsIdle u
    × (u.st ≡ collected.st)
stop_returns_example = stop_returns collected (
    collects (good_pass ∷ []) zero_time (started_at 1)
      (begins now (codes "vCenter 8") true 1 id_a (config vc_host)))

-- The third refused password pauses the analysis.
abbrev paused : Source counts
paused = (pass bad_pass now (record collected { auth_fails = 2 })).0

paused_phase : paused.st.phase ≡ need_password
unfolding loop pass after_inventory after_poll after_fail fail count_auth_failure pause poll
    record_samples schedule refresh_inventory refresh_result begin run save new_source ◌-ℤ◌ ◌+ℤ◌
paused_phase = refl

abbrev with_paused : Engine counts
with_paused = set_source no_sources paused

paused_fields :
    (lookup id_a with_paused.sources ≡ some paused)
    × (paused.id ≡ id_a)
    × (paused.backgrounds ≡ 1 ∷ [])
    × (collected.backgrounds ≡ 1 ∷ [])
    × ((resume_source toy (call 2) id_a (codes "new") with_paused).1 ≡ ok tt)
unfolding loop pass after_inventory after_poll after_fail fail count_auth_failure pause poll
    record_samples schedule refresh_inventory refresh_result begin run save new_source ◌-ℤ◌ ◌+ℤ◌
    lookup insert text_eq resume_source reconnect reconnect_password
paused_fields = (refl, refl, refl, refl, refl)

resume_source_hangs_example :
    let e = (resume_source toy (call 2) id_a (codes "new") with_paused).0 in
    (finish toy closing id_a e ≡ none) × (remove toy (call 3) id_a e ≡ none)
resume_source_hangs_example =
    let (l, name, b, c, r) = paused_fields in
    resume_source_hangs toy (call 2) (call 3) closing id_a (codes "new") with_paused paused 1 l name
      b (omega arith) r

-- `a` is done and `b` collects from the same host.
abbrev twins : Engine counts
twins = record {
  sources =
      insert id_b (begin now [] true 2 (new_source id_b (config vc_host)))
        (insert id_a finished []);
  vault = none;
}

abbrev twin : Source counts
twin = begin now [] true 2 (new_source id_b (config vc_host))

twins_fields :
    (lookup id_a twins.sources ≡ some finished)
    × (finished.id ≡ id_a)
    × (finished.st.phase ≡ done)
    × (lookup id_b twins.sources ≡ some twin)
    × (twin.st.config.host ≡ finished.st.config.host)
    × (twin.st.phase ≡ running)
    × ((extend_source toy (call 5) id_a (pos (3 * day)) (codes "pw") twins).1 ≡ ok tt)
unfolding lookup insert text_eq finalize publish serve refresh_result begin run save new_source
    extend_source reconnect reconnect_password fits reopen ◌-ℤ◌ ◌+ℤ◌
twins_fields = (refl, refl, refl, refl, refl, refl, refl)

id_b-apart : id_b ≢ id_a
id_b-apart = λ e. cc

extend_source-done_example :
    let e' = (extend_source toy (call 5) id_a (pos (3 * day)) (codes "pw") twins).0 in
    (s' : Source counts) × (lookup id_a e'.sources ≡ some s')
    × (s'.st.phase ≡ running)
    × (s'.st.ends ≡ (now +ℤ pos 5) +ℤ pos (3 * day))
    × (s'.st.store ≡ finished.st.store)
    × (s'.st.ends -ℤ s'.st.started ≤ℤ max_total +ℤ (now +ℤ pos 5 -ℤ now))
    × ((j : Text) → j ≢ id_a → lookup j e'.sources ≡ lookup j twins.sources)
extend_source-done_example =
    let (l, name, d, m, same, p, h) = twins_fields in
    extend_source-done toy (call 5) id_a (pos (3 * day)) (codes "pw") twins finished l name d h

extend_source_twin_example :
    ¬ OneActive (extend_source toy (call 5) id_a (pos (3 * day)) (codes "pw") twins).0
extend_source_twin_example =
    let (l, name, d, m, same, p, h) = twins_fields in
    extend_source_twin toy (call 5) id_a id_b (pos (3 * day)) (codes "pw") twins finished twin l
      name d id_b-apart m same (λ e. cc) h
