-- ===== src/Exclusions/Tests.antt =====
-- Exclusions of a small engine, encoded by a codec that knows one list only.
use rightsizer.Prelude.{
  ◌+◌, ◌<◌, ◌&&◌, ◌≤◌, ◌≡◌, refl, ◌⊎◌, inl, true, none, some, List, [], ◌∷◌, pos, ok, err,
}
use rightsizer.Text.{Text, codes}
use rightsizer.Text.Equality.{text_eq}
use rightsizer.Atomicfile
use rightsizer.Atomicfile.{Disk, Faults}
use rightsizer.Atomicfile.Outcome.{published, settled}
use rightsizer.Text.Strings.{trim_space, byte_length, contains_any}
use rightsizer.Recommend.Exclusions.{Matching, Exclusion, Invalid, validate}
use rightsizer.Exclusions.{
  invalid, too_many, Env, Kept, exclude, unexclude, Call, exclude_call, unexclude_call, perform,
  run,
}
use rightsizer.Exclusions.Saving.{Unstored}
use rightsizer.Exclusions.Stored.{
  AllSaved, Restarts, run-Restarts, exclude_outcome, exclude-unexclude,
}
use rightsizer.Vault.Toy.{no_faults}
use rightsizer.Exclusions.Toy.{fields, fields-IsFaithful}

abbrev plain : Matching
plain = record { to_lower = λ t. t; equal_fold = text_eq; glob = λ p t. some (text_eq p t) }

abbrev web : Exclusion
web = record {
  id = [];
  v_center = [];
  uuid = [];
  name = codes " web";
  path = [];
  kinds = [];
  reason = codes "Licensing";
  note = codes "as agreed ";
  created = pos 0;
  review_by = pos 0;
}

abbrev env : Env
env = record { id = codes "x1"; now = pos 7; faults = no_faults }

-- The file cannot be renamed.
abbrev stuck : Env
stuck = record env { faults = record no_faults { rename_fails = true } }

abbrev nothing : Kept
nothing = record {
  excl = [];
  disk = record { current = none; durable = none; tmp = none };
  refreshed = 0;
}

added : (exclude fields plain env web nothing).1 ≡ ok (codes "x1")
unfolding exclude Atomicfile.write
added = refl

abbrev calls : List Call
calls = exclude_call env web ∷ unexclude_call env (codes "x1") ∷ []

calls-AllSaved : AllSaved fields plain calls nothing
unfolding exclude perform Atomicfile.write
calls-AllSaved = (λ h. h, (λ h. h, tt))

run-Restarts_example : Restarts fields plain fields-IsFaithful (run fields plain calls nothing)
run-Restarts_example =
    run-Restarts fields plain fields-IsFaithful calls nothing (inl (refl, refl)) calls-AllSaved

abbrev given : Exclusion
unfolding trim_space
given = record web { note = trim_space web.note; name = trim_space web.name }

web_valid : validate plain given ≡ ok tt
unfolding validate given trim_space byte_length contains_any
web_valid = refl

exclude_outcome_example :
    let o = exclude fields plain stuck web nothing in
    let web' : Exclusion = record web { note = trim_space web.note; name = trim_space web.name } in
    let last : List Exclusion = record web' { id = codes "x1"; created = pos 7 } ∷ [] in
    ((e : Invalid) → validate plain web' ≡ err e → o ≡ (nothing, err (invalid e)))
    × (validate plain web' ≡ ok tt → 1000 ≤ 0 → o ≡ (nothing, err too_many))
    × (validate plain web' ≡ ok tt
        → 0 < 1000
        → ((o.0).excl ≡ last)
          × (((o.1 ≡ ok (codes "x1"))
                × ((o.0).refreshed ≡ 0 + 1)
                × Restarts fields plain fields-IsFaithful (o.0))
              ⊎ Unstored fields plain stuck.faults nothing o)
          × ((b : Text)
              → fields.marshal last ≡ some b
              → (published stuck.faults && settled stuck.faults) ≡ true
              → o.1 ≡ ok (codes "x1")))
exclude_outcome_example = exclude_outcome fields plain fields-IsFaithful stuck web nothing

exclude-unexclude_example :
    ((unexclude fields plain stuck (codes "x1") ((exclude fields plain env web nothing).0)).0).excl
    ≡ []
exclude-unexclude_example = exclude-unexclude fields plain env stuck web nothing tt added
