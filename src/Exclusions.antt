-- ===== src/Exclusions.antt =====
-- internal/engine/exclusions.go: the exclusions that the engine keeps, in memory and in their file. The
-- encoding as JSON is the parameter `Codec`. `time.Now` and `newID` are inputs of a call, and so are the
-- failures of the operating system.
pub mod Saving
pub mod Stored
mod Toy
mod Tests
use rightsizer.Prelude.{
  ℕ, ◌+◌, ◌≡◌, Bool, true, false, not, ◌||◌, Option, none, some, List, [], ◌∷◌, ◌++◌, ℤ, leb,
  length, if◌then◌else◌, filter_by, Outcome, ok, err,
}
use rightsizer.Text.{Text}
use rightsizer.Text.Equality.{text_eq}
use rightsizer.Text.Strings.{trim_space}
use rightsizer.Atomicfile
use rightsizer.Atomicfile.{Inode, Disk, Faults, write_file}
use rightsizer.Atomicfile.Crash.{start}
use rightsizer.Recommend.Exclusions.{Matching, Exclusion, Invalid, is_empty, validate}

abbrev pub max_exclusions : ℕ
max_exclusions = 1000

pub data Failure : Type 0 where
  invalid : Invalid → Failure
  too_many unknown unreadable unencodable : Failure
  unsaved : List Atomicfile.Error → Failure

-- `exclusionFile`, encoded and decoded; JSON has no instants after the year 9999
pub record Codec : Type 0 where
  pub marshal : List Exclusion → Option Text
  pub unmarshal : Text → Option (List Exclusion)

-- What one call finds outside of the engine.
pub record Env : Type 0 where
  pub id : Text
  pub now : ℤ
  pub faults : Faults

-- The engine's exclusions, their file, and how often every analysis has been computed again.
pub record Kept : Type 0 where
  pub excl : List Exclusion
  pub disk : Disk
  pub refreshed : ℕ

-- The rest of a call behind `saveExclusions`: `refreshAll` only after success.
abbrev pub after_save : Text → Kept × Outcome Failure (Unit {0}) → Kept × Outcome Failure Text
after_save id (k, ok u) = (record k { refreshed = k.refreshed + 1 }, ok id)
after_save id (k, err e) = (k, err e)

abbrev pub written : Kept × List Atomicfile.Error → Kept × Outcome Failure (Unit {0})
written (k, []) = (k, ok tt)
written (k, e ∷ es) = (k, err (unsaved (e ∷ es)))

abbrev pub save_bytes : Faults → Kept → Option Text → Kept × Outcome Failure (Unit {0})
unfolding write_file
save_bytes x k none = (k, err unencodable)
save_bytes x k (some b) =
    let (m, errors) = write_file x b (start k.disk) in written (record k { disk = m.now }, errors)

abbrev pub trimmed : Exclusion → Exclusion
trimmed x = record x { note = trim_space x.note; name = trim_space x.name }

abbrev pub stamped : Env → Exclusion → Exclusion
stamped env x = record x { id = env.id; created = env.now }

-- append(e.excl[:i], e.excl[i+1:]...) at the first exclusion with the id
unfoldable pub without : Text → List Exclusion → List Exclusion
unfolding text_eq
without id [] = []
without id (x ∷ xs) = let rest = without id xs in if text_eq x.id id then xs else x ∷ rest

module _ (cd : Codec) (mt : Matching) where
  -- `saveExclusions`
  unfoldable pub save : Faults → Kept → Kept × Outcome Failure (Unit {0})
  unfolding save_bytes
  save x k = save_bytes x k (cd.marshal k.excl)

  abbrev pub admit :
      Env → Exclusion → Kept → Outcome Invalid (Unit {0}) → Kept × Outcome Failure Text
  admit env x k (err e) = (k, err (invalid e))
  admit env x k (ok u) =
      if leb max_exclusions (length k.excl)
      then (k, err too_many)
      else after_save env.id (save env.faults (record k { excl = k.excl ++ (stamped env x ∷ []) }))

  unfoldable pub exclude : Env → Exclusion → Kept → Kept × Outcome Failure Text
  unfolding save validate trim_space
  exclude env x k = admit env (trimmed x) k (validate mt (trimmed x))

  unfoldable pub unexclude : Env → Text → Kept → Kept × Outcome Failure Text
  unfolding without save
  unexclude env id k =
      let rest = without id k.excl in
      if leb (length k.excl) (length rest)
      then (k, err unknown)
      else after_save id (save env.faults (record k { excl = rest }))

  -- An unreadable file is set aside by `preserve`, whose rename can fail.
  abbrev decoded : Bool → Kept → Option (List Exclusion) → Kept × Outcome Failure (Unit {0})
  decoded rename_fails k none =
      if rename_fails
      then (k, err unreadable)
      else (let d = k.disk in (record k { disk = record d { current = none } }, ok tt))
  decoded rename_fails k (some xs) = (record k { excl = xs }, ok tt)

  abbrev load_from : Bool → Bool → Kept → Option Inode → Kept × Outcome Failure (Unit {0})
  load_from read_fails rename_fails k none = (k, ok tt)
  load_from read_fails rename_fails k (some i) =
      if read_fails then (k, err unreadable) else decoded rename_fails k (cd.unmarshal i.bytes)

  -- `loadExclusions`, by the engine that starts
  unfoldable pub load : Bool → Bool → Disk → Kept × Outcome Failure (Unit {0})
  load read_fails rename_fails d =
      load_from read_fails rename_fails (record { excl = []; disk = d; refreshed = 0 }) d.current

  unfoldable pub exclusions_for : Text → Kept → List Exclusion
  exclusions_for host k =
      filter_by (λ x. is_empty x.v_center || mt.equal_fold x.v_center host) k.excl

-- The calls of the console, one after the other.
pub data Call : Type 0 where
  exclude_call : Env → Exclusion → Call
  unexclude_call : Env → Text → Call

module _ (cd : Codec) (mt : Matching) where
  unfoldable pub perform : Call → Kept → Kept × Outcome Failure Text
  unfolding exclude unexclude
  perform (exclude_call env x) k = exclude cd mt env x k
  perform (unexclude_call env id) k = unexclude cd mt env id k

  unfoldable pub run : List Call → Kept → Kept
  unfolding perform
  run [] k = k
  run (c ∷ cs) k = run cs ((perform c k).0)
