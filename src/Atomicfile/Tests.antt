-- ===== src/Atomicfile/Tests.antt =====
-- Writes on a disk with an old file, and the theorems at them.
use rightsizer.Prelude.{
  ◌≡◌, ◌↔◌, ◌⊎◌, refl, true, false, ◌&&◌, none, some, List, [], ◌∷◌, All, if◌then◌else◌,
}
use rightsizer.Text.{Text, codes}
use rightsizer.Atomicfile.{
  Inode, Disk, Faults, create, append, sync, unlink, rename, write, write_file,
}
use rightsizer.Atomicfile.Crash.{OnlyOldOrNew, states, start, write_crash_safe}
use rightsizer.Atomicfile.Outcome.{published, settled, new_file, write_outcome}

abbrev old_file : Inode
old_file = record { bytes = codes "old"; synced = true }

abbrev disk : Disk
disk = record { current = some old_file; durable = some old_file; tmp = none }

abbrev no_faults : Faults
no_faults = record {
  open_fails = false;
  fn_fails = false;
  sync_fails = false;
  close_fails = false;
  remove_fails = false;
  rename_fails = false;
  dir_open_fails = false;
  dir_sync_fails = false;
  dir_close_fails = false;
}

abbrev pieces : List Text
pieces = codes "ne" ∷ codes "w" ∷ []

written : (write_file no_faults (codes "new") (start disk)).0.now.current ≡ new_file pieces
unfolding write_file write create append sync rename
written = refl

close_failed : (write (record no_faults { close_fails = true }) pieces (start disk)).0.now ≡ disk
unfolding write create append sync unlink
close_failed = refl

write_crash_safe_example :
    All
      (OnlyOldOrNew (some (codes "old")) (codes "new"))
      (states (write no_faults pieces (start disk)).0)
write_crash_safe_example = write_crash_safe no_faults pieces disk refl refl

write_outcome_example :
    let (m, errors) = write no_faults pieces (start disk) in
    (m.now.current ≡ (if published no_faults then new_file pieces else disk.current))
    × ((errors ≡ []) ↔ ((published no_faults && settled no_faults) ≡ true))
    × (errors ≡ [] → m.now.durable ≡ new_file pieces)
    × (no_faults.open_fails ≡ false
        → (no_faults.remove_fails ≡ false) ⊎ (published no_faults ≡ true)
        → m.now.tmp ≡ none)
write_outcome_example = write_outcome no_faults pieces disk
