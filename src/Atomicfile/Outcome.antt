-- ===== src/Atomicfile/Outcome.antt =====
-- What `Write` (internal/atomicfile/atomicfile.go) returns, and what it leaves behind.
use mathlib.Core.List.{append-nil}
use rightsizer.Prelude.{
  ◌∙◌, ◌≡◌, ◌↔◌, ◌⊎◌, refl, Bool, true, false, not, ◌&&◌, Option, none, some, List, [], ◌∷◌, arith,
  if◌then◌else◌,
}
use rightsizer.Text.{Text}
use rightsizer.Atomicfile.{
  Inode, Disk, Machine, Faults, call, create, append, sync, unlink, rename, sync_entry,
  write_chunks, fill, give_up, sync_dir, publish, write, write_file,
}
use rightsizer.Atomicfile.Crash.{joined, start, fill-tmp}

-- No call fails up to and including the rename.
abbrev pub published : Faults → Bool
published x =
    not x.open_fails
    && not x.fn_fails
    && not x.sync_fails
    && not x.close_fails
    && not x.rename_fails

-- No call after the rename fails.
abbrev pub settled : Faults → Bool
settled x = not x.dir_open_fails && not x.dir_sync_fails && not x.dir_close_fails

abbrev pub new_file : List Text → Option Inode
new_file chunks = some (record { bytes = joined chunks; synced = true })

write_chunks-entries :
    (chunks : List Text) (m : Machine)
    → ((write_chunks chunks m).now.current ≡ m.now.current)
      × ((write_chunks chunks m).now.durable ≡ m.now.durable)
unfolding write_chunks append call
write_chunks-entries [] m = (refl, refl)
write_chunks-entries (c ∷ cs) m = write_chunks-entries cs (call (append c) m)

fill-entries :
    (x : Faults) (chunks : List Text) (m : Machine)
    → ((fill x chunks m).0.now.current ≡ m.now.current)
      × ((fill x chunks m).0.now.durable ≡ m.now.durable)
unfolding fill sync call
fill-entries x chunks m = ground (arith, write_chunks-entries chunks m)

fill-errors :
    (x : Faults) (chunks : List Text) (m : Machine)
    → (x.fn_fails ≡ false)
    → (x.sync_fails ≡ false)
    → (fill x chunks m).1 ≡ []
unfolding fill
fill-errors x chunks m h k = ground arith

-- The file that `Write` leaves under its name.
write-current :
    (x : Faults) (chunks : List Text) (m : Machine)
    → (write x chunks m).0.now.current ≡ (if published x then new_file chunks else m.now.current)
unfolding write create call give_up publish sync_dir rename sync_entry unlink
write-current x chunks m = ground (
  arith,
  fill-entries x chunks (call create m),
  fill-tmp x chunks (call create m) refl,
  fill-errors x chunks (call create m),
)

-- Errors are reported exactly when a call other than the removal failed.
write-errors :
    (x : Faults) (chunks : List Text) (m : Machine)
    → ((write x chunks m).1 ≡ []) ↔ ((published x && settled x) ≡ true)
unfolding write fill give_up publish sync_dir
write-errors x chunks m = (λ h. ground arith, λ h. ground arith)

write-durable :
    (x : Faults) (chunks : List Text) (m : Machine)
    → (published x && settled x) ≡ true
    → (write x chunks m).0.now.durable ≡ new_file chunks
unfolding write create call give_up publish sync_dir rename sync_entry unlink
write-durable x chunks m h =
    ground (arith, fill-tmp x chunks (call create m) refl, fill-errors x chunks (call create m))

write-tmp :
    (x : Faults) (chunks : List Text) (m : Machine)
    → x.open_fails ≡ false
    → (x.remove_fails ≡ false) ⊎ (published x ≡ true)
    → (write x chunks m).0.now.tmp ≡ none
unfolding write create call give_up publish sync_dir rename sync_entry unlink
write-tmp x chunks m o h =
    ground (arith, fill-tmp x chunks (call create m) refl, fill-errors x chunks (call create m))

-- `Write` replaces the file exactly when every call up to the rename succeeds, and leaves the old
-- one otherwise. It returns no error exactly when the directory is synced and closed as well; then
-- the new file is safe on the disk. Unless the temporary file could not be opened, or had to be
-- removed and could not be, none is left.
pub write_outcome :
    (x : Faults) (chunks : List Text) (d : Disk)
    → let (m, errors) = write x chunks (start d) in
      (m.now.current ≡ (if published x then new_file chunks else d.current))
      × ((errors ≡ []) ↔ ((published x && settled x) ≡ true))
      × (errors ≡ [] → m.now.durable ≡ new_file chunks)
      × (x.open_fails ≡ false → (x.remove_fails ≡ false) ⊎ (published x ≡ true) → m.now.tmp ≡ none)
write_outcome x chunks d = (
  write-current x chunks (start d),
  write-errors x chunks (start d),
  λ h. write-durable x chunks (start d) ((write-errors x chunks (start d)).0 h),
  write-tmp x chunks (start d),
)

-- `WriteFile` with no error leaves the content under the name, and safe.
pub write_file-current :
    (x : Faults) (content : Text) (d : Disk)
    → (write_file x content (start d)).1 ≡ []
    → (write_file x content (start d)).0.now.current
      ≡ some (record { bytes = content; synced = true })
unfolding write_file
write_file-current x content d h =
    (write_outcome x (content ∷ []) d).0
    ∙ ground (arith, append-nil content, (write_outcome x (content ∷ []) d).1.0 h)

-- Without a rename the file is the old one.
pub write_file-unpublished :
    (x : Faults) (content : Text) (d : Disk)
    → published x ≡ false
    → (write_file x content (start d)).0.now.current ≡ d.current
unfolding write_file
write_file-unpublished x content d h = rw h at (write_outcome x (content ∷ []) d).0
