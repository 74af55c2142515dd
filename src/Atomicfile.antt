-- ===== src/Atomicfile.antt =====
-- internal/atomicfile/atomicfile.go: replacing a file so that a crash leaves the old or the new one.
--
-- The disk is seen through one path, its temporary file and what a power loss would leave. A file
-- that was not synced can come back with any bytes, a rename that was not synced can be undone.
pub mod Crash
pub mod Outcome
mod Tests
use rightsizer.Prelude.{Bool, true, false, Option, none, some, List, [], ◌∷◌, ◌++◌, if◌then◌else◌}
use rightsizer.Text.{Text}

pub record Inode : Type 0 where
  pub bytes : Text
  pub synced : Bool

pub record Disk : Type 0 where
  -- the directory entry as every process reads it
  pub current : Option Inode
  -- the entry that is sure to survive a power loss
  pub durable : Option Inode
  pub tmp : Option Inode

-- The disk after each call to the operating system, newest first behind the present one.
pub record Machine : Type 0 where
  pub now : Disk
  pub past : List Disk

pub data Error : Type 0 where
  open_error fn_error sync_error close_error remove_error rename_error : Error
  dir_open_error dir_sync_error dir_close_error : Error

-- Which calls fail.
pub record Faults : Type 0 where
  pub open_fails : Bool
  pub fn_fails : Bool
  pub sync_fails : Bool
  pub close_fails : Bool
  pub remove_fails : Bool
  pub rename_fails : Bool
  pub dir_open_fails : Bool
  pub dir_sync_fails : Bool
  pub dir_close_fails : Bool

pub call : (Disk → Disk) → Machine → Machine
call f m = record { now = f m.now; past = m.now ∷ m.past }

create : Disk → Disk
create d = record d { tmp = some (record { bytes = []; synced = false }) }

abbrev extend : Text → Option Inode → Option Inode
extend chunk none = none
extend chunk (some i) = some (record { bytes = i.bytes ++ chunk; synced = false })

append : Text → Disk → Disk
append chunk d = record d { tmp = extend chunk d.tmp }

abbrev mark_synced : Option Inode → Option Inode
mark_synced none = none
mark_synced (some i) = some (record i { synced = true })

sync : Disk → Disk
sync d = record d { tmp = mark_synced d.tmp }

unlink : Disk → Disk
unlink d = record d { tmp = none }

rename : Disk → Disk
rename d = record d { current = d.tmp; tmp = none }

-- A directory sync makes the present entry the one that survives.
sync_entry : Disk → Disk
sync_entry d = record d { durable = d.current }

abbrev when : Bool → Error → List Error
when true e = e ∷ []
when false e = []

-- `fn`, by the pieces that it writes before it returns.
pub write_chunks : List Text → Machine → Machine
unfolding call append
write_chunks [] m = m
write_chunks (c ∷ cs) m = write_chunks cs (call (append c) m)

-- `fn(f)`, then `f.Sync()` if it succeeded.
pub fill : Faults → List Text → Machine → Machine × List Error
unfolding write_chunks sync
fill x chunks m =
    let m' = write_chunks chunks m in
    if x.fn_fails
    then (m', fn_error ∷ [])
    else if x.sync_fails
    then (m', sync_error ∷ [])
    else (call sync m', [])

-- `os.Remove(tmp)` behind the errors so far.
pub give_up : Faults → List Error → Machine → Machine × List Error
unfolding call unlink
give_up x errors m =
    if x.remove_fails then (m, errors ++ remove_error ∷ []) else (call unlink m, errors)

pub sync_dir : Faults → Machine → Machine × List Error
unfolding call sync_entry
sync_dir x m =
    if x.dir_open_fails
    then (m, dir_open_error ∷ [])
    else if x.dir_sync_fails
    then (m, dir_sync_error ∷ when x.dir_close_fails dir_close_error)
    else (call sync_entry m, when x.dir_close_fails dir_close_error)

pub publish : Faults → Machine → Machine × List Error
unfolding call rename sync_dir give_up
publish x m = if x.rename_fails then give_up x (rename_error ∷ []) m else sync_dir x (call rename m)

abbrev finish : Faults → Machine → List Error → Machine × List Error
finish x m [] = publish x m
finish x m (e ∷ errors) = give_up x (e ∷ errors) m

unfoldable pub write : Faults → List Text → Machine → Machine × List Error
unfolding fill give_up publish create
write x chunks m =
    if x.open_fails
    then (m, open_error ∷ [])
    else (let (m', errors) = fill x chunks (call create m) in
        finish x m' (errors ++ when x.close_fails close_error))

-- `WriteFile`: one piece.
unfoldable pub write_file : Faults → Text → Machine → Machine × List Error
write_file x content m = write x (content ∷ []) m
