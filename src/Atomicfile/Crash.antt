-- ===== src/Atomicfile/Crash.antt =====
-- What a power loss leaves of the file, at any moment of `Write` (internal/atomicfile/atomicfile.go).
use mathlib.Core.List.{append-nil, append_assoc}
use rightsizer.Prelude.{
  ◌≡◌, refl, ap, ◌∙◌, ◌⊎◌, inl, inr, true, false, Bool-cases, Option, none, some, List, [], ◌∷◌,
  ◌++◌, arith, All,
}
use rightsizer.Text.{Text}
use rightsizer.Atomicfile.{
  Inode, Disk, Machine, Error, Faults, call, create, append, extend, mark_synced, sync, unlink,
  rename, rename_error, sync_entry, write_chunks, fill, give_up, sync_dir, publish, finish, write,
}

-- The bytes that come back of an inode: its own if it was synced, any at all if not.
pub data AfterLoss : Option Inode → Option Text → Type 0 where
  missing : AfterLoss none none
  kept : (i : Inode) → i.synced ≡ true → AfterLoss (some i) (some i.bytes)
  garbled : (i : Inode) (t : Text) → i.synced ≡ false → AfterLoss (some i) (some t)

-- The directory comes back with the surviving entry or with the present one.
pub data Survives (d : Disk) (r : Option Text) : Type 0 where
  old_entry : AfterLoss d.durable r → Survives d r
  new_entry : AfterLoss d.current r → Survives d r

abbrev pub contents : Option Inode → Option Text
contents none = none
contents (some i) = some i.bytes

abbrev pub IsIntact : Option Inode → Type 0
IsIntact none = Unit {0}
IsIntact (some i) = i.synced ≡ true

abbrev pub joined : List Text → Text
joined [] = []
joined (c ∷ cs) = c ++ joined cs

abbrev pub start : Disk → Machine
start d = record { now = d; past = [] }

abbrev pub states : Machine → List Disk
states m = m.now ∷ m.past

abbrev whole : Text → Option Inode
whole t = some (record { bytes = t; synced = true })

abbrev OldOrNew : Option Inode → Text → Option Inode → Type 0
OldOrNew old new i = (i ≡ old) ⊎ (i ≡ whole new)

record IsSafe (old : Option Inode) (new : Text) (d : Disk) : Type 0 where
  current_safe : OldOrNew old new d.current
  durable_safe : OldOrNew old new d.durable

abbrev AllSafe : Option Inode → Text → Machine → Type 0
AllSafe old new m = All (IsSafe old new) (states m)

module _ (old : Option Inode) (new : Text) where
  call-AllSafe :
      (f : Disk → Disk) (m : Machine)
      → (IsSafe old new m.now → IsSafe old new (f m.now))
      → AllSafe old new m
      → AllSafe old new (call f m)
  unfolding call
  call-AllSafe f m step s = (step s.0, s)

  write_chunks-AllSafe :
      (chunks : List Text) (m : Machine)
      → AllSafe old new m
      → AllSafe old new (write_chunks chunks m)
  unfolding write_chunks append
  write_chunks-AllSafe [] m s = s
  write_chunks-AllSafe (c ∷ cs) m s = write_chunks-AllSafe cs (call (append c) m) (
      call-AllSafe (append c) m
        (λ h. record { current_safe = h.current_safe; durable_safe = h.durable_safe }) s)

  fill-AllSafe :
      (x : Faults) (chunks : List Text) (m : Machine)
      → AllSafe old new m
      → AllSafe old new (fill x chunks m).0
  unfolding fill sync
  fill-AllSafe x chunks m s = ground (
    arith,
    write_chunks-AllSafe chunks m s,
    call-AllSafe sync (write_chunks chunks m)
        (λ h. record { current_safe = h.current_safe; durable_safe = h.durable_safe })
        (write_chunks-AllSafe chunks m s),
  )

  give_up-AllSafe :
      (x : Faults) (errors : List Error) (m : Machine)
      → AllSafe old new m
      → AllSafe old new (give_up x errors m).0
  unfolding give_up unlink
  give_up-AllSafe x errors m s = ground (
    arith,
    call-AllSafe unlink m
        (λ h. record { current_safe = h.current_safe; durable_safe = h.durable_safe }) s,
  )

  sync_dir-AllSafe :
      (x : Faults) (m : Machine) → AllSafe old new m → AllSafe old new (sync_dir x m).0
  unfolding sync_dir sync_entry
  sync_dir-AllSafe x m s = ground (
    arith,
    call-AllSafe sync_entry m
        (λ h. record { current_safe = h.current_safe; durable_safe = h.current_safe }) s,
  )

  publish-AllSafe :
      (x : Faults) (m : Machine)
      → m.now.tmp ≡ whole new
      → AllSafe old new m
      → AllSafe old new (publish x m).0
  unfolding publish rename
  publish-AllSafe x m e s = elim (Bool-cases x.rename_fails) [
    | inl p ↦ rw (p, publish) (give_up-AllSafe x (rename_error ∷ []) m s)
    | inr p ↦
        rw (p, publish)
          (sync_dir-AllSafe x (call rename m) (
            call-AllSafe rename m
              (λ h. record { current_safe = inr e; durable_safe = h.durable_safe }) s))
  ]

  finish-AllSafe :
      (x : Faults) (m : Machine) (errors : List Error)
      → (errors ≡ [] → m.now.tmp ≡ whole new)
      → AllSafe old new m
      → AllSafe old new (finish x m errors).0
  finish-AllSafe x m [] e s = publish-AllSafe x m (e refl) s
  finish-AllSafe x m (r ∷ errors) e s = give_up-AllSafe x (r ∷ errors) m s

write_chunks-tmp :
    (chunks : List Text) (m : Machine) (i : Inode)
    → m.now.tmp ≡ some i
    → contents (write_chunks chunks m).now.tmp ≡ some (i.bytes ++ joined chunks)
unfolding write_chunks append call
write_chunks-tmp [] m i e = rw (e, append-nil i.bytes)
write_chunks-tmp (c ∷ cs) m i e =
    write_chunks-tmp cs (call (append c) m) (record { bytes = i.bytes ++ c; synced = false })
      (ap (extend c) e)
    ∙ ap some (append_assoc i.bytes c (joined cs))

whole-mark_synced : (i : Option Inode) (t : Text) → contents i ≡ some t → mark_synced i ≡ whole t
whole-mark_synced none t e = cc
whole-mark_synced (some i) t e = ground arith

pub fill-tmp :
    (x : Faults) (chunks : List Text) (m : Machine)
    → m.now.tmp ≡ some (record { bytes = []; synced = false })
    → (fill x chunks m).1 ≡ []
    → (fill x chunks m).0.now.tmp ≡ whole (joined chunks)
unfolding fill sync call
fill-tmp x chunks m e h = ground (
  arith,
  whole-mark_synced (write_chunks chunks m).now.tmp (joined chunks)
      (write_chunks-tmp chunks m (record { bytes = []; synced = false }) e),
)

pub fill_only : (xs ys : List Error) → xs ++ ys ≡ [] → xs ≡ []
fill_only [] ys e = refl
fill_only (x ∷ xs) ys e = cc

write-AllSafe :
    (old : Option Inode) (x : Faults) (chunks : List Text) (m : Machine)
    → AllSafe old (joined chunks) m
    → AllSafe old (joined chunks) (write x chunks m).0
unfolding write create call
write-AllSafe old x chunks m s = elim (Bool-cases x.open_fails) [
  | inl p ↦ rw (p, write) s
  | inr p ↦
      rw (p, write)
        (finish-AllSafe old (joined chunks) x (fill x chunks (call create m)).0 _
          (λ e. fill-tmp x chunks (call create m) refl (fill_only _ _ e))
          (fill-AllSafe old (joined chunks) x chunks (call create m)
            (record { current_safe = s.0.current_safe; durable_safe = s.0.durable_safe }, s)))
]

intact_reads : (i : Option Inode) (r : Option Text) → IsIntact i → AfterLoss i r → r ≡ contents i
intact_reads none r h missing = refl
intact_reads (some i) r h (kept _ s) = refl
intact_reads (some i) r h (garbled _ t s) = cc

OldOrNew-reads :
    (old : Option Inode) (new : Text) (i : Option Inode) (r : Option Text)
    → IsIntact old
    → OldOrNew old new i
    → AfterLoss i r
    → (r ≡ contents old) ⊎ (r ≡ some new)
OldOrNew-reads old new i r h (inl e) l = inl (intact_reads old r h (rw e at l))
OldOrNew-reads old new i r h (inr e) l = inr (intact_reads (whole new) r refl (rw e at l))

-- Whatever the disk comes back with at d is the old content or the new one.
abbrev pub OnlyOldOrNew : Option Text → Text → Disk → Type 0
OnlyOldOrNew old new d = (r : Option Text) → Survives d r → (r ≡ old) ⊎ (r ≡ some new)

IsSafe-OnlyOldOrNew :
    (old : Option Inode) (new : Text) (d : Disk)
    → IsIntact old
    → IsSafe old new d
    → OnlyOldOrNew (contents old) new d
IsSafe-OnlyOldOrNew old new d h s r (old_entry l) =
    OldOrNew-reads old new d.durable r h s.durable_safe l
IsSafe-OnlyOldOrNew old new d h s r (new_entry l) =
    OldOrNew-reads old new d.current r h s.current_safe l

All-map : {P Q : Disk → Type 0} (ds : List Disk) → ((d : Disk) → P d → Q d) → All P ds → All Q ds
All-map [] f h = tt
All-map (d ∷ ds) f h = (f d h.0, All-map ds f h.1)

-- `Write` on a file that is safe on the disk, whichever calls fail: if the power goes in any state
-- that it passes through, the file comes back with its old content or with all of the new one.
pub write_crash_safe :
    (x : Faults) (chunks : List Text) (d : Disk)
    → d.durable ≡ d.current
    → IsIntact d.current
    → All (OnlyOldOrNew (contents d.current) (joined chunks)) (states (write x chunks (start d)).0)
write_crash_safe x chunks d e h =
    All-map (states (write x chunks (start d)).0)
      (λ s. IsSafe-OnlyOldOrNew d.current (joined chunks) s h)
      (write-AllSafe d.current x chunks (start d)
        (record { current_safe = inl refl; durable_safe = inl e }, tt))
