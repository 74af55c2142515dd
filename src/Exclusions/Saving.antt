-- ===== src/Exclusions/Saving.antt =====
-- What the calls of internal/engine/exclusions.go leave in memory and in the file.
use rightsizer.Prelude.{
  ◌+◌, ◌≤◌, ◌<◌, ◌≡◌, refl, ◌⊎◌, inl, inr, true, false, ◌&&◌, Option, none, some, List, [], ◌∷◌,
  ◌++◌, arith, leb, length, Outcome, ok, err, Bool-cases, if-both,
}
use rightsizer.Text.{Text}
use rightsizer.Atomicfile
use rightsizer.Atomicfile.{Inode, Disk, Faults, write, write_file}
use rightsizer.Atomicfile.Crash.{start}
use rightsizer.Atomicfile.Outcome.{
  published, settled, write_outcome, write_file-current, write_file-unpublished,
}
use rightsizer.Recommend.Exclusions.{Matching, Invalid, Exclusion, validate}
use rightsizer.Exclusions.{
  max_exclusions, Failure, invalid, too_many, unknown, unsaved, unencodable, Codec, Env, Kept, save,
  save_bytes, written, after_save, trimmed, stamped, exclude, without, unexclude,
}

-- A failure that left memory and file apart.
abbrev pub IsUnsaved : {A : Type 0} → Outcome Failure A → Type 0
IsUnsaved (err unencodable) = Unit
IsUnsaved (err (unsaved es)) = Unit
IsUnsaved _ = ⊥

module _ (cd : Codec) (mt : Matching) where
  -- The file holds the exclusions.
  abbrev pub IsWritten : List Exclusion → Disk → Type 0
  IsWritten xs d =
      (b : Text) × (cd.marshal xs ≡ some b)
      × (d.current ≡ some (record { bytes = b; synced = true }))

  -- The file holds the exclusions, or there is none of either.
  abbrev pub InStep : Kept → Type 0
  InStep k = ((k.excl ≡ []) × (k.disk.current ≡ none)) ⊎ IsWritten k.excl k.disk

  -- The call has stored the exclusions, and every analysis is computed again.
  abbrev Stored : Text → Kept → Kept × Outcome Failure Text → Type 0
  Stored id k (k', r) = (r ≡ ok id) × IsWritten k.excl k'.disk × (k'.refreshed ≡ k.refreshed + 1)

  -- The call has failed to. Without a rename the file is the old one.
  abbrev pub Unstored : Faults → Kept → Kept × Outcome Failure Text → Type 0
  Unstored x k (k', r) =
      (e : Failure) × (r ≡ err e)
      × IsUnsaved {A = Text} (err e)
      × (k'.refreshed ≡ k.refreshed)
      × (published x ≡ false → k'.disk.current ≡ k.disk.current)

  -- The call has changed nothing.
  abbrev pub Refused : Kept → Kept × Outcome Failure Text → Type 0
  Refused k o = (e : Failure) × (o ≡ (k, err e)) × ¬ IsUnsaved {A = Text} (err e)

  -- Where the exclusions can be encoded and no call of the operating system fails, it succeeds.
  abbrev Succeeds : Text → Faults → Kept → Outcome Failure Text → Type 0
  Succeeds id x k r =
      (b : Text) → cd.marshal k.excl ≡ some b → (published x && settled x) ≡ true → r ≡ ok id

  abbrev pub Saves : Text → Faults → Kept → Kept × Outcome Failure Text → Type 0
  Saves id x k o = ((o.0).excl ≡ k.excl) × (Stored id k o ⊎ Unstored x k o) × Succeeds id x k (o.1)

  written-Saves :
      (id : Text) (x : Faults) (k : Kept) (b : Text) (d : Disk) (es : List Atomicfile.Error)
      → cd.marshal k.excl ≡ some b
      → (es ≡ [] → d.current ≡ some (record { bytes = b; synced = true }))
      → (published x ≡ false → d.current ≡ k.disk.current)
      → ((published x && settled x) ≡ true → es ≡ [])
      → Saves id x k (after_save id (written (record k { disk = d }, es)))
  written-Saves id x k b d [] m h g f = (refl, inl (refl, (b, m, h refl), refl), λ c n fine. refl)
  written-Saves id x k b d (e ∷ es) m h g f =
      (refl, inr (unsaved (e ∷ es), refl, tt, refl, g), λ c n fine. let bad = f fine in absurd (cc))

  bytes-Saves :
      (id : Text) (x : Faults) (k : Kept) (mb : Option Text)
      → cd.marshal k.excl ≡ mb
      → Saves id x k (after_save id (save_bytes x k mb))
  unfolding save_bytes write_file
  bytes-Saves id x k none m =
      (refl, inr (unencodable, refl, tt, refl, λ h. refl), λ b n fine. absurd (cc))
  bytes-Saves id x k (some b) m =
      let (machine, es) = write x (b ∷ []) (start k.disk) in
      written-Saves id x k b machine.now es m (write_file-current x b k.disk)
        (write_file-unpublished x b k.disk) (λ fine. (write_outcome x (b ∷ []) k.disk).1.1 fine)

  pub save-Saves :
      (id : Text) (x : Faults) (k : Kept) → Saves id x k (after_save id (save cd mt x k))
  unfolding save
  save-Saves id x k = bytes-Saves id x k (cd.marshal k.excl) refl

  abbrev pub removed : Text → Kept → Kept
  removed id k = record k { excl = without id k.excl }

  -- With a valid exclusion and room for it, Exclude saves.
  pub exclude-Saves :
      (env : Env) (x : Exclusion) (k : Kept)
      → validate mt (trimmed x) ≡ ok tt
      → length k.excl < max_exclusions
      → Saves env.id env.faults
          (record k { excl = k.excl ++ (stamped env (trimmed x) ∷ []) })
          (exclude cd mt env x k)
  unfolding exclude
  exclude-Saves env x k v room =
      let k' : Kept = record k { excl = k.excl ++ (stamped env (trimmed x) ∷ []) } in
      let fits : leb max_exclusions (length k.excl) ≡ false = ground (arith, room) in
      rw (v, fits) (save-Saves env.id env.faults k')

  pub exclude_invalid :
      (env : Env) (x : Exclusion) (k : Kept) (e : Invalid)
      → validate mt (trimmed x) ≡ err e
      → exclude cd mt env x k ≡ (k, err (invalid e))
  unfolding exclude
  exclude_invalid env x k e v = rw v refl

  pub exclude_full :
      (env : Env) (x : Exclusion) (k : Kept)
      → validate mt (trimmed x) ≡ ok tt
      → max_exclusions ≤ length k.excl
      → exclude cd mt env x k ≡ (k, err too_many)
  unfolding exclude
  exclude_full env x k v full =
      let over : leb max_exclusions (length k.excl) ≡ true = ground (arith, full) in
      rw (v, over) refl

  validity :
      (x : Exclusion)
      → ((e : Invalid) × (validate mt (trimmed x) ≡ err e)) ⊎ (validate mt (trimmed x) ≡ ok tt)
  validity x = split (validate mt (trimmed x)) refl
    where
      split :
          (v : Outcome Invalid (Unit {0}))
          → validate mt (trimmed x) ≡ v
          → ((e : Invalid) × (validate mt (trimmed x) ≡ err e)) ⊎ (validate mt (trimmed x) ≡ ok tt)
      split (err e) h = inl (e, h)
      split (ok u) h = inr h

  pub exclude_cases :
      (env : Env) (x : Exclusion) (k : Kept)
      → let o = exclude cd mt env x k in
        Refused k o
        ⊎ Saves env.id env.faults (record k { excl = k.excl ++ (stamped env (trimmed x) ∷ []) }) o
  exclude_cases env x k = elim (validity x) [
    | inl (e, v) ↦ inl (invalid e, exclude_invalid env x k e v, λ h. h)
    | inr v ↦ elim (Bool-cases (leb max_exclusions (length k.excl))) [
      | inl b ↦ inl (too_many, exclude_full env x k v (ground (arith, b)), λ h. h)
      | inr b ↦ inr (exclude-Saves env x k v (ground (arith, b)))
    ]
  ]

  abbrev pub added : Env → Exclusion → Kept → Kept
  added env x k = record k { excl = k.excl ++ (stamped env (trimmed x) ∷ []) }

  pub unexclude_cases :
      (env : Env) (id : Text) (k : Kept)
      → let o = unexclude cd mt env id k in
        Refused k o ⊎ Saves id env.faults (record k { excl = without id k.excl }) o
  unfolding unexclude
  unexclude_cases env id k =
      let k' : Kept = record k { excl = without id k.excl } in
      if-both (λ o. Refused k o ⊎ Saves id env.faults k' o)
        (leb (length k.excl) (length (without id k.excl))) (λ e. inl (unknown, refl, λ h. h))
        (λ e. inr (save-Saves id env.faults k'))
