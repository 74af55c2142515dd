-- ===== src/Parameters/Stored.antt =====
-- The sizing parameters in memory against those in their file (internal/engine/sizing.go).
use rightsizer.Prelude.{
  ◌≡◌, refl, ap, ◌∙◌, ◌⊎◌, inl, inr, true, false, ◌&&◌, Option, none, some, List, [], ◌∷◌, Outcome,
  ok, err,
}
use rightsizer.Floats.{Floats}
use rightsizer.Text.{Text}
use rightsizer.Atomicfile
use rightsizer.Atomicfile.{Inode, Disk, Faults, write, write_file}
use rightsizer.Atomicfile.Crash.{start}
use rightsizer.Atomicfile.Outcome.{
  published, settled, write_outcome, write_file-current, write_file-unpublished,
}
use rightsizer.Recommend.Exclusions.{Matching}
use rightsizer.Parameters.{
  Field, SizingParams, default_sizing, validate, Failure, invalid, unencodable, unsaved, Codec,
  Kept, after_write, write_params, encoded, validated, set_sizing_params, admitted, decoded,
  load_from, load_sizing,
}

module _ (fl : Floats) (cd : Codec fl) (mt : Matching) where
  -- What was encoded is decoded as it was.
  abbrev pub IsFaithful : Type 0
  IsFaithful = (p : SizingParams fl) (b : Text) → cd.marshal p ≡ some b → cd.unmarshal b ≡ some p

  -- What an engine that starts on the disk has, if the file can be read.
  abbrev pub restarted : Disk → Kept fl × Outcome (Failure fl) (Unit {0})
  unfolding load_sizing
  restarted d = load_sizing fl cd mt false false d

  -- The parameters are valid, in memory and in the file.
  abbrev pub IsStored : SizingParams fl → Kept fl × Outcome (Failure fl) (Unit {0}) → Type 0
  unfolding restarted
  IsStored p (k', r) =
      (r ≡ ok tt)
      × (validate fl mt p ≡ ok tt)
      × (k'.sizing ≡ p)
      × (restarted k'.disk ≡ (record { sizing = p; disk = k'.disk }, ok tt))

  -- The call has failed. Memory is as before, and so is the file without a rename.
  abbrev pub IsUnstored : Faults → Kept fl → Kept fl × Outcome (Failure fl) (Unit {0}) → Type 0
  IsUnstored x k (k', r) =
      (e : Failure fl) × (r ≡ err e)
      × (k'.sizing ≡ k.sizing)
      × (published x ≡ false → k'.disk.current ≡ k.disk.current)

  load-Stored :
      IsFaithful
      → (p : SizingParams fl) (b : Text) (d : Disk) → cd.marshal p ≡ some b
      → validate fl mt p ≡ ok tt
      → d.current ≡ some (record { bytes = b; synced = true })
      → restarted d ≡ (record { sizing = p; disk = d }, ok tt)
  unfolding restarted load_sizing load_from decoded
  load-Stored faithful p b d m v c =
      let k : Kept fl = record { sizing = default_sizing fl; disk = d } in
      ap (load_from fl cd mt false false k) c
      ∙ ap (decoded fl mt false k) (faithful p b m)
      ∙ ap (admitted fl false k p) v

  after_write_cases :
      IsFaithful
      → (x : Faults) (p : SizingParams fl) (b : Text) (k : Kept fl) (d : Disk)
        (es : List Atomicfile.Error)
      → cd.marshal p ≡ some b
      → validate fl mt p ≡ ok tt
      → (es ≡ [] → d.current ≡ some (record { bytes = b; synced = true }))
      → (published x ≡ false → d.current ≡ k.disk.current)
      → let o = after_write fl p (record k { disk = d }, es) in IsStored p o ⊎ IsUnstored x k o
  unfolding IsStored
  after_write_cases faithful x p b k d [] m v c g =
      inl (refl, v, refl, load-Stored faithful p b d m v (c refl))
  after_write_cases faithful x p b k d (e ∷ es) m v c g = inr (unsaved (e ∷ es), refl, refl, g)

  encoded_cases :
      IsFaithful
      → (x : Faults) (p : SizingParams fl) (k : Kept fl) → validate fl mt p ≡ ok tt
      → (mb : Option Text) → cd.marshal p ≡ mb
      → let o = encoded fl x p k mb in IsStored p o ⊎ IsUnstored x k o
  unfolding encoded write_params IsStored
  encoded_cases faithful x p k v none m = inr (unencodable, refl, refl, λ u. refl)
  encoded_cases faithful x p k v (some b) m =
      let (d, es) = write_file x b (start k.disk) in
      after_write_cases faithful x p b k d.now es m v (write_file-current x b k.disk)
        (write_file-unpublished x b k.disk)

  set_sizing_params_succeeds :
      (x : Faults) (p : SizingParams fl) (k : Kept fl) (b : Text)
      → validate fl mt p ≡ ok tt
      → cd.marshal p ≡ some b
      → (published x && settled x) ≡ true
      → (set_sizing_params fl cd mt x p k).1 ≡ ok tt
  unfolding set_sizing_params validated encoded write_params write_file
  set_sizing_params_succeeds x p k b v m fine =
      let (disk, es) = write x (b ∷ []) (start k.disk) in
      let written : es ≡ [] = (write_outcome x (b ∷ []) k.disk).1.1 fine in
      ap (λ (o : Kept fl × Outcome (Failure fl) (Unit {0})). o.1)
        (ap (validated fl cd x p k) v ∙ ap (encoded fl x p k) m)
      ∙ ap (λ l. (after_write fl p (record k { disk = disk.now }, l)).1) written

  set_sizing_params_cases :
      IsFaithful
      → (x : Faults) (p : SizingParams fl) (k : Kept fl)
      → let o = set_sizing_params fl cd mt x p k in IsStored p o ⊎ IsUnstored x k o
  unfolding set_sizing_params validated IsStored
  set_sizing_params_cases faithful x p k = cases (validate fl mt p) refl
    where
      cases :
          (v : Outcome Field (Unit {0}))
          → validate fl mt p ≡ v
          → let o = validated fl cd x p k v in IsStored p o ⊎ IsUnstored x k o
      cases (err f) e = inr (invalid f, refl, refl, λ u. refl)
      cases (ok u) e = encoded_cases faithful x p k e (cd.marshal p) refl

  -- `SetSizingParams` either succeeds, and then the parameters are valid, stand in memory, and an engine
  -- that starts again finds them; or it returns an error and leaves memory as it was, and the file too
  -- unless the rename has taken place. It succeeds for valid parameters that can be encoded if no call
  -- of the operating system fails. The encoding is taken to lose nothing.
  pub set_sizing_params_outcome :
      IsFaithful
      → (x : Faults) (p : SizingParams fl) (k : Kept fl)
      → let o = set_sizing_params fl cd mt x p k in
        (IsStored p o ⊎ IsUnstored x k o)
        × ((b : Text)
            → validate fl mt p ≡ ok tt
            → cd.marshal p ≡ some b
            → (published x && settled x) ≡ true
            → o.1 ≡ ok tt)
  set_sizing_params_outcome faithful x p k =
      (set_sizing_params_cases faithful x p k, set_sizing_params_succeeds x p k)
