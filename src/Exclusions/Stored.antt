-- ===== src/Exclusions/Stored.antt =====
-- The exclusions in memory against those in the file (internal/engine/exclusions.go).
use rightsizer.Prelude.{
  ◌+◌, ◌≤◌, ◌<◌, ◌≡◌, refl, sym, ap, ◌∙◌, ◌⊎◌, inl, inr, true, false, ◌&&◌, some, List, [], ◌∷◌,
  ◌++◌, arith, leb, length, length-append, Outcome, ok, err, if-both, All,
}
use mathlib.Core.Path.{subst}
use rightsizer.Text.{Text}
use rightsizer.Text.Equality.{text_eq, text_eq_refl}
use rightsizer.Text.Strings.{trim_space}
use rightsizer.Atomicfile.{Faults}
use rightsizer.Atomicfile.Outcome.{published, settled}
use rightsizer.Recommend.Exclusions.{Matching, Invalid, Exclusion, validate}
use rightsizer.Exclusions.{
  Failure, invalid, too_many, Codec, Env, Kept, trimmed, stamped, exclude, without, unexclude, load,
  Call, exclude_call, unexclude_call, perform, run,
}
use rightsizer.Exclusions.Saving.{
  IsUnsaved, IsWritten, InStep, Unstored, Refused, Saves, save-Saves, removed, exclude-Saves,
  exclude_invalid, exclude_full, exclude_cases, added, unexclude_cases,
}

module _ (cd : Codec) (mt : Matching) where
  abbrev outcome : Call → Kept → Outcome Failure Text
  outcome c k = (perform cd mt c k).1

  -- No call has failed to save.
  abbrev pub AllSaved : List Call → Kept → Type 0
  AllSaved [] k = Unit
  AllSaved (c ∷ cs) k = (¬ IsUnsaved (outcome c k)) × AllSaved cs ((perform cd mt c k).0)

  saved-InStep :
      (id : Text) (x : Faults) (k k' : Kept) (o : Kept × Outcome Failure Text)
      → InStep cd mt k
      → Refused cd mt k o ⊎ Saves cd mt id x k' o
      → ¬ IsUnsaved (o.1)
      → InStep cd mt (o.0)
  saved-InStep id x k k' o s (inl (e, q, n)) h = subst (λ p. InStep cd mt (p.0)) (sym q) s
  saved-InStep id x k k' o s (inr (q, inl (r, w, f), g)) h =
      inr (subst (λ xs. IsWritten cd mt xs (o.0).disk) (sym q) w)
  saved-InStep id x k k' o s (inr (q, inr (e, r, u, f, d), g)) h =
      absurd (h (subst IsUnsaved (sym r) u))

  perform-InStep :
      (c : Call) (k : Kept)
      → InStep cd mt k
      → ¬ IsUnsaved (outcome c k)
      → InStep cd mt ((perform cd mt c k).0)
  unfolding perform
  perform-InStep (exclude_call env x) k s h =
      let o = exclude cd mt env x k in
      saved-InStep env.id env.faults k (added cd mt env x k) o s (exclude_cases cd mt env x k) h
  perform-InStep (unexclude_call env id) k s h =
      let o = unexclude cd mt env id k in
      saved-InStep id env.faults k (removed cd mt id k) o s (unexclude_cases cd mt env id k) h

  run-InStep :
      (cs : List Call) (k : Kept) → InStep cd mt k → AllSaved cs k → InStep cd mt (run cd mt cs k)
  unfolding run
  run-InStep [] k s h = s
  run-InStep (c ∷ cs) k s (h, hs) =
      run-InStep cs ((perform cd mt c k).0) (perform-InStep c k s h) hs

-- The encoding loses nothing.
abbrev pub IsFaithful : Codec → Type 0
IsFaithful cd = (xs : List Exclusion) (b : Text) → cd.marshal xs ≡ some b → cd.unmarshal b ≡ some xs

module _ (cd : Codec) (mt : Matching) (faithful : IsFaithful cd) where
  -- What the engine that starts reads from the file.
  abbrev pub Restarts : Kept → Type 0
  Restarts k = let (k', r) = load cd mt false false k.disk in (k'.excl ≡ k.excl) × (r ≡ ok tt)

  InStep-Restarts : (k : Kept) → InStep cd mt k → Restarts k
  unfolding load
  InStep-Restarts k (inl (e, d)) = rw d (sym e, refl)
  InStep-Restarts k (inr (b, m, d)) = rw d (rw (faithful k.excl b m) (refl, refl))

  -- After any calls of Exclude and Unexclude none of which failed to save, a restart finds the
  -- exclusions that were in memory, if it did before them, with a file that can be read.
  pub run-Restarts :
      (cs : List Call) (k : Kept) → InStep cd mt k → AllSaved cd mt cs k → Restarts (run cd mt cs k)
  run-Restarts cs k s h = InStep-Restarts (run cd mt cs k) (run-InStep cd mt cs k s h)

  -- Exclude refuses an invalid exclusion, and any where there are 1000, and changes nothing then.
  -- Otherwise the exclusion stands last in memory, also when the call fails: trimmed, with the new id
  -- and the time. Either the call answers with the new id, every analysis is computed again, and a
  -- restart finds them all; or it answers with an error, no analysis is computed again, and the file,
  -- unless it was renamed, is the old one. It succeeds if the exclusions can be encoded and no call of
  -- the operating system fails.
  pub exclude_outcome :
      (env : Env) (x : Exclusion) (k : Kept)
      → let o = exclude cd mt env x k in
        let given : Exclusion = record x { note = trim_space x.note; name = trim_space x.name } in
        let last = k.excl ++ (record given { id = env.id; created = env.now } ∷ []) in
        ((e : Invalid) → validate mt given ≡ err e → o ≡ (k, err (invalid e)))
        × (validate mt given ≡ ok tt → 1000 ≤ length k.excl → o ≡ (k, err too_many))
        × (validate mt given ≡ ok tt
            → length k.excl < 1000
            → ((o.0).excl ≡ last)
              × (((o.1 ≡ ok env.id) × ((o.0).refreshed ≡ k.refreshed + 1) × Restarts (o.0))
                  ⊎ Unstored cd mt env.faults k o)
              × ((b : Text)
                  → cd.marshal last ≡ some b
                  → (published env.faults && settled env.faults) ≡ true
                  → o.1 ≡ ok env.id))
  exclude_outcome env x k = (
    exclude_invalid cd mt env x k,
    exclude_full cd mt env x k,
    λ v room.
        let (q, saved, good) = exclude-Saves cd mt env x k v room in
        let k' = (exclude cd mt env x k).0 in
        (
          q,
          elim saved [
            | inl (r, w, f) ↦
                let held = subst (λ xs. IsWritten cd mt xs k'.disk) (sym q) w in
                inl (r, f, InStep-Restarts k' (inr held))
            | inr failed ↦ inr failed
          ],
          good,
        ),
  )

module _ (cd : Codec) (mt : Matching) where
  without-append :
      (id : Text) (xs : List Exclusion) (x : Exclusion)
      → All (λ y. text_eq y.id id ≡ false) xs
      → text_eq x.id id ≡ true
      → without id (xs ++ (x ∷ [])) ≡ xs
  unfolding without
  without-append id [] x h e = rw e refl
  without-append id (y ∷ ys) x (h, hs) e = rw h (ap (λ l. y ∷ l) (without-append id ys x hs e))

  -- What remains without an id that is there once is shorter, so Unexclude does not refuse.
  unexclude_found :
      (env : Env) (id : Text) (k : Kept)
      → leb (length k.excl) (length (without id k.excl)) ≡ false
      → ((unexclude cd mt env id k).0).excl ≡ without id k.excl
  unfolding unexclude
  unexclude_found env id k h =
      if-both (λ (o : Kept × Outcome Failure Text). (o.0).excl ≡ without id k.excl)
        (leb (length k.excl) (length (without id k.excl))) (λ e. absurd (cc))
        (λ e. (save-Saves cd mt id env.faults (removed cd mt id k)).0)

  -- Unexclude with the id that Exclude answered takes the exclusion away again, and no other one, if
  -- the id was new.
  pub exclude-unexclude :
      (env env' : Env) (x : Exclusion) (k : Kept)
      → All (λ y. text_eq y.id env.id ≡ false) k.excl
      → (exclude cd mt env x k).1 ≡ ok env.id
      → ((unexclude cd mt env' env.id ((exclude cd mt env x k).0)).0).excl ≡ k.excl
  exclude-unexclude env env' x k new r = elim (exclude_cases cd mt env x k) [
    | inl (e, q, n) ↦ let failed = ap (λ (p : Kept × Outcome Failure Text). p.1) q in absurd (cc)
    | inr (q, rest, good) ↦
        let k' = (exclude cd mt env x k).0 in
        let last =
          without-append env.id k.excl (stamped env (trimmed x)) new (text_eq_refl env.id) in
        let w = ap (without env.id) q ∙ last in
        let long = length-append k.excl (stamped env (trimmed x) ∷ []) in
        unexclude_found env' env.id k' (
          ground (
            arith,
            ap (λ (l : List Exclusion). length l) q,
            ap (λ (l : List Exclusion). length l) w,
            long,
          ))
        ∙ w
  ]
