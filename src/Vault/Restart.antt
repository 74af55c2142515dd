-- ===== src/Vault/Restart.antt =====
-- internal/vault/vault.go: `Put`, `Delete` and `Get` across a restart of the process.
use rightsizer.Prelude.{
  ok, err, present, Outcome-cases, ◌≡◌, refl, sym, ap, ◌∙◌, ◌⊎◌, inl, inr, false, some, arith,
  if◌then◌else◌, Option-cases,
}
use rightsizer.Text.{Text}
use rightsizer.Text.Equality.{text_eq}
use rightsizer.Map.{Map, lookup, insert, delete, SameMap, lookup-insert, lookup-delete}
use rightsizer.Atomicfile.Outcome.{published, write_file-unpublished}
use rightsizer.Vault.{
  Secret, Crypto, IsSound, Error, Result, locked_error, no_credentials, commit, Vault, Env, opened,
  read, sealed_file, seal, unlock, get, update, put, remove, File,
}
use rightsizer.Atomicfile.{Disk}
use rightsizer.Vault.Session.{IsOpen, update-IsOpen, unlock-opened}

module _ (c : Crypto) where
  get-lookup :
      (j : Text) (v : Vault) (key : Text)
      → v.key ≡ some key
      → get c j v ≡ present no_credentials (lookup j v.sec)
  unfolding get
  get-lookup j v key e = ground (arith, e)

  get-cong :
      (j : Text) (u v : Vault) (k k' : Text)
      → u.key ≡ some k
      → v.key ≡ some k'
      → lookup j u.sec ≡ lookup j v.sec
      → get c j u ≡ get c j v
  get-cong j u v k k' e e' h =
      get-lookup j u k e ∙ (ap (present no_credentials) h ∙ sym (get-lookup j v k' e'))

module _ (c : Crypto) (sound : IsSound c) where
  -- What `update` stored is what a new process reads after `Unlock`.
  update-restart :
      (env env' : Env) (p : Text) (fn : Map Secret → Map Secret) (v : Vault)
      → IsOpen c sound p v
      → (update c env fn v).1 ≡ ok tt
      → env'.read_fails ≡ false
      → let (u, r) = unlock c env' p (opened (update c env fn v).0.disk) in
        (r ≡ ok tt) × IsOpen c sound p u × SameMap u.sec (fn v.sec)
  update-restart env env' p fn v o h calm =
      let (still, e) = update-IsOpen c sound env p fn v o h in
      let (r, open_again, same) = unlock-opened c sound env' p (update c env fn v).0 still calm in
      (r, open_again, λ k. same k ∙ ap (lookup k) e)

  -- `Put` on an open vault, when it returns no error: after a restart the same password unlocks the
  -- vault, the new secret is there, and every other one is as it was.
  pub put-restart :
      (env env' : Env) (p id : Text) (s : Secret) (v : Vault)
      → IsOpen c sound p v
      → (put c env id s v).1 ≡ ok tt
      → env'.read_fails ≡ false
      → let (u, r) = unlock c env' p (opened (put c env id s v).0.disk) in
        (r ≡ ok tt) × ((j : Text) → get c j u ≡ (if text_eq id j then ok s else get c j v))
  unfolding put
  put-restart env env' p id s v o h calm =
      let (r, again, same) = update-restart env env' p (insert id s) v o h calm in
      (
        r,
        λ j.
            get-lookup c j _ again.key again.has_key
            ∙ ground (arith, same j, lookup-insert id j s v.sec, get-lookup c j v o.key o.has_key),
      )

  -- `Delete` on an open vault, when it returns no error: after a restart the same password unlocks
  -- the vault, the secret is gone, and every other one is as it was.
  pub remove-restart :
      (env env' : Env) (p id : Text) (v : Vault)
      → IsOpen c sound p v
      → (remove c env id v).1 ≡ ok tt
      → env'.read_fails ≡ false
      → let (u, r) = unlock c env' p (opened (remove c env id v).0.disk) in
        (r ≡ ok tt)
        × ((j : Text) → get c j u ≡ (if text_eq id j then err no_credentials else get c j v))
  unfolding remove
  remove-restart env env' p id v o h calm =
      let (r, again, same) = update-restart env env' p (delete id) v o h calm in
      (
        r,
        λ j.
            get-lookup c j _ again.key again.has_key
            ∙ ground (arith, same j, lookup-delete id j v.sec, get-lookup c j v o.key o.has_key),
      )

module _ (c : Crypto) where
  seal-unpublished :
      (env : Env) (key : Text) (f : File) (m : Map Secret) (d : Disk)
      → published env.faults ≡ false
      → (seal c env key f m d).0.current ≡ d.current
  unfolding seal
  seal-unpublished env key f m d h =
      ground
        (arith, write_file-unpublished env.faults (c.marshal_file (sealed_file c env key f m)) d h)

  commit_fails :
      (v : Vault) (key : Text) (m : Map Secret) (r : Disk × Result (Unit {0})) {e : Error}
      → (commit v key m r).1 ≡ err e
      → ((commit v key m r).0.key ≡ v.key)
        × ((commit v key m r).0.sec ≡ v.sec)
        × ((commit v key m r).0.disk ≡ r.0)
  commit_fails v key m (d, ok u) h = cc
  commit_fails v key m (d, err e) h = (refl, refl, refl)

  update_cases :
      (env : Env) (fn : Map Secret → Map Secret) (v : Vault)
      → ((e : Error) × (update c env fn v ≡ (v, err e)))
        ⊎ ((key : Text) × (f : File) × (update c env fn v
              ≡ commit v key (fn v.sec) (seal c env key f (fn v.sec) v.disk)))
  unfolding update
  update_cases env fn v = elim (Option-cases v.key) [
    | inl e ↦ inl (locked_error, ground (arith, e))
    | inr (key, e) ↦ elim (Outcome-cases (read c env.read_fails v.disk)) [
      | inl (f, r) ↦ inr (key, f, ground (arith, e, r))
      | inr (x, r) ↦ inl (x, ground (arith, e, r))
    ]
  ]

  -- `Put` or `Delete` that returns an error: the key and every secret in memory are as they were, and
  -- so is the file, unless the new one had been renamed over it.
  pub update_fails :
      (env : Env) (fn : Map Secret → Map Secret) (v : Vault) {e : Error}
      → (update c env fn v).1 ≡ err e
      → let w = (update c env fn v).0 in
        (w.key ≡ v.key)
        × (w.sec ≡ v.sec)
        × (published env.faults ≡ false → w.disk.current ≡ v.disk.current)
  update_fails env fn v h = elim (update_cases env fn v) [
    | inl (e, u) ↦ rw u (refl, refl, λ p. refl)
    | inr (key, f, u) ↦
        let r = seal c env key f (fn v.sec) v.disk in
        let (k, s, d) = commit_fails v key (fn v.sec) r (rw u at h) in
        rw u (k, s, λ p. ap (λ x. x.current) d ∙ seal-unpublished env key f (fn v.sec) v.disk p)
  ]
