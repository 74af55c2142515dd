-- ===== src/Vault/Session.antt =====
-- internal/vault/vault.go: what an open vault stores is there after a restart.
use rightsizer.Prelude.{
  ok, err, >>=-ok, require-ok, Outcome-cases, ◌≡◌, refl, inl, inr, Bool, true, false, some, arith,
  length,
}
use rightsizer.Text.{Text}
use rightsizer.Text.Equality.{text_eq}
use rightsizer.Map.{Map, SameMap}
use rightsizer.Atomicfile.{Disk}
use rightsizer.Atomicfile.Outcome.{write_file-current}
use rightsizer.Vault.{
  Secret, File, Crypto, IsSound, Result, Vault, Env, written, aad, opened, derive, read, open_file,
  sealed_file, seal, login, unlock, commit, update,
}

module _ (c : Crypto) (sound : IsSound c) where
  -- The file at d opens under p with this key, and holds these secrets.
  pub record Opens (p : Text) (d : Disk) (key : Text) (m : Map Secret) : Type 0 where
    pub file : File
    pub is_read : read c false d ≡ ok file
    pub fits : text_eq (derive c p file.auth) file.hash ≡ true
    pub key_is : key ≡ derive c p file.enc
    pub opens : open_file c key file ≡ ok m

  login-Opens :
      (env : Env) (p : Text) (d : Disk) (key : Text) (m : Map Secret)
      → env.read_fails ≡ false
      → Opens p d key m
      → login c env p d ≡ ok (key, m)
  unfolding login
  login-Opens env p d key m calm o =
      rw (calm, o.is_read, login) (rw (o.fits) (ground (arith, o.opens, o.key_is)))

  read-calm : (fails : Bool) (d : Disk) (f : File) → read c fails d ≡ ok f → read c false d ≡ ok f
  unfolding read
  read-calm true d f h = ground arith
  read-calm false d f h = h

  pub Opens-login :
      (env : Env) (p : Text) (d : Disk) (key : Text) (m : Map Secret)
      → login c env p d ≡ ok (key, m)
      → Opens p d key m
  unfolding login
  Opens-login env p d key m h =
      let (f, is_read, rest) = >>=-ok (read c env.read_fails d) _ h in
      let (fits, rest') = require-ok _ (text_eq (derive c p f.auth) f.hash) _ rest in
      let (m', opens, last) = >>=-ok (open_file c (derive c p f.enc) f) _ rest' in
      record {
        file = f;
        is_read = read-calm env.read_fails d f is_read;
        fits = fits;
        key_is = cc;
        opens = cc (opens, last);
      }

  open_file-sealed :
      (env : Env) (key : Text) (f : File) (m : Map Secret)
      → length key ≡ 32
      → (m' : Map Secret) × (open_file c key (sealed_file c env key f m) ≡ ok m') × SameMap m' m
  unfolding open_file sealed_file
  open_file-sealed env key f m l =
      let (m', e, same) = sound.secrets-read m in
      (m', ground (arith, e, sound.open-seal key env.nonce (c.marshal_secrets m) aad), same)

  read-version : (d : Disk) (f : File) → read c false d ≡ ok f → f.version ≡ 1
  unfolding read
  read-version d f h = ground arith

  read-written :
      (d : Disk) (f : File)
      → f.version ≡ 1
      → d.current ≡ some (record { bytes = c.marshal_file f; synced = true })
      → read c false d ≡ ok f
  unfolding read
  read-written d f v e = rw (e, read) (rw (sound.file-read f) (ground arith))

  seal_inv :
      (env : Env) (key : Text) (f : File) (m : Map Secret) (d : Disk)
      → (seal c env key f m d).1 ≡ ok tt
      → (length key ≡ 32)
        × ((seal c env key f m d).0.current
            ≡ some (record { bytes = c.marshal_file (sealed_file c env key f m); synced = true }))
  unfolding seal
  seal_inv env key f m d h =
      ground (arith, write_file-current env.faults (c.marshal_file (sealed_file c env key f m)) d)

  -- What `seal` has written opens under the password that the file was made for.
  seal-Opens :
      (env : Env) (p key : Text) (f : File) (m : Map Secret) (d : Disk)
      → (seal c env key f m d).1 ≡ ok tt
      → f.version ≡ 1
      → text_eq (derive c p f.auth) f.hash ≡ true
      → key ≡ derive c p f.enc
      → (m' : Map Secret) × Opens p (seal c env key f m d).0 key m' × SameMap m' m
  unfolding sealed_file
  seal-Opens env p key f m d h v fits key_is =
      let (size, written) = seal_inv env key f m d h in
      let (m', opens, same) = open_file-sealed env key f m size in
      (
        m',
        record {
          file = sealed_file c env key f m;
          is_read = read-written (seal c env key f m d).0 (sealed_file c env key f m) v written;
          fits = fits;
          key_is = key_is;
          opens = opens;
        },
        same,
      )

  -- A vault that p has opened, or made: its key opens the file, and the file holds its secrets.
  pub record IsOpen (p : Text) (v : Vault) : Type 0 where
    pub key : Text
    pub stored : Map Secret
    pub has_key : v.key ≡ some key
    pub opens_file : Opens p v.disk key stored
    pub same : SameMap stored v.sec

  commit-ok :
      (v : Vault) (key : Text) (m : Map Secret) (r : Disk × Result (Unit {0}))
      → (commit v key m r).1 ≡ ok tt
      → (r.1 ≡ ok tt) × (commit v key m r ≡ (record { key = some key; sec = m; disk = r.0 }, ok tt))
  commit-ok v key m (d, ok u) h = (refl, refl)
  commit-ok v key m (d, err e) h = cc

  pub seal-commit :
      (env : Env) (p key : Text) (f : File) (m : Map Secret) (v : Vault)
      → (commit v key m (seal c env key f m v.disk)).1 ≡ ok tt
      → f.version ≡ 1
      → text_eq (derive c p f.auth) f.hash ≡ true
      → key ≡ derive c p f.enc
      → IsOpen p (commit v key m (seal c env key f m v.disk)).0
        × ((commit v key m (seal c env key f m v.disk)).0.sec ≡ m)
  seal-commit env p key f m v h version fits key_is =
      let (sealed, e) = commit-ok v key m (seal c env key f m v.disk) h in
      let (m', opens, same) = seal-Opens env p key f m v.disk sealed version fits key_is in
      rw e
        (record { key = key; stored = m'; has_key = refl; opens_file = opens; same = same }, refl)

  update_inv :
      (env : Env) (fn : Map Secret → Map Secret) (v : Vault) (key : Text)
      → v.key ≡ some key
      → (update c env fn v).1 ≡ ok tt
      → (f : File) × (read c env.read_fails v.disk ≡ ok f)
        × (update c env fn v ≡ commit v key (fn v.sec) (seal c env key f (fn v.sec) v.disk))
  unfolding update
  update_inv env fn v key k h = elim (Outcome-cases (read c env.read_fails v.disk)) [
    | inl (f, e) ↦ (f, e, ground (arith, k, e))
    | inr (x, e) ↦ ground (arith, k, e)
  ]

  pub update-IsOpen :
      (env : Env) (p : Text) (fn : Map Secret → Map Secret) (v : Vault)
      → IsOpen p v
      → (update c env fn v).1 ≡ ok tt
      → IsOpen p (update c env fn v).0 × ((update c env fn v).0.sec ≡ fn v.sec)
  update-IsOpen env p fn v o h =
      let (f, is_read, e) = update_inv env fn v o.key o.has_key h in
      let again : read c false v.disk ≡ ok f = read-calm env.read_fails v.disk f is_read in
      let file_is : f ≡ o.opens_file.file = cc in
      rw e (
        seal-commit env p o.key f (fn v.sec) v (rw e at h) (read-version v.disk f again)
          (rw file_is o.opens_file.fits) (rw file_is o.opens_file.key_is))

  -- A process that starts on the disk of an open vault has its secrets back after `Unlock`.
  pub unlock-opened :
      (env : Env) (p : Text) (v : Vault)
      → IsOpen p v
      → env.read_fails ≡ false
      → let (u, r) = unlock c env p (opened v.disk) in
        (r ≡ ok tt) × IsOpen p u × SameMap u.sec v.sec
  unfolding unlock opened
  unlock-opened env p v o calm =
      rw (login-Opens env p v.disk o.key o.stored calm o.opens_file, unlock)
        (
          refl,
          record {
            key = o.key;
            stored = o.stored;
            has_key = refl;
            opens_file = o.opens_file;
            same = λ k. refl;
          },
          o.same,
        )
