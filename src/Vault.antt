-- ===== src/Vault.antt =====
-- internal/vault/vault.go: vCenter credentials encrypted under the administrator password.
--
-- Argon2id, XChaCha20-Poly1305 and JSON are the operations of `Crypto`; what the code relies on is
-- `IsSound`. Random bytes are inputs: since Go 1.24 `rand.Read` returns no error. A call is one step
-- here, and calls come one after the other. In the code `Verify` and `Unlock` read the file and derive
-- the keys without the mutex, which `Unlock` takes to set them, and `ChangePassword` lets go of it
-- between unlocking and writing; what another call does in between is not modelled.
pub mod Session
pub mod Restart
pub mod Password
pub mod Toy
mod Tests
use rightsizer.Prelude.{
  ℕ, ◌+◌, ◌*◌, ◌≡◌, Bool, true, false, Option, none, some, List, [], ◌∷◌, ltb, ◌==◌, if◌then◌else◌,
  length, Outcome, ok, err, ◌>>=◌, ◌>>◌, require, present,
}
use rightsizer.Text.{Text, codes}
use rightsizer.Text.Equality.{text_eq}
use rightsizer.Text.Strings.{byte_length}
use rightsizer.Map.{Map, lookup, insert, delete, SameMap}
use rightsizer.Atomicfile
use rightsizer.Atomicfile.{Inode, Disk, Faults, write_file}
use rightsizer.Atomicfile.Crash.{start}

pub record Secret : Type 0 where
  pub user : Text
  pub password : Text

pub record Kdf : Type 0 where
  pub salt : Text
  pub time : ℕ
  pub memory : ℕ
  pub threads : ℕ

pub record File : Type 0 where
  pub version : ℕ
  pub auth : Kdf
  pub hash : Text
  pub enc : Kdf
  pub nonce : Text
  -- the field `Data`
  pub sealed : Text

-- What the code calls of golang.org/x/crypto and encoding/json.
pub record Crypto : Type 0 where
  -- argon2.IDKey(password, salt, time, memory, threads, 32)
  pub id_key : Text → Text → ℕ → ℕ → ℕ → Text
  -- aead.Seal and aead.Open by key, nonce, text and additional data
  pub aead_seal : Text → Text → Text → Text → Text
  pub aead_open : Text → Text → Text → Text → Option Text
  pub marshal_secrets : Map Secret → Text
  pub unmarshal_secrets : Text → Option (Map Secret)
  pub marshal_file : File → Text
  pub unmarshal_file : Text → Option File

-- Documented behaviour: keys have the length asked for, and what was sealed under a key, or
-- marshalled, is read back. Nothing is said of other keys and of texts made elsewhere.
pub record IsSound (c : Crypto) : Type 0 where
  pub id_key_length : (p s : Text) (t m n : ℕ) → length (c.id_key p s t m n) ≡ 32
  pub open-seal : (k n p a : Text) → c.aead_open k n (c.aead_seal k n p a) a ≡ some p
  pub secrets-read :
      (m : Map Secret)
      → (m' : Map Secret) × (c.unmarshal_secrets (c.marshal_secrets m) ≡ some m') × SameMap m' m
  pub file-read : (f : File) → c.unmarshal_file (c.marshal_file f) ≡ some f

pub data Error : Type 0 where
  locked_error wrong_password not_configured too_short too_long : Error
  read_error unreadable unsupported bad_key_size undecryptable bad_secrets no_credentials : Error
  write_error : List Atomicfile.Error → Error

abbrev pub Result {ℓ} : Type ℓ → Type ℓ
Result A = Outcome Error A

-- The vault and its file, vault.json.
pub record Vault : Type 0 where
  pub key : Option Text
  pub sec : Map Secret
  pub disk : Disk

-- What the environment decides in one call.
pub record Env : Type 0 where
  pub read_fails : Bool
  pub faults : Faults
  pub auth_salt : Text
  pub enc_salt : Text
  pub nonce : Text

abbrev pub min_password : ℕ
min_password = 12

abbrev pub aad : Text
aad = codes "rightsizer-vault-v1"

-- `Open`: a vault of a process that has just started.
pub opened : Disk → Vault
opened d = record { key = none; sec = []; disk = d }

abbrev is_none : Option Text → Bool
is_none none = true
is_none (some k) = false

pub locked : Vault → Bool
locked v = is_none v.key

pub check_password : Text → Result (Unit {0})
unfolding byte_length
check_password p =
    if ltb (length p) min_password
    then err too_short
    else if ltb 1024 (byte_length p)
    then err too_long
    else ok tt

-- `newKDF`
pub new_kdf : Text → Kdf
new_kdf salt = record { salt = salt; time = 3; memory = 64 * 1024; threads = 2 }

abbrev check_version : File → Result File
check_version f = if f.version == 1 then ok f else err unsupported

abbrev written : List Atomicfile.Error → Result (Unit {0})
written [] = ok tt
written (e ∷ es) = err (write_error (e ∷ es))

-- The state after `seal`: the disk as it is, key and secrets only if it succeeded.
abbrev commit : Vault → Text → Map Secret → Disk × Result (Unit {0}) → Vault × Result (Unit {0})
commit v key sec (d, ok u) = (record { key = some key; sec = sec; disk = d }, ok u)
commit v key sec (d, err e) = (record v { disk = d }, err e)

module _ (c : Crypto) where
  pub derive : Text → Kdf → Text
  derive p k = c.id_key p k.salt k.time k.memory k.threads

  pub read : Bool → Disk → Result File
  read fails d = elim d.current [
    | none ↦ err not_configured
    | some i ↦
        if fails
        then err read_error
        else (present unreadable (c.unmarshal_file i.bytes) >>= check_version)
  ]

  -- `open`
  pub open_file : Text → File → Result (Map Secret)
  open_file key f = do
    require bad_key_size (length key == 32)
    plain ← present undecryptable (c.aead_open key f.nonce f.sealed aad)
    present bad_secrets (c.unmarshal_secrets plain)

  pub sealed_file : Env → Text → File → Map Secret → File
  sealed_file env key f sec = record f {
    nonce = env.nonce;
    sealed = c.aead_seal key env.nonce (c.marshal_secrets sec) aad;
  }

  pub seal : Env → Text → File → Map Secret → Disk → Disk × Result (Unit {0})
  seal env key f sec d =
      if length key == 32
      then (let (m, errors) =
            write_file env.faults (c.marshal_file (sealed_file env key f sec)) (start d) in
          (m.now, written errors))
      else (d, err bad_key_size)

  -- `Verify`: a file that cannot be read fits no password.
  pub verify : Env → Text → Vault → Bool
  verify env p v = elim (read env.read_fails v.disk) [
    | err e ↦ false
    | ok f ↦ text_eq (derive p f.auth) f.hash
  ]

  -- What `Unlock` computes before it takes the mutex: the key and the secrets.
  pub login : Env → Text → Disk → Result (Text × Map Secret)
  login env p d = do
    f ← read env.read_fails d
    require wrong_password (text_eq (derive p f.auth) f.hash)
    sec ← open_file (derive p f.enc) f
    ok (derive p f.enc, sec)

  pub unlock : Env → Text → Vault → Vault × Result (Unit {0})
  unlock env p v = elim (login env p v.disk) [
    | err e ↦ (v, err e)
    | ok (key, sec) ↦ (record v { key = some key; sec = sec }, ok tt)
  ]

  pub fresh_file : Env → Text → File
  fresh_file env p = record {
    version = 1;
    auth = new_kdf env.auth_salt;
    hash = derive p (new_kdf env.auth_salt);
    enc = new_kdf env.enc_salt;
    nonce = [];
    sealed = [];
  }

  pub write : Env → Text → Map Secret → Vault → Vault × Result (Unit {0})
  write env p sec v =
      let f = fresh_file env p in
      let key = derive p f.enc in commit v key sec (seal env key f sec v.disk)

  pub reset : Env → Text → Vault → Vault × Result (Unit {0})
  reset env p v = elim (check_password p) [ err e ↦ (v, err e) | ok u ↦ write env p [] v ]

  -- An `Unlock` that fails ends the call; one that succeeds stays, whatever `write` does.
  abbrev then_write : Env → Text → Vault × Result (Unit {0}) → Vault × Result (Unit {0})
  then_write env next (v, err e) = (v, err e)
  then_write env next (v, ok u) = write env next v.sec v

  pub change_password : Env → Text → Text → Vault → Vault × Result (Unit {0})
  change_password env old next v = elim (check_password next) [
    | err e ↦ (v, err e)
    | ok u ↦ then_write env next (unlock env old v)
  ]

  pub get : Text → Vault → Result Secret
  get id v = do key ← present locked_error v.key; present no_credentials (lookup id v.sec)

  pub update : Env → (Map Secret → Map Secret) → Vault → Vault × Result (Unit {0})
  update env fn v = elim v.key [
    | none ↦ (v, err locked_error)
    | some key ↦ elim (read env.read_fails v.disk) [
      | err e ↦ (v, err e)
      | ok f ↦ commit v key (fn v.sec) (seal env key f (fn v.sec) v.disk)
    ]
  ]

  pub put : Env → Text → Secret → Vault → Vault × Result (Unit {0})
  put env id s v = update env (insert id s) v

  -- `Delete`
  pub remove : Env → Text → Vault → Vault × Result (Unit {0})
  remove env id v = update env (delete id) v
