-- ===== src/Vault/Toy.antt =====
-- Concrete functions for `Crypto` (internal/vault/vault.go), to run the vault in the tests: keys
-- that list the password's sum, a cipher that puts the key in front, length-prefixed fields.
use rightsizer.Prelude.{
  ℕ, zero, suc, ◌+◌, ◌≡◌, refl, false, Option, none, some, [], ◌∷◌, ◌++◌, arith, length,
}
use rightsizer.Text.{Text, codes}
use rightsizer.Text.Strings.{starts_with}
use rightsizer.Text.Fields.{◌>>=◌, encode_text, decode_text, decode_text-encode}
use rightsizer.Map.{Map}
use rightsizer.Atomicfile.{Faults}
use rightsizer.Vault.{Secret, Kdf, File, Crypto, IsSound, Env}

abbrev sum : Text → ℕ
sum [] = 0
sum (c ∷ t) = c + sum t

abbrev zeros : ℕ → Text
zeros zero = []
zeros (suc n) = 0 ∷ zeros n

abbrev encode_secrets : Map Secret → Text
encode_secrets [] = []
encode_secrets ((k, s) ∷ m) =
    encode_text k ++ (encode_text s.user ++ (encode_text s.password ++ encode_secrets m))

abbrev decode_secrets : ℕ → Text → Option (Map Secret)
decode_secrets zero t = some []
decode_secrets (suc n) t = do
  (k, r) ← decode_text t
  (u, r') ← decode_text r
  (p, r'') ← decode_text r'
  m ← decode_secrets n r''
  some ((k, record { user = u; password = p }) ∷ m)

abbrev decode_counted : Text → Option (Map Secret)
decode_counted [] = none
decode_counted (n ∷ t) = decode_secrets n t

abbrev encode_kdf : Kdf → Text → Text
encode_kdf k rest = k.time ∷ k.memory ∷ k.threads ∷ (encode_text k.salt ++ rest)

abbrev decode_kdf : Text → Option (Kdf × Text)
decode_kdf (a ∷ b ∷ c ∷ t) = do
  (s, r) ← decode_text t
  some (record { salt = s; time = a; memory = b; threads = c }, r)
decode_kdf _ = none

abbrev encode_file : File → Text
encode_file f =
    f.version
    ∷ encode_kdf f.auth (
        encode_text f.hash
        ++ encode_kdf f.enc (encode_text f.nonce ++ (encode_text f.sealed ++ [])))

abbrev decode_file : Text → Option File
decode_file [] = none
decode_file (v ∷ t) = do
  (a, r) ← decode_kdf t
  (h, r') ← decode_text r
  (e, s) ← decode_kdf r'
  (n, s') ← decode_text s
  (d, s'') ← decode_text s'
  some (record { version = v; auth = a; hash = h; enc = e; nonce = n; sealed = d })

abbrev pub toy : Crypto
toy = record {
  id_key = λ p s t m n. sum p ∷ zeros 31;
  aead_seal = λ k n p a. k ++ p;
  aead_open = λ k n d a. starts_with k d;
  marshal_secrets = λ m. length m ∷ encode_secrets m;
  unmarshal_secrets = decode_counted;
  marshal_file = encode_file;
  unmarshal_file = decode_file;
}

-- A call that meets no fault.
abbrev pub no_faults : Faults
no_faults = record {
  open_fails = false;
  fn_fails = false;
  sync_fails = false;
  close_fails = false;
  remove_fails = false;
  rename_fails = false;
  dir_open_fails = false;
  dir_sync_fails = false;
  dir_close_fails = false;
}

abbrev pub calm : Env
calm = record {
  read_fails = false;
  faults = no_faults;
  auth_salt = codes "a";
  enc_salt = codes "e";
  nonce = codes "n";
}

decode_secrets-encode : (m : Map Secret) → decode_secrets (length m) (encode_secrets m) ≡ some m
decode_secrets-encode [] = refl
decode_secrets-encode ((k, s) ∷ m) = simp (decode_text-encode, decode_secrets-encode m)

starts_with-append : (k p : Text) → starts_with k (k ++ p) ≡ some p
starts_with-append [] p = refl
starts_with-append (c ∷ k) p = ground (arith, starts_with-append k p)

decode_file-encode : (f : File) → decode_file (encode_file f) ≡ some f
decode_file-encode f = simp decode_text-encode

pub toy-IsSound : IsSound toy
toy-IsSound = record {
  id_key_length = λ p s t m n. refl;
  open-seal = λ k n p a. starts_with-append k p;
  secrets-read = λ m. (m, decode_secrets-encode m, λ k. refl);
  file-read = decode_file-encode;
}
