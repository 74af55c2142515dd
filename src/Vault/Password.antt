-- ===== src/Vault/Password.antt =====
-- internal/vault/vault.go: setting, changing and checking the administrator password.
use rightsizer.Prelude.{ok, err, Outcome-cases, ◌≡◌, refl, ◌⊎◌, inl, inr, false, some, [], arith}
use rightsizer.Text.{Text}
use rightsizer.Text.Equality.{text_eq, text_eq_refl}
use rightsizer.Map.{Map}
use rightsizer.Vault.{
  Secret, Crypto, IsSound, Error, wrong_password, Vault, Env, check_password, new_kdf, derive, read,
  login, verify, unlock, fresh_file, write, reset, change_password,
}
use rightsizer.Vault.Session.{IsOpen, seal-commit}

module _ (c : Crypto) (sound : IsSound c) where
  write-IsOpen :
      (env : Env) (p : Text) (m : Map Secret) (v : Vault)
      → (write c env p m v).1 ≡ ok tt
      → IsOpen c sound p (write c env p m v).0 × ((write c env p m v).0.sec ≡ m)
  unfolding write fresh_file
  write-IsOpen env p m v h =
      seal-commit c sound env p (derive c p (new_kdf env.enc_salt)) (fresh_file c env p) m v h refl
        (text_eq_refl (derive c p (new_kdf env.auth_salt))) refl

  -- `Reset` that returns no error leaves a vault open under the new password, with no secret; the
  -- password was long enough.
  pub reset-IsOpen :
      (env : Env) (p : Text) (v : Vault)
      → (reset c env p v).1 ≡ ok tt
      → IsOpen c sound p (reset c env p v).0
        × ((reset c env p v).0.sec ≡ [])
        × (check_password p ≡ ok tt)
  unfolding reset
  reset-IsOpen env p v h = elim (Outcome-cases (check_password p)) [
    | inl (u, e) ↦
        let (o, s) = write-IsOpen env p [] v (rw (e, reset) at h) in rw (e, reset) (o, s, refl)
    | inr (x, e) ↦ ground (arith, e)
  ]

  unlock_cases :
      (env : Env) (p : Text) (v : Vault)
      → ((e : Error) × (unlock c env p v ≡ (v, err e)) × (login c env p v.disk ≡ err e))
        ⊎ ((key : Text) × (m : Map Secret) × (login c env p v.disk ≡ ok (key, m))
            × (unlock c env p v ≡ (record v { key = some key; sec = m }, ok tt)))
  unfolding unlock
  unlock_cases env p v = elim (Outcome-cases (login c env p v.disk)) [
    | inl ((key, m), e) ↦ inr (key, m, e, rw (e, unlock) refl)
    | inr (x, e) ↦ inl (x, rw (e, unlock) refl, e)
  ]

  change_password-write :
      (env : Env) (old next : Text) (v w : Vault)
      → check_password next ≡ ok tt
      → unlock c env old v ≡ (w, ok tt)
      → change_password c env old next v ≡ write c env next w.sec w
  unfolding change_password
  change_password-write env old next v w e q = rw (e, q, change_password) refl

  -- `ChangePassword` that returns no error: the old password opened the file, the vault is open
  -- under the next one, and holds the secrets that the file held.
  pub change_password-IsOpen :
      (env : Env) (old next : Text) (v : Vault)
      → (change_password c env old next v).1 ≡ ok tt
      → let w = (change_password c env old next v).0 in
        (key : Text) × (m : Map Secret) × (login c env old v.disk ≡ ok (key, m))
        × IsOpen c sound next w
        × (w.sec ≡ m)
  unfolding change_password
  change_password-IsOpen env old next v h = elim (Outcome-cases (check_password next)) [
    | inl (u, e) ↦ elim (unlock_cases env old v) [
      | inl (x, q, l) ↦ ground (arith, e, q)
      | inr (key, m, l, q) ↦
          let w = record v { key = some key; sec = m } in
          let same = change_password-write env old next v w e q in
          let (o, s) = write-IsOpen env next m w (rw same at h) in (key, m, l, rw same o, rw same s)
    ]
    | inr (x, e) ↦ ground (arith, e)
  ]

module _ (c : Crypto) where
  -- A password that `Verify` refuses does not unlock the vault, and changes nothing in it.
  pub unlock-verify :
      (env : Env) (p : Text) (v : Vault)
      → verify c env p v ≡ false
      → (e : Error) × (unlock c env p v ≡ (v, err e))
  unfolding verify login unlock
  unlock-verify env p v h = elim (Outcome-cases (read c env.read_fails v.disk)) [
    | inl (f, e) ↦
        let refused : text_eq (derive c p f.auth) f.hash ≡ false = ground (arith, e) in
        (wrong_password, rw (e, unlock) (rw refused refl))
    | inr (x, e) ↦ (x, rw (e, unlock) refl)
  ]
