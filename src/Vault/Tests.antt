-- ===== src/Vault/Tests.antt =====
-- A vault made, filled and reopened with the functions of Toy.antt, and the theorems at it.
use rightsizer.Prelude.{ok, err, ◌≡◌, refl, true, false, none, [], ◌∷◌, if◌then◌else◌}
use rightsizer.Text.{Text, codes}
use rightsizer.Text.Equality.{text_eq}
use rightsizer.Map.{Map, lookup, insert, delete}
use rightsizer.Atomicfile
use rightsizer.Atomicfile.{Disk, Faults, write, write_file}
use rightsizer.Atomicfile.Outcome.{published}
use rightsizer.Vault.{
  Secret, Error, locked_error, wrong_password, no_credentials, write_error, Vault, Env, opened,
  check_password, new_kdf, derive, read, open_file, sealed_file, seal, login, verify, unlock,
  fresh_file, reset, change_password, get, update, put, remove,
}
use rightsizer.Vault
use rightsizer.Vault.Toy.{toy, toy-IsSound, no_faults, calm}
use rightsizer.Text.Fields.{decode_text}
use rightsizer.Vault.Session.{IsOpen}
use rightsizer.Vault.Restart.{put-restart, update_fails}
use rightsizer.Vault.Password.{reset-IsOpen, change_password-IsOpen}

abbrev empty_disk : Disk
empty_disk = record { current = none; durable = none; tmp = none }

abbrev admin : Text
admin = codes "administrator"

abbrev secret : Secret
secret = record { user = codes "ro"; password = codes "pw" }

abbrev made : Vault
made = (reset toy calm admin (opened empty_disk)).0

reset_ok : (reset toy calm admin (opened empty_disk)).1 ≡ ok tt
unfolding reset check_password Vault.write fresh_file seal write_file write derive new_kdf
    sealed_file opened
reset_ok = refl

made-IsOpen : IsOpen toy toy-IsSound admin made
made-IsOpen = (reset-IsOpen toy toy-IsSound calm admin (opened empty_disk) reset_ok).0

put_ok : (put toy calm (codes "id") secret made).1 ≡ ok tt
unfolding put update read reset check_password Vault.write fresh_file seal write_file write derive
    new_kdf sealed_file opened decode_text insert
put_ok = refl

abbrev filled : Vault
filled = (put toy calm (codes "id") secret made).0

reopened : get toy (codes "id") (unlock toy calm admin (opened filled.disk)).0 ≡ ok secret
unfolding get unlock login open_file put update read reset check_password Vault.write fresh_file
    seal write_file write derive new_kdf sealed_file opened decode_text insert lookup text_eq
reopened = refl

refused_length : (reset toy calm (codes "short") (opened empty_disk)).1 ≡ err Vault.too_short
unfolding reset check_password
refused_length = refl

locked_put : (put toy calm (codes "id") secret (opened empty_disk)).1 ≡ err locked_error
unfolding put update opened
locked_put = refl

put-restart_example :
    let (u, r) = unlock toy calm admin (opened filled.disk) in
    (r ≡ ok tt)
    × ((j : Text) → get toy j u ≡ (if text_eq (codes "id") j then ok secret else get toy j made))
put-restart_example =
    put-restart toy toy-IsSound calm calm admin (codes "id") secret made made-IsOpen put_ok refl

abbrev broken : Env
broken = record calm { faults = record no_faults { sync_fails = true } }

remove_ok : (remove toy calm (codes "id") made).1 ≡ ok tt
unfolding remove update read reset check_password Vault.write fresh_file seal write_file write
    derive new_kdf sealed_file opened decode_text delete
remove_ok = refl

update_failed :
    (update toy broken (insert (codes "id") secret) made).1
    ≡ err (write_error (Atomicfile.sync_error ∷ []))
unfolding update read reset check_password Vault.write fresh_file seal write_file write derive
    new_kdf sealed_file opened decode_text insert
update_failed = refl

update_fails_example :
    let w = (update toy broken (insert (codes "id") secret) made).0 in
    (w.key ≡ made.key)
    × (w.sec ≡ made.sec)
    × (published broken.faults ≡ false → w.disk.current ≡ made.disk.current)
update_fails_example = update_fails toy broken (insert (codes "id") secret) made update_failed

abbrev successor : Text
successor = codes "a new password"

change_ok : (change_password toy calm admin successor made).1 ≡ ok tt
unfolding change_password login open_file unlock read reset check_password Vault.write fresh_file
    seal write_file write derive new_kdf sealed_file opened decode_text text_eq
change_ok = refl

change_password-IsOpen_example :
    let w = (change_password toy calm admin successor made).0 in
    (key : Text) × (m : Map Secret) × (login toy calm admin made.disk ≡ ok (key, m))
    × IsOpen toy toy-IsSound successor w
    × (w.sec ≡ m)
change_password-IsOpen_example =
    change_password-IsOpen toy toy-IsSound calm admin successor made change_ok

verify_refuses : verify toy calm successor made ≡ false
unfolding verify read reset check_password Vault.write fresh_file seal write_file write derive
    new_kdf sealed_file opened decode_text text_eq
verify_refuses = refl
