-- ===== src/Sshd/Tests.antt =====
-- Logins and consoles at concrete inputs, and the theorems at them.
use rightsizer.Prelude.{
  ℕ, ◌+◌, ◌-◌, ◌*◌, ◌≤◌, ◌≡◌, refl, Bool, true, some, List, [], ◌∷◌, arith, ℤ, pos, ◌-ℤ◌, All, map,
}
use rightsizer.Text.{Text, codes}
use rightsizer.Text.Equality.{text_eq}
use rightsizer.Map.{lookup, delete}
use rightsizer.Text.Strings.{byte_length}
use rightsizer.Sshd.{
  Server, Attempt, Session, fails_of, blocked, forgive, password, enter, too_many,
}
use rightsizer.Sshd.Throttle.{count, guesses, guesses_bound}
use rightsizer.Sshd.Overlap.{IsOffer, overlapped, checks_race}

abbrev secret : Text
secret = codes "pw"

abbrev login : Text → Bool
login p = text_eq p secret

abbrev idle : Server
idle = record { fails = []; sessions = 0 }

abbrev second : ℕ
second = 1000000000

abbrev at : ℕ → Text → Attempt
at n p = record {
  ip = codes "ip";
  user = codes "admin";
  password = p;
  checked_at = pos ((1000 + n) * second);
  failed_at = pos ((1000 + n) * second);
}

abbrev two_wrong : List Attempt
two_wrong = at 1 (codes "a") ∷ at 2 (codes "b") ∷ []

right_password : (password login (at 1 secret) idle).1 ≡ true
unfolding password blocked forgive lookup delete text_eq byte_length
right_password = refl

abbrev deadline : ℤ
deadline = pos (1010 * second)

guesses_bound_example :
    guesses login (codes "ip") two_wrong idle ≤ 5 - count deadline (fails_of (codes "ip") idle)
unfolding ◌-ℤ◌ text_eq byte_length
guesses_bound_example =
    guesses_bound login (codes "ip") deadline two_wrong idle
      ((omega arith, refl), ((omega arith, refl), tt)) (λ e. refl, (λ e. refl, tt))

idle_fails : fails_of (codes "ip") idle ≡ []
unfolding lookup
idle_fails = refl

-- Six wrong passwords and then the right one, all at the same time.
abbrev seven : List Attempt
seven =
    at 1 (codes "a")
    ∷ at 1 (codes "b")
    ∷ at 1 (codes "c")
    ∷ at 1 (codes "d")
    ∷ at 1 (codes "e")
    ∷ at 1 (codes "f")
    ∷ at 1 secret
    ∷ []

seven-IsOffer : All (IsOffer (codes "ip")) seven
unfolding text_eq byte_length
seven-IsOffer =
    let one : (codes "ip" ≡ codes "ip")
        × (text_eq (codes "admin") (codes "admin") ≡ true)
        × (1 ≤ 1024) =
      (refl, refl, omega arith) in
    (one, (one, (one, (one, (one, (one, ((refl, refl, omega arith), tt)))))))

checks_race_example : (overlapped login seven idle).0 ≡ map (λ x. login x.password) seven
unfolding lookup
checks_race_example = checks_race login seven (codes "ip") idle seven-IsOffer (omega arith)

abbrev console : Session
console = record { raw_command = []; subsystem = []; pty = true }

ninth_refused : (enter console (record idle { sessions = 8 })).1 ≡ some too_many
unfolding enter
ninth_refused = refl
