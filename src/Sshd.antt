-- ===== src/Sshd.antt =====
-- internal/sshd/sshd.go: who may log in to the console over SSH, and how many consoles are open.
--
-- `cfg.Login` is a parameter. An address is the text that `host` makes of it. Each use of the mutex
-- is a step: `blocked`, `forgive`, `note_failure`, `enter` and `leave`. `password` is those of one
-- connection in a row.
pub mod Throttle
pub mod Overlap
pub mod Consoles
mod Tests
use rightsizer.Prelude.{
  ℕ, ◌+◌, ◌-◌, ◌*◌, Bool, true, false, Option, none, some, List, [], ◌∷◌, ◌++◌, if◌then◌else◌, leb,
  ◌&&◌, ℤ, pos, ◌-ℤ◌, ltℤ, length, filter_by,
}
use rightsizer.Text.{Text, codes}
use rightsizer.Text.Equality.{text_eq}
use rightsizer.Map.{Map, lookup, insert, delete}
use rightsizer.Text.Strings.{byte_length}

abbrev pub max_sessions : ℕ
max_sessions = 8

abbrev pub max_fails : ℕ
max_fails = 5

abbrev pub fail_window : ℤ
fail_window = pos (15 * (60 * 1000000000))

abbrev pub admin : Text
admin = codes "admin"

pub record Server : Type 0 where
  pub fails : Map (List ℤ)
  pub sessions : ℕ

abbrev pub times : Option (List ℤ) → List ℤ
times none = []
times (some ts) = ts

-- s.fails[ip]
abbrev pub fails_of : Text → Server → List ℤ
fails_of ip s = times (lookup ip s.fails)

abbrev pub is_recent : ℤ → ℤ → Bool
is_recent now t = ltℤ (now -ℤ fail_window) t

abbrev pub recent : ℤ → Text → Server → List ℤ
recent now ip s = filter_by (is_recent now) (fails_of ip s)

abbrev pub keep_recent : Text → List ℤ → Server → Server × Bool
keep_recent ip [] s = (record s { fails = delete ip s.fails }, false)
keep_recent ip (t ∷ ts) s =
    (record s { fails = insert ip (t ∷ ts) s.fails }, leb max_fails (length (t ∷ ts)))

unfoldable pub blocked : ℤ → Text → Server → Server × Bool
blocked now ip s = keep_recent ip (recent now ip s) s

-- The first step behind a login.
unfoldable pub forgive : Text → Server → Server
forgive ip s = record s { fails = delete ip s.fails }

unfoldable pub note_failure : ℤ → Text → Server → Server
note_failure at ip s = record s { fails = insert ip (fails_of ip s ++ at ∷ []) s.fails }

-- A connection that offers a password.
pub record Attempt : Type 0 where
  pub ip : Text
  pub user : Text
  pub password : Text
  -- the clock in `blocked`, and when a failure is noted
  pub checked_at : ℤ
  pub failed_at : ℤ

module _ (login : Text → Bool) where
  abbrev pub accepts : Attempt → Bool
  accepts x = text_eq x.user admin && (leb (byte_length x.password) 1024 && login x.password)

  abbrev pub judge : Attempt → Server × Bool → Server × Bool
  judge x (s, true) = (s, false)
  judge x (s, false) =
      if accepts x then (forgive x.ip s, true) else (note_failure x.failed_at x.ip s, false)

  unfoldable pub password : Attempt → Server → Server × Bool
  password x s = judge x (blocked x.checked_at x.ip s)

-- What `guard` reads of a session.
pub record Session : Type 0 where
  pub raw_command : Text
  pub subsystem : Text
  pub pty : Bool

pub data Refusal : Type 0 where
  only_console needs_terminal too_many : Refusal

abbrev is_empty : Text → Bool
is_empty [] = true
is_empty (c ∷ t) = false

-- `guard` up to `next(sess)`: the refusal, or the console starts.
unfoldable pub enter : Session → Server → Server × Option Refusal
enter x s =
    if is_empty x.raw_command && is_empty x.subsystem
    then (if x.pty
        then (if leb max_sessions s.sessions
            then (s, some too_many)
            else (record s { sessions = s.sessions + 1 }, none))
        else (s, some needs_terminal))
    else (s, some only_console)

-- The deferred step of `guard`, when the console has ended.
unfoldable pub leave : Server → Server
leave s = record s { sessions = s.sessions - 1 }
