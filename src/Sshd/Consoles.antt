-- ===== src/Sshd/Consoles.antt =====
-- How many consoles are open (`guard` of internal/sshd/sshd.go).
use rightsizer.Prelude.{
  ℕ, zero, suc, ◌≤◌, ◌<◌, ◌≡◌, ◌↔◌, ◌≢◌, true, Option, none, some, List, [], ◌∷◌, arith,
}
use rightsizer.Sshd.{Server, Session, Refusal, max_sessions, enter, leave}

-- What happens at the server: a session that asks for a console, or the end of one that has it.
pub data Event : Type 0 where
  asks : Session → Event
  ends : Event

-- The server, and the number of consoles that have started and not ended.
abbrev pub counted : ℕ → Server × Option Refusal → Server × ℕ
counted n (s, none) = (s, suc n)
counted n (s, some r) = (s, n)

abbrev pub step : Event → Server × ℕ → Server × ℕ
step (asks x) (s, n) = counted n (enter x s)
step ends (s, zero) = (s, zero)
step ends (s, suc n) = (leave s, n)

pub run : List Event → Server × ℕ → Server × ℕ
run [] m = m
run (e ∷ es) m = run es (step e m)

step_count :
    (e : Event) (s : Server) (n : ℕ)
    → s.sessions ≡ n
    → n ≤ max_sessions
    → let (s', n') = step e (s, n) in (s'.sessions ≡ n') × (n' ≤ max_sessions)
unfolding enter leave
step_count (asks x) s n h k = ground (arith, h, k)
step_count ends s zero h k = (h, k)
step_count ends s (suc n) h k = ground (arith, h, k)

-- Whatever sessions ask and end, the server counts the consoles that are open, and they are at most
-- eight.
pub consoles_bound :
    (es : List Event) (s : Server) (n : ℕ)
    → s.sessions ≡ n
    → n ≤ max_sessions
    → let (s', n') = run es (s, n) in (s'.sessions ≡ n') × (n' ≤ max_sessions)
unfolding run
consoles_bound [] s n h k = (h, k)
consoles_bound (e ∷ es) s n h k =
    let (a, b) = step_count e s n h k in consoles_bound es (step e (s, n)).0 (step e (s, n)).1 a b

-- `guard` starts the console exactly if the session gives no command, asks for no subsystem, has a
-- terminal and finds fewer than eight consoles; otherwise the server is as it was.
pub enter_outcome :
    (x : Session) (s : Server)
    → (((enter x s).1 ≡ none) ↔ (
        (x.raw_command ≡ []) × (x.subsystem ≡ []) × (x.pty ≡ true) × (s.sessions < max_sessions)))
      × ((enter x s).1 ≢ none → (enter x s).0 ≡ s)
unfolding enter
enter_outcome x s = ((λ h. ground arith, λ h. ground arith), λ h. ground arith)
