-- ===== src/Sshd/Overlap.antt =====
-- Logins that are under way at the same time (`password` and `blocked` of internal/sshd/sshd.go).
use rightsizer.Prelude.{
  ◌≤◌, ◌<◌, ◌≡◌, refl, Bool, true, false, List, [], ◌∷◌, map, ap, ◌∙◌, arith, ℤ, length, filter_by,
  All,
}
use mathlib.Core.Path.{subst}
use rightsizer.Text.{Text}
use rightsizer.Text.Equality.{text_eq, text_eq_refl}
use rightsizer.Sshd.{Server, Attempt, fails_of, is_recent, blocked, admin, judge}
use rightsizer.Text.Strings.{byte_length}
use rightsizer.Sshd.Throttle.{blocked_test, fails_of-blocked}

-- Attempts that are under way at the same time: each has passed `blocked` before the first password is
-- put to `login`. The check of each, with its answer, and then the rest of `password` of each.
pub checked : List Attempt → Server → List (Attempt × Bool) × Server
checked [] s = ([], s)
checked (x ∷ xs) s =
    let (s', answer) = blocked x.checked_at x.ip s in
    let (rest, end) = checked xs s' in ((x, answer) ∷ rest, end)

module _ (login : Text → Bool) where
  pub judged : List (Attempt × Bool) → Server → List Bool × Server
  judged [] s = ([], s)
  judged ((x, answer) ∷ xs) s =
      let (s', result) = judge login x (s, answer) in
      let (rest, end) = judged xs s' in (result ∷ rest, end)

  unfoldable pub overlapped : List Attempt → Server → List Bool × Server
  overlapped xs s = judged (checked xs s).0 (checked xs s).1

-- An attempt at the address by the administrator, with a password that is not too long.
abbrev pub IsOffer : Text → Attempt → Type 0
IsOffer ip x = (x.ip ≡ ip) × (text_eq x.user admin ≡ true) × (byte_length x.password ≤ 1024)

abbrev passed : List Attempt → List (Attempt × Bool)
passed xs = map (λ x. (x, false)) xs

length-filter_by : {A : Type 0} (p : A → Bool) (xs : List A) → length (filter_by p xs) ≤ length xs
length-filter_by p [] = omega arith
length-filter_by p (x ∷ xs) = ground (arith, length-filter_by p xs)

few_free :
    (now : ℤ) (ip : Text) (s : Server)
    → length (fails_of ip s) < 5
    → ((blocked now ip s).1 ≡ false) × (length (fails_of ip (blocked now ip s).0) < 5)
few_free now ip s h =
    let fewer = length-filter_by (is_recent now) (fails_of ip s) in
    (
      ground (arith, blocked_test now ip s, fewer, h),
      rw (fails_of-blocked now ip ip s, text_eq_refl ip) (omega (arith, fewer, h)),
    )

checked-passed :
    (ip : Text) (xs : List Attempt) (s : Server)
    → All (IsOffer ip) xs
    → length (fails_of ip s) < 5
    → (checked xs s).0 ≡ passed xs
unfolding checked
checked-passed ip [] s hs h = refl
checked-passed ip (x ∷ xs) s ((e, u, l), hs) h =
    let (free, fewer) = few_free x.checked_at x.ip s (rw e h) in
    let next = (blocked x.checked_at x.ip s).0 in
    let still = subst (λ j. length (fails_of j next) < 5) e fewer in
    rw (free, checked-passed ip xs next hs still) refl

module _ (login : Text → Bool) where
  judge_passed :
      (ip : Text) (x : Attempt) (s : Server)
      → IsOffer ip x
      → (judge login x (s, false)).1 ≡ login x.password
  judge_passed ip x s (e, u, l) = ground (arith, u, l)

  judged-passed :
      (ip : Text) (xs : List Attempt) (s : Server)
      → All (IsOffer ip) xs
      → (judged login (passed xs) s).0 ≡ map (λ x. login x.password) xs
  unfolding judged
  judged-passed ip [] s hs = refl
  judged-passed ip (x ∷ xs) s (h, hs) =
      rw (judge_passed ip x s h, judged-passed ip xs (judge login x (s, false)).0 hs) refl

  -- The check and the note of a failure are two steps with `Login` between them. Of attempts by the
  -- administrator at one address that all check before the first of them goes on, however many they
  -- are, each is answered as `Login` answers its password, where fewer than five failures are noted for
  -- the address at first and no password is longer than 1024 bytes. Wrong passwords among them do not
  -- keep a right one out.
  pub checks_race :
      (xs : List Attempt) (ip : Text) (s : Server)
      → All (IsOffer ip) xs
      → length (fails_of ip s) < 5
      → (overlapped login xs s).0 ≡ map (λ x. login x.password) xs
  unfolding overlapped
  checks_race xs ip s hs h =
      ap (λ l. (judged login l (checked xs s).1).0) (checked-passed ip xs s hs h)
      ∙ judged-passed ip xs (checked xs s).1 hs
