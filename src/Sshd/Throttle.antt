-- ===== src/Sshd/Throttle.antt =====
-- How many passwords an address can try (`password` and `blocked` of internal/sshd/sshd.go).
use rightsizer.Prelude.{
  ℕ, ◌-◌, not, suc, ◌+◌, ◌≤◌, ◌<◌, ◌≡◌, refl, inl, inr, Bool, true, false, List, [], ◌∷◌, ◌++◌,
  arith, if◌then◌else◌, leb, ◌&&◌, ℤ, ◌-ℤ◌, ◌≤ℤ◌, ltℤ→lt, ltℤ→ge, int_laws, length, filter_by, All,
  Bool-cases,
}
use rightsizer.Text.{Text}
use rightsizer.Text.Equality.{text_eq, text_eq_iff}
use rightsizer.Map.{lookup-insert, lookup-delete}
use rightsizer.Sshd.{
  Server, Attempt, max_fails, fail_window, fails_of, is_recent, recent, keep_recent, blocked,
  forgive, note_failure, accepts, password,
}

-- The failures later than the window before `t`.
abbrev pub count : ℤ → List ℤ → ℕ
count t ts = length (filter_by (is_recent t) ts)

is_recent_earlier : (now t at : ℤ) → now ≤ℤ t → is_recent t at ≡ true → is_recent now at ≡ true
is_recent_earlier now t at h r = elim (Bool-cases (is_recent now at)) [
  | inl e ↦ e
  | inr e ↦
      absurd (omega (int_laws, ltℤ→lt (t -ℤ fail_window) at r, ltℤ→ge (now -ℤ fail_window) at e))
]

count-recent :
    (now t : ℤ) (ts : List ℤ) → now ≤ℤ t → count t (filter_by (is_recent now) ts) ≡ count t ts
count-recent now t [] h = refl
count-recent now t (x ∷ ts) h = ground (arith, count-recent now t ts h, is_recent_earlier now t x h)

count-append :
    (t : ℤ) (ts : List ℤ) (at : ℤ)
    → is_recent t at ≡ true
    → count t (ts ++ at ∷ []) ≡ suc (count t ts)
count-append t [] at h = ground (arith, h)
count-append t (x ∷ ts) at h = ground (arith, count-append t ts at h)

count-le : (t : ℤ) (ts : List ℤ) → count t ts ≤ length ts
count-le t [] = omega arith
count-le t (x ∷ ts) = ground (arith, count-le t ts)

fails_of-keep_recent :
    (ip j : Text) (ts : List ℤ) (s : Server)
    → fails_of j (keep_recent ip ts s).0 ≡ (if text_eq ip j then ts else fails_of j s)
fails_of-keep_recent ip j [] s = ground (arith, lookup-delete ip j s.fails)
fails_of-keep_recent ip j (t ∷ ts) s = ground (arith, lookup-insert ip j (t ∷ ts) s.fails)

pub fails_of-blocked :
    (now : ℤ) (ip j : Text) (s : Server)
    → fails_of j (blocked now ip s).0 ≡ (if text_eq ip j then recent now ip s else fails_of j s)
unfolding blocked
fails_of-blocked now ip j s = fails_of-keep_recent ip j (recent now ip s) s

keep_recent_test :
    (ip : Text) (ts : List ℤ) (s : Server) → (keep_recent ip ts s).1 ≡ leb max_fails (length ts)
keep_recent_test ip [] s = refl
keep_recent_test ip (t ∷ ts) s = refl

pub blocked_test :
    (now : ℤ) (ip : Text) (s : Server)
    → (blocked now ip s).1 ≡ leb max_fails (length (recent now ip s))
unfolding blocked
blocked_test now ip s = keep_recent_test ip (recent now ip s) s

fails_of-note :
    (at : ℤ) (ip j : Text) (s : Server)
    → fails_of j (note_failure at ip s)
      ≡ (if text_eq ip j then fails_of ip s ++ at ∷ [] else fails_of j s)
unfolding note_failure
fails_of-note at ip j s = ground (arith, lookup-insert ip j (fails_of ip s ++ at ∷ []) s.fails)

fails_of-forgive :
    (ip j : Text) (s : Server)
    → fails_of j (forgive ip s) ≡ (if text_eq ip j then [] else fails_of j s)
unfolding forgive
fails_of-forgive ip j s = ground (arith, lookup-delete ip j s.fails)

count-blocked :
    (now t : ℤ) (ip j : Text) (s : Server)
    → now ≤ℤ t
    → count t (fails_of j (blocked now ip s).0) ≡ count t (fails_of j s)
count-blocked now t ip j s h = rw (fails_of-blocked now ip j s) (elim (Bool-cases (text_eq ip j)) [
  | inl e ↦ rw (e, (text_eq_iff ip j).0 e) (count-recent now t (fails_of j s) h)
  | inr e ↦ rw e refl
])

count-free :
    (now t : ℤ) (ip : Text) (s : Server)
    → now ≤ℤ t
    → (blocked now ip s).1 ≡ false
    → count t (fails_of ip s) < max_fails
count-free now t ip s h b = ground (
  arith,
  blocked_test now ip s,
  b,
  count-recent now t (fails_of ip s) h,
  count-le t (recent now ip s),
)

-- A failure at `ip` counts there, and nowhere else.
count-note :
    (t at : ℤ) (ip : Text) (s : Server)
    → is_recent t at ≡ true
    → count t (fails_of ip (note_failure at ip s)) ≡ suc (count t (fails_of ip s))
count-note t at ip s h =
    rw (fails_of-note at ip ip s, (text_eq_iff ip ip).1 refl) (count-append t (fails_of ip s) at h)

-- An attempt that checks before `t`, and whose failure counts in the window before `t`.
abbrev pub Within : ℤ → Attempt → Type 0
Within t x = (x.checked_at ≤ℤ t) × (is_recent t x.failed_at ≡ true)

module _ (login : Text → Bool) (ip : Text) where
  -- Whether `password` puts the attempt's password to `login`, on behalf of `ip`.
  abbrev pub guess : Attempt → Server → ℕ
  guess x s = if text_eq x.ip ip && not (blocked x.checked_at x.ip s).1 then 1 else 0

  pub guesses : List Attempt → Server → ℕ
  guesses [] s = 0
  guesses (x ∷ xs) s = guess x s + guesses xs (password login x s).0

  own_guess :
      (t : ℤ) (x : Attempt) (s : Server)
      → Within t x
      → x.ip ≡ ip
      → (blocked x.checked_at x.ip s).1 ≡ false
      → 1
          + (max_fails
              - count t
                  (fails_of ip (note_failure x.failed_at x.ip (blocked x.checked_at x.ip s).0)))
        ≤ max_fails - count t (fails_of ip s)
  own_guess t x s (early, late) e b = rw⁻¹ e (
      rw
        (
          count-note t x.failed_at x.ip (blocked x.checked_at x.ip s).0 late,
          count-blocked x.checked_at t x.ip x.ip s early,
        )
        (omega (arith, count-free x.checked_at t x.ip s early b)))

  other_guess :
      (t : ℤ) (x : Attempt) (s : Server)
      → x.checked_at ≤ℤ t
      → 0 + (max_fails - count t (fails_of ip (blocked x.checked_at x.ip s).0))
        ≤ max_fails - count t (fails_of ip s)
  other_guess t x s early = omega (arith, count-blocked x.checked_at t x.ip ip s early)

  guess-count :
      (t : ℤ) (x : Attempt) (s : Server)
      → Within t x
      → (text_eq x.ip ip ≡ true → accepts login x ≡ false)
      → guess x s + (max_fails - count t (fails_of ip (password login x s).0))
        ≤ max_fails - count t (fails_of ip s)
  unfolding password
  guess-count t x s (early, late) wrong = elim (Bool-cases (blocked x.checked_at x.ip s).1) [
    | inl b ↦ rw b (ground (arith, count-blocked x.checked_at t x.ip ip s early))
    | inr b ↦ elim (Bool-cases (text_eq x.ip ip)) [
      | inl e ↦ rw (b, e, wrong e) (own_guess t x s (early, late) ((text_eq_iff x.ip ip).0 e) b)
      | inr e ↦ elim (Bool-cases (accepts login x)) [
        | inl a ↦
            rw (b, e, a, fails_of-forgive x.ip ip (blocked x.checked_at x.ip s).0)
              (rw e (other_guess t x s early))
        | inr a ↦
            rw (b, e, a, fails_of-note x.failed_at x.ip ip (blocked x.checked_at x.ip s).0)
              (rw e (other_guess t x s early))
      ]
    ]
  ]

  -- However many attempts are made one after the other, of those that check before `t` and fail in the
  -- fifteen minutes before it, at most five passwords of one address are put to `Login`, if none of
  -- them is right; fewer, by the failures that count already.
  pub guesses_bound :
      (t : ℤ) (xs : List Attempt) (s : Server)
      → All (Within t) xs
      → All (λ x. text_eq x.ip ip ≡ true → accepts login x ≡ false) xs
      → guesses xs s ≤ 5 - count t (fails_of ip s)
  unfolding guesses
  guesses_bound t [] s within wrong = omega arith
  guesses_bound t (x ∷ xs) s (now, later) (bad, worse) =
      omega
        (arith, guess-count t x s now bad, guesses_bound t xs (password login x s).0 later worse)
