-- ===== src/Stats/Demand.antt =====
-- The demand slots of internal/analysis/stats.go: the average load of every half hour. An instant is a
-- number of nanoseconds, a slot's count a uint16.
pub mod Counted
use rightsizer.Prelude.{
  ℕ, ◌+◌, ◌<◌, ◌==◌, zero, suc, ◌-◌, ◌*◌, ◌/◌, ◌≤◌, ◌≡◌, refl, ap, ◌∙◌, inl, inr, true, false, List,
  [], ◌∷◌, ◌++◌, arith, if◌then◌else◌, ltb, leb, ◌||◌, ℤ, pos_part, ◌-ℤ◌, pos, negsuc, neg_part,
  ◌+ℤ◌, ◌≤ℤ◌, ◌<ℤ◌, +ℤ_parts, -ℤ_parts, sym, min, ltℤ, length, length-append, All, All-append,
  Bool-cases,
}
use mathlib.Core.Path.{subst}
use rightsizer.Floats.{Floats}

abbrev pub slot_length : ℕ
slot_length = 30 * (60 * 1000000000)

abbrev pub max_slots : ℕ
max_slots = 32 * 48

abbrev pub max_uint16 : ℕ
max_uint16 = 65535

-- `n` copies, as the loop appends them.
abbrev pub copies : {A : Type 0} → ℕ → A → List A
copies zero a = []
copies (suc n) a = a ∷ copies n a

-- xs[i] = f(xs[i]), where there is such an element
abbrev pub change_at : {A : Type 0} → ℕ → (A → A) → List A → List A
change_at i f [] = []
change_at zero f (x ∷ xs) = f x ∷ xs
change_at (suc i) f (x ∷ xs) = x ∷ change_at i f xs

abbrev pub value_at : ℕ → List ℕ → ℕ
value_at i [] = 0
value_at zero (x ∷ xs) = x
value_at (suc i) (x ∷ xs) = value_at i xs

abbrev pub count_up : ℕ → ℕ
count_up n = if ltb n max_uint16 then suc n else n

module _ (fl : Floats) where
  pub record Demand : Type 0 where
    pub demand : List fl.F
    pub slots : List ℕ

  -- An average of `n` values with one more.
  abbrev pub averaged : ℕ → fl.F → fl.F → fl.F
  averaged n mhz d =
      fl.round32 (fl.div (fl.add (fl.mul d (fl.of_int n)) mhz) (fl.add (fl.of_int n) (fl.of_int 1)))

  abbrev pub padded : ℕ → Demand → Demand
  padded i s =
      let k = suc i - length s.demand in
      record { demand = s.demand ++ copies k (fl.of_int 0); slots = s.slots ++ copies k 0 }

  abbrev pub recorded : ℕ → fl.F → Demand → Demand
  recorded i mhz s = record {
    demand = change_at i (averaged (value_at i s.slots) mhz) s.demand;
    slots = change_at i count_up s.slots;
  }

  -- The slot of an instant that is not before the anchor.
  abbrev pub slot_of : ℤ → ℤ → ℕ
  slot_of anchor t = pos_part (t -ℤ anchor) / slot_length

  -- `setSlot`
  unfoldable pub set_slot : ℤ → ℤ → fl.F → Demand → Demand
  set_slot anchor t mhz s =
      if ltℤ t anchor || leb max_slots (slot_of anchor t)
      then s
      else recorded (slot_of anchor t) mhz (padded (slot_of anchor t) s)
