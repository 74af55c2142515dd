-- ===== src/Stats/Series/Slots.antt =====
-- The loop of `addDemand` of internal/analysis/stats.go ends within its fuel.
use rightsizer.Prelude.{
  ℕ, zero, suc, ◌+◌, ◌*◌, ◌/◌, ◌≤◌, ◌≡◌, refl, ap, false, arith, ℤ, pos, negsuc, ltℤ, if◌then◌else◌,
  +ℤ_parts, -ℤ_parts, ◌+ℤ◌, ◌-ℤ◌, ◌≤ℤ◌,
}
use rightsizer.Floats.{Floats}
use rightsizer.Stats.Demand.{Demand, slot_length, set_slot}
use rightsizer.Stats.Series.{span, slot_fuel, half_hour, fill_slots}

-- Truncating to half hours takes less than half an hour off.
half_hour_bound : (t : ℤ) → t ≤ℤ half_hour t +ℤ pos slot_length
half_hour_bound (pos n) = omega (arith, +ℤ_parts (half_hour (pos n)) (pos slot_length))
half_hour_bound (negsuc n) =
    let down : ℕ = slot_length * ((n + slot_length) / slot_length) in
    omega (arith, -ℤ_parts (pos 0) (pos down), +ℤ_parts (half_hour (negsuc n)) (pos slot_length))

module _ (fl : Floats) where
  no_slots_left :
      (f : ℕ) (anchor t ts : ℤ) (mhz : fl.F) (d : Demand fl)
      → ts ≤ℤ t
      → fill_slots fl f anchor t ts mhz d ≡ d
  unfolding fill_slots
  no_slots_left zero anchor t ts mhz d h = refl
  no_slots_left (suc f) anchor t ts mhz d h =
      let ended : ltℤ t ts ≡ false = ground (arith, h) in rw ended refl

  -- More fuel than there are slots between the two instants changes nothing.
  fill_slots_enough :
      (f g : ℕ) (anchor t ts : ℤ) (mhz : fl.F) (d : Demand fl)
      → f ≤ g
      → ts ≤ℤ t +ℤ pos (f * slot_length)
      → fill_slots fl g anchor t ts mhz d ≡ fill_slots fl f anchor t ts mhz d
  unfolding fill_slots
  fill_slots_enough zero g anchor t ts mhz d more h =
      no_slots_left g anchor t ts mhz d (omega (arith, +ℤ_parts t (pos 0), h))
  fill_slots_enough (suc f) zero anchor t ts mhz d more h = absurd (omega (arith, more))
  fill_slots_enough (suc f) (suc g) anchor t ts mhz d more h =
      let t' = t +ℤ pos slot_length in
      let rest =
        fill_slots_enough f g anchor t' ts mhz (set_slot fl anchor t mhz d) (omega (arith, more)) (
          omega (
            arith,
            h,
            +ℤ_parts t (pos slot_length),
            +ℤ_parts t' (pos (f * slot_length)),
            +ℤ_parts t (pos (suc f * slot_length)),
          )) in
      ap (λ x. if ltℤ t ts then x else d) rest

  -- The fuel of `add_demand` covers the span.
  slot_fuel_lem :
      (interval : ℕ) (ts : ℤ)
      → ts ≤ℤ half_hour (ts -ℤ pos (span fl interval)) +ℤ pos (slot_fuel fl interval * slot_length)
  slot_fuel_lem interval ts =
      let before : ℤ = ts -ℤ pos (span fl interval) in
      let start = half_hour before in
      omega (
        arith,
        half_hour_bound before,
        -ℤ_parts ts (pos (span fl interval)),
        +ℤ_parts start (pos slot_length),
        +ℤ_parts start (pos (slot_fuel fl interval * slot_length)),
      )

  -- More fuel leaves the demand of a sample as it is.
  demand_fuel_enough :
      (g interval : ℕ) (anchor ts : ℤ) (mhz : fl.F) (d : Demand fl)
      → slot_fuel fl interval ≤ g
      → let start = half_hour (ts -ℤ pos (span fl interval)) in
        fill_slots fl g anchor start ts mhz d
        ≡ fill_slots fl (slot_fuel fl interval) anchor start ts mhz d
  demand_fuel_enough g interval anchor ts mhz d more =
      fill_slots_enough (slot_fuel fl interval) g anchor (half_hour (ts -ℤ pos (span fl interval)))
        ts mhz d more (slot_fuel_lem interval ts)
