-- ===== src/Stats/Series/Tests.antt =====
-- Samples of a VM with numbers of three decimals in place of float64, and the theorem at them.
use rightsizer.Prelude.{
  ℕ, zero, suc, ◌*◌, ◌≤◌, ◌≡◌, refl, false, some, [], ◌∷◌, arith, ltb, All, pos, ◌≤ℤ◌,
}
use rightsizer.Floats.Decimal.{thousandths}
use rightsizer.Text.{Text, codes}
use rightsizer.Text.Equality.{text_eq}
use rightsizer.Map.{lookup}
use rightsizer.Stats.{hist_buckets, max_uint32, bucket}
use rightsizer.Stats.Vm.{Store}
use rightsizer.Stats.Series.{Series, second, weight, zeros, no_stats, stats_of, add_vm}
use rightsizer.Stats.Series.Once.{IsVm, add_vm_once}

bucket_below : (v : ℕ) → ltb v 0 ≡ false → false ≡ false → bucket thousandths v ≤ hist_buckets
bucket_below v h k = omega arith

-- Two samples of an hour, one of which has the demand as well.
abbrev two_hours : Series thousandths
two_hours = record {
  ref = codes "vm-7";
  interval = 3600;
  ts = pos (7200 * second) ∷ pos (10800 * second) ∷ [];
  values =
      (codes "cpu.usage.average", 12500 ∷ 40000 ∷ [])
      ∷ (codes "mem.usage.average", 30000 ∷ 31000 ∷ [])
      ∷ (codes "cpu.usagemhz.average", 900000 ∷ [])
      ∷ [];
  inst = [];
}

abbrev no_vms : Store thousandths
no_vms = record { vms = []; clusters = []; anchor = pos (3600 * second) }

zeros-All : (n : ℕ) → All (λ b. b ≤ max_uint32) (zeros n)
zeros-All zero = tt
zeros-All (suc n) = (omega arith, zeros-All n)

no_stats-IsVm : IsVm thousandths (no_stats thousandths)
no_stats-IsVm = (
  (refl, zeros-All 201, omega arith),
  (refl, zeros-All 201, omega arith),
  omega arith,
  omega arith,
  (refl, omega arith, tt),
)

add_vm_once_example :
    (st' : Store thousandths) × (add_vm thousandths two_hours 2 no_vms ≡ some st')
    × (add_vm thousandths two_hours 2 st' ≡ some st')
    × IsVm thousandths (stats_of thousandths (lookup (codes "vm-7") st'.vms))
    × All (λ t. t ≤ℤ (stats_of thousandths (lookup (codes "vm-7") st'.vms)).last) two_hours.ts
    × ((k : Text) → text_eq (codes "vm-7") k ≡ false → lookup k st'.vms ≡ lookup k [])
unfolding lookup weight
add_vm_once_example =
    add_vm_once thousandths bucket_below two_hours 2 no_vms no_stats-IsVm (omega arith)
