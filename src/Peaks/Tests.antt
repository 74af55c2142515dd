-- ===== src/Peaks/Tests.antt =====
-- Five VMs, of which four peak together.
use rightsizer.Prelude.{ℕ, ◌≡◌, refl, some, List, [], ◌∷◌}
use rightsizer.Peaks.{find, group_roots}
use rightsizer.Peaks.Groups.{ArePartition, group_roots-ArePartition}

abbrev pairs : List (ℕ × ℕ)
pairs = (0, 1) ∷ (2, 3) ∷ (1, 3) ∷ []

five : group_roots 5 pairs ≡ some (3 ∷ 3 ∷ 3 ∷ 3 ∷ 4 ∷ [])
unfolding group_roots find
five = refl

group_roots-ArePartition_example : ArePartition 5 pairs (group_roots 5 pairs)
group_roots-ArePartition_example = group_roots-ArePartition 5 pairs
