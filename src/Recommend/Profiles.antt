-- ===== src/Recommend/Profiles.antt =====
-- `Profiles` and `ProfileByName` of internal/analysis/recommend.go.
use rightsizer.Prelude.{List, [], ◌∷◌, if◌then◌else◌}
use rightsizer.Floats.{Floats}
use rightsizer.Text.{Text, codes}
use rightsizer.Text.Equality.{text_eq}
use rightsizer.Recommend.Data.{Profile, ratio}

module _ (fl : Floats) where
  abbrev pub conservative : Profile fl
  conservative = record {
    name = codes "conservative";
    percentile = fl.of_int 99;
    cpu_target = ratio fl 6 10;
    mem_headroom = ratio fl 14 10;
    min_mem_ratio = ratio fl 5 10;
    host_cpu = ratio fl 6 10;
    host_mem = ratio fl 8 10;
  }

  abbrev pub balanced : Profile fl
  balanced = record {
    name = codes "balanced";
    percentile = fl.of_int 95;
    cpu_target = ratio fl 7 10;
    mem_headroom = ratio fl 125 100;
    min_mem_ratio = ratio fl 35 100;
    host_cpu = ratio fl 7 10;
    host_mem = ratio fl 85 100;
  }

  abbrev pub aggressive : Profile fl
  aggressive = record {
    name = codes "aggressive";
    percentile = fl.of_int 95;
    cpu_target = ratio fl 8 10;
    mem_headroom = ratio fl 11 10;
    min_mem_ratio = ratio fl 25 100;
    host_cpu = ratio fl 8 10;
    host_mem = ratio fl 9 10;
  }

  abbrev named : Text → List (Profile fl) → Profile fl
  named n [] = balanced
  named n (p ∷ ps) = let rest = named n ps in if text_eq p.name n then p else rest

  unfoldable pub profile_by_name : Text → Profile fl
  unfolding text_eq
  profile_by_name n = named n (conservative ∷ balanced ∷ aggressive ∷ [])
