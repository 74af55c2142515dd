-- ===== src/Stats/Vm.antt =====
-- The statistics that internal/analysis/stats.go keeps of every VM and of every cluster. An instant is
-- a number of nanoseconds since Go's zero time.
use rightsizer.Prelude.{ℕ, ℤ, List}
use rightsizer.Floats.{Floats}
use rightsizer.Map.{Map}
use rightsizer.Stats.{Hist}
use rightsizer.Stats.Average.{Stat}
use rightsizer.Stats.Demand.{Demand}

module _ (fl : Floats) where
  pub record VmStats : Type 0 where
    pub cpu : Hist fl
    pub mem : Hist fl
    pub ready : Stat fl
    pub co_stop : Stat fl
    pub cpu_mhz : Stat fl
    pub consumed : Stat fl
    pub disk : Stat fl
    pub net : Stat fl
    pub read_iops : Stat fl
    pub write_iops : Stat fl
    pub first : ℤ
    pub last : ℤ
    pub samples : ℕ
    -- the demand slots since the anchor of the store
    pub slots : Demand fl

  unfoldable pub hours : VmStats → fl.F
  hours s = fl.div (fl.mul (fl.of_int s.samples) (fl.of_int 20)) (fl.of_int 3600)

  pub record Point : Type 0 where
    pub t : ℤ
    pub cpu_mhz : fl.F
    pub mem_b : fl.F

  pub record ClusterStats : Type 0 where
    pub cpu : Hist fl
    pub mem : Hist fl
    pub points : List Point

  pub record Store : Type 0 where
    pub vms : Map VmStats
    pub clusters : Map ClusterStats
    pub anchor : ℤ
