-- ===== src/Recommend/Data.antt =====
-- The types of internal/analysis/recommend.go, and of internal/vc/inventory.go what it reads. A size is
-- a number of bytes or megabytes, an instant a number of nanoseconds since Go's zero time.
use rightsizer.Prelude.{ℕ, suc, Bool, false, List, [], ℤ, pos, negsuc, ◌==◌}
use rightsizer.Floats.{Floats}
use rightsizer.Text.{Text, codes}

pub data Kind : Type 0 where
  cpu_over cpu_under mem_over mem_under idle powered_off old_snap thick_disk orphan wide_vm : Kind
  co_stop_high : Kind

pub data Severity : Type 0 where
  low medium high : Severity

-- The number of a severity, by `iota`.
abbrev pub level : Severity → ℕ
level low = 0
level medium = 1
level high = 2

-- The confidence of a finding is a text, "preview" for one from historical averages.
abbrev pub preview_text : Text
preview_text = codes "preview"

pub record Disk : Type 0 where
  pub capacity : ℕ
  pub thin : Bool

pub record GuestDisk : Type 0 where
  pub capacity : ℕ
  pub free : ℕ

pub record Vm : Type 0 where
  pub ref : Text
  pub uuid : Text
  pub name : Text
  pub cluster : Text
  pub host : Text
  pub guest_os : Text
  pub power_on : Bool
  pub template : Bool
  pub vcpu : ℕ
  pub mem_mb : ℕ
  pub committed : ℕ
  pub disks : List Disk
  pub guest_disks : List GuestDisk
  -- the instants at which its snapshots were made
  pub snapshots : List ℤ
  pub snapshot_bytes : ℕ

pub record Host : Type 0 where
  pub name : Text
  pub cluster : Text
  pub cpu_model : Text
  pub cores : ℕ
  pub mhz : ℕ
  pub mem_bytes : ℕ
  pub numa_nodes : ℕ
  pub connected : Bool

-- The zero value, which a map answers for a host that it lacks.
abbrev pub no_host : Host
no_host = record {
  name = [];
  cluster = [];
  cpu_model = [];
  cores = 0;
  mhz = 0;
  mem_bytes = 0;
  numa_nodes = 0;
  connected = false;
}

pub record OrphanDisk : Type 0 where
  pub datastore : Text
  pub path : Text
  pub size : ℤ

-- `time.Time.IsZero`
abbrev pub is_zero : ℤ → Bool
is_zero (pos n) = n == 0
is_zero (negsuc n) = false

module _ (fl : Floats) where
  pub record Profile : Type 0 where
    pub name : Text
    pub percentile : fl.F
    pub cpu_target : fl.F
    pub mem_headroom : fl.F
    pub min_mem_ratio : fl.F
    pub host_cpu : fl.F
    pub host_mem : fl.F

  pub record Finding : Type 0 where
    pub uuid : Text
    pub path : Text
    pub vm : Text
    pub cluster : Text
    pub kind : Kind
    pub severity : Severity
    pub vcpu : ℤ
    pub mem_mb : ℤ
    pub bytes : ℕ
    pub confidence : Text
    pub metric : fl.F
    pub impact : fl.F

  pub record VmResult : Type 0 where
    pub ref : Text
    pub name : Text
    pub cluster : Text
    pub power_on : Bool
    pub vcpu : ℕ
    pub rec_vcpu : ℕ
    pub mem_mb : ℕ
    pub rec_mem_mb : ℕ
    pub cpu_p : fl.F
    pub cpu_max : fl.F
    pub mem_p : fl.F
    pub ready_avg : fl.F
    pub co_stop_avg : fl.F
    pub hours : fl.F
    pub confidence : Text
    pub preview : Bool
    pub excluded : Bool

  -- A finding of a VM before a rule fills it in.
  abbrev pub blank : Text → Text → Text → Kind → Severity → Finding
  blank vm cluster confidence kind severity = record {
    uuid = [];
    path = [];
    vm = vm;
    cluster = cluster;
    kind = kind;
    severity = severity;
    vcpu = pos 0;
    mem_mb = pos 0;
    bytes = 0;
    confidence = confidence;
    metric = fl.of_int 0;
    impact = fl.of_int 0;
  }

  -- A number with decimals: the nearest float64 to a / b, as the literal.
  abbrev pub ratio : ℕ → ℕ → fl.F
  ratio a b = fl.div (fl.of_int a) (fl.of_int b)

  -- float64 of a signed integer
  abbrev pub of_signed : ℤ → fl.F
  of_signed (pos n) = fl.of_int n
  of_signed (negsuc n) = fl.sub (fl.of_int 0) (fl.of_int (suc n))
