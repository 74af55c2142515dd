-- ===== src/Engine/Data.antt =====
-- internal/engine/engine.go and source.go: the state of the engine and of one source.
--
-- An instant is a number of nanoseconds since Go's zero time, a duration a number of nanoseconds;
-- saturation at 292 years is left out. The measurements, the report and the samples that vCenter
-- answers with are the types of `World`. A context is a number.
use rightsizer.Prelude.{ℕ, ◌*◌, Bool, ◌||◌, true, false, Option, List, [], ◌∷◌, ℤ, pos, filter_by}
use rightsizer.Text.{Text}
use rightsizer.Text.Equality.{text_eq}

-- Of vc.Host and vc.VM, what the engine reads.
pub record Host : Type 0 where
  pub ref : Text
  pub cluster : Text
  pub connected : Bool

pub record Vm : Type 0 where
  pub ref : Text
  pub cluster : Text
  pub power_on : Bool
  pub template : Bool
  pub vcpu : ℕ

pub record Inventory : Type 0 where
  pub taken : ℤ
  pub hosts : List Host
  pub vms : List Vm
  pub datastores : List Text

-- The results of internal/analysis that the engine passes on.
pub record World : Type 1 where
  pub Store : Type 0
  pub Report : Type 0
  pub Samples : Type 0
  -- analysis.NewStore
  pub new_store : ℤ → Store
  -- Store.Newest
  pub newest : Store → ℤ
  -- AddVM and AddHosts over the samples of one poll
  pub ingest : Inventory → Samples → Store → Store
  -- Analyze, with the start, the end and the planned duration, and whether it is final
  pub analyze : Inventory → Store → ℤ → ℤ → ℤ → Bool → Report

pub data Phase : Type 0 where
  need_password running done : Phase

pub record Config : Type 0 where
  pub host : Text
  pub user : Text
  pub fingerprint : Text
  pub duration : ℤ
  pub profile : Text
  pub clusters : List Text

-- `state`, without the history and the scans that run in the background.
pub record State (W : World) : Type 0 where
  pub config : Config
  pub phase : Phase
  pub started : ℤ
  pub ends : ℤ
  pub finished : ℤ
  pub about : Text
  pub inventory : Option Inventory
  pub store : Option (W.Store)
  pub polls : ℕ
  pub report : Option Text

-- A failed call: `context.Canceled`, an error of vc.IsAuthError, or another.
pub data CallError : Type 0 where
  canceled auth_error call_error : CallError

pub record Source (W : World) : Type 0 where
  pub id : Text
  pub st : State W
  -- a vCenter session
  pub client : Bool
  -- the context that `s.cancel` cancels
  pub cancel : Option ℕ
  -- the contexts of the goroutines that run, as the wait group counts them
  pub loops : List ℕ
  pub backgrounds : List ℕ
  pub last_poll : ℤ
  pub next_poll : ℤ
  pub last_err : Option CallError
  pub auth_fails : ℕ
  pub result : Option (W.Report)
  -- state.gob, as the last `save` that succeeded wrote it
  pub saved : Option (State W)

abbrev pub zero_time : ℤ
zero_time = pos 0

abbrev pub minute : ℕ
minute = 60 * 1000000000

abbrev pub hour : ℕ
hour = 60 * minute

abbrev pub day : ℕ
day = 24 * hour

abbrev pub max_auth_fails : ℕ
max_auth_fails = 3

abbrev pub max_sources : ℕ
max_sources = 32

abbrev pub min_duration : ℤ
min_duration = pos day

abbrev pub max_duration : ℤ
max_duration = pos (14 * day)

abbrev pub max_total : ℤ
max_total = pos (30 * day)

abbrev pub poll_every : ℤ
poll_every = pos (5 * minute)

abbrev pub inventory_every : ℤ
inventory_every = pos hour

abbrev pub is_done : Phase → Bool
is_done done = true
is_done _ = false

abbrev pub is_paused : Phase → Bool
is_paused need_password = true
is_paused _ = false

-- `slices.Contains`
pub contains : List Text → Text → Bool
contains [] t = false
contains (x ∷ xs) t = text_eq x t || contains xs t

-- The inventory of the clusters listed. Datastores are not kept.
unfoldable pub filter_clusters : Inventory → List Text → Inventory
unfolding contains
filter_clusters inv keep = record {
  taken = inv.taken;
  hosts = filter_by (λ h. contains keep h.cluster) inv.hosts;
  vms = filter_by (λ v. contains keep v.cluster) inv.vms;
  datastores = [];
}
