-- ===== src/Guard.antt =====
-- internal/vc/guard.go: the SOAP methods that may leave the process.
--
-- A request is the name of its type, without pointers; the transport behind the guard is an argument.
mod Tests
use rightsizer.Prelude.{
  ap, ◌≡◌, refl, ◌⊎◌, inl, inr, Bool, true, false, List, [], ◌∷◌, ◌++◌, arith, if◌then◌else◌, ◌||◌,
  Outcome, ok, err, All, Bool-cases, filter_by,
}
use rightsizer.Text.{Text, codes}
use rightsizer.Text.Equality.{text_eq, text_eq_iff}

-- The keys of `allowed`.
abbrev pub allowed_methods : List Text
allowed_methods =
    codes "RetrieveServiceContent"
    ∷ codes "Login"
    ∷ codes "Logout"
    ∷ codes "CurrentTime"
    ∷ codes "RetrieveProperties"
    ∷ codes "RetrievePropertiesEx"
    ∷ codes "ContinueRetrievePropertiesEx"
    ∷ codes "CancelRetrievePropertiesEx"
    ∷ codes "CreateContainerView"
    ∷ codes "DestroyView"
    ∷ codes "QueryPerf"
    ∷ codes "QueryPerfCounter"
    ∷ codes "QueryAvailablePerfMetric"
    ∷ codes "QueryPerfProviderSummary"
    ∷ codes "SearchDatastoreSubFolders_Task"
    ∷ []

-- Whether the text is a key.
unfoldable pub listed : Text → List Text → Bool
listed t [] = false
listed t (m ∷ ms) = text_eq m t || listed t ms

unfoldable pub allowed : Text → Bool
unfolding listed
allowed m = listed m allowed_methods

-- `strings.TrimSuffix`
unfoldable pub trim_suffix : Text → Text → Text
trim_suffix suf [] = []
trim_suffix suf (c ∷ t) =
    let rest = trim_suffix suf t in if text_eq (c ∷ t) suf then [] else c ∷ rest

unfoldable pub method_name : Text → Text
unfolding trim_suffix
method_name type_name = trim_suffix (codes "Body") type_name

-- `ReadOnlyError`, or the error of the transport
pub data CallFailure : Type 0 where
  read_only : Text → CallFailure
  transport : Text → CallFailure

-- `RoundTrip`: what leaves the process, and the result.
unfoldable pub round_trip :
    (Text → Outcome CallFailure Text) → Text → List Text × Outcome CallFailure Text
unfolding method_name allowed
round_trip next req =
    if allowed (method_name req)
    then (req ∷ [], next req)
    else ([], err (read_only (method_name req)))

-- The requests that leave the process when all of a list are made.
unfoldable pub sent : (Text → Outcome CallFailure Text) → List Text → List Text
sent next [] = []
sent next (r ∷ rs) = (round_trip next r).0 ++ sent next rs

-- Whether the name is that of a task, by which vSphere changes things.
abbrev pub is_task : Text → Bool
is_task [] = false
is_task (c ∷ t) = text_eq (c ∷ t) (codes "_Task") || is_task t

listed-All : (P : Text → Type 0) (t : Text) (ms : List Text) → All P ms → listed t ms ≡ true → P t
unfolding listed
listed-All P t [] all h = cc
listed-All P t (m ∷ ms) (p, all) h = elim (Bool-cases (text_eq m t)) [
  | inl e ↦ rw⁻¹ ((text_eq_iff m t).0 e) p
  | inr e ↦ listed-All P t ms all (ground (arith, e, h))
]

abbrev pub TaskOnly : Text → Type 0
TaskOnly m = is_task m ≡ true → m ≡ codes "SearchDatastoreSubFolders_Task"

-- No name in the list but one is that of a task.
listed_tasks : All TaskOnly allowed_methods
unfolding text_eq
listed_tasks = (
  no_task,
  (
    no_task,
    (
      no_task,
      (
        no_task,
        (
          no_task,
          (
            no_task,
            (
              no_task,
              (
                no_task,
                (no_task, (no_task, (no_task, (no_task, (no_task, (no_task, (λ h. refl, tt))))))),
              ),
            ),
          ),
        ),
      ),
    ),
  ),
)
  where
    no_task : {m : Text} → false ≡ true → m ≡ codes "SearchDatastoreSubFolders_Task"
    no_task h = cc

allowed-TaskOnly : (m : Text) → allowed m ≡ true → TaskOnly m
unfolding allowed
allowed-TaskOnly m h = listed-All TaskOnly m allowed_methods listed_tasks h

-- Whatever calls are made, those of allowed methods leave the process and no others do, and the only
-- task among them is the search of a datastore, which lists files.
pub sent-TaskOnly :
    (next : Text → Outcome CallFailure Text) (rs : List Text)
    → (sent next rs ≡ filter_by (λ r. allowed (method_name r)) rs)
      × All (λ r. TaskOnly (method_name r)) (sent next rs)
unfolding sent round_trip
sent-TaskOnly next [] = (refl, tt)
sent-TaskOnly next (r ∷ rs) =
    let (same, tasks) = sent-TaskOnly next rs in
    elim (Bool-cases (allowed (method_name r))) [
      | inl e ↦ rw e (ap (λ xs. r ∷ xs) same, (allowed-TaskOnly (method_name r) e, tasks))
      | inr e ↦ rw e (same, tasks)
    ]
