-- ===== src/Guard/Tests.antt =====
-- Calls that the guard lets through and refuses, and the theorem at them.
use rightsizer.Prelude.{◌≡◌, refl, List, [], ◌∷◌, Outcome, ok, err, All, filter_by}
use rightsizer.Text.{Text, codes}
use rightsizer.Text.Equality.{text_eq}
use rightsizer.Guard.{
  listed, allowed, trim_suffix, method_name, CallFailure, read_only, round_trip, sent, TaskOnly,
  sent-TaskOnly,
}

abbrev answer : Text → Outcome CallFailure Text
answer r = ok (codes "answer")

refused :
    (round_trip answer (codes "PowerOffVM_TaskBody")).1 ≡ err (read_only (codes "PowerOffVM_Task"))
unfolding round_trip allowed listed method_name trim_suffix text_eq
refused = refl

abbrev calls : List Text
calls = codes "LoginBody" ∷ codes "PowerOffVM_TaskBody" ∷ codes "QueryPerfBody" ∷ []

sent-TaskOnly_example :
    (sent answer calls ≡ filter_by (λ r. allowed (method_name r)) calls)
    × All (λ r. TaskOnly (method_name r)) (sent answer calls)
sent-TaskOnly_example = sent-TaskOnly answer calls
