-- ===== src/Flows/Transfer.antt =====
-- backend/app/flows/transfer.py: the destinations that an agent may transfer a call to. Names of
-- destinations are texts; what the sentences about problems say is left to constructors.
mod Examples
pub mod Allowlist
pub mod FollowUps
use owen_main.Common.{
  ℕ, zero, suc, ◌+◌, String, List, [], ◌∷◌, ◌++◌, Bool, true, false, not, ◌&&◌, ◌||◌, Option, none,
  some, leb, ltb, ◌==◌, contains, str_eq, sorted, length, if◌then◌else◌, map,
}
use owen_main.Common.Json.{
  Value, null, bool, int, str, list, dict, Values, nil, cons, Dict, get, has, keys, elements,
  as_dict, truthy,
}
use owen_main.Common.Print.{str_of}
use owen_main.Common.Chars.{strip}

abbrev pub transfer_kinds : List String
transfer_kinds = "number" ∷ "operator" ∷ "flow" ∷ "agent" ∷ []

abbrev pub ring_kinds : List String
ring_kinds = "number" ∷ "operator" ∷ []

abbrev pub ring_seconds_min : ℕ
ring_seconds_min = 5

abbrev pub ring_seconds_max : ℕ
ring_seconds_max = 60

abbrev pub then_max : ℕ
then_max = 2

-- The sentences of problems; a step of `then` is named by its number.
pub data TransferProblem : Type 0 where
  not_whole out_of_range : TransferProblem
  then_not_list then_too_long : TransferProblem
  step_not_object step_not_ringing step_no_target : ℕ → TransferProblem
  step_ring : ℕ → TransferProblem → TransferProblem

-- `ring_seconds_problem`
unfoldable pub ring_seconds_problem : Value → Option TransferProblem
ring_seconds_problem (int negative n) =
    if not negative && leb ring_seconds_min n && leb n ring_seconds_max
    then none
    else some out_of_range
ring_seconds_problem v = some not_whole

-- `str(entry.get("kind") or "number")`
unfoldable pub kind_of : Dict → String
kind_of entry = let kind = get "kind" entry in if truthy kind then str_of kind else "number"

-- `str(entry.get("target") or "").strip()`
unfoldable pub target_of : Dict → String
unfolding strip
target_of entry =
    let target = get "target" entry in strip (if truthy target then str_of target else "")

unfoldable pub step_ring_problem : ℕ → Dict → List TransferProblem
unfolding ring_seconds_problem
step_ring_problem i step =
    if has "ring_seconds" step
    then elim (ring_seconds_problem (get "ring_seconds" step)) [
      | none ↦ []
      | some p ↦ step_ring i p ∷ []
    ]
    else []

unfoldable pub step_problems : ℕ → Value → List TransferProblem
unfolding kind_of target_of step_ring_problem contains
step_problems i v = elim (as_dict v) [
  | none ↦ step_not_object i ∷ []
  | some step ↦
      (if contains (kind_of step) ring_kinds then [] else step_not_ringing i ∷ [])
      ++ (if str_eq (target_of step) "" then step_no_target i ∷ [] else [])
      ++ step_ring_problem i step
]

unfoldable pub steps_problems : ℕ → List Value → List TransferProblem
unfolding step_problems
steps_problems i [] = []
steps_problems i (v ∷ vs) = step_problems i v ++ steps_problems (suc i) vs

-- `then_problems`
unfoldable pub then_problems : Value → List TransferProblem
unfolding steps_problems
then_problems null = []
then_problems (list nil) = then_not_list ∷ []
then_problems (list (cons v vs)) =
    if leb (length (elements (cons v vs))) then_max
    then steps_problems 1 (elements (cons v vs))
    else then_too_long ∷ []
then_problems v = then_not_list ∷ []

-- A step that rings one more number, and the destination that is chosen.
pub record Step : Type 0 where
  pub step_kind : String
  pub step_target : String
  pub step_seconds : Option Value

pub record Destination : Type 0 where
  pub kind : String
  pub target : String
  pub name : String
  pub ring_seconds : Option Value
  pub follow_ups : List Step

unfoldable pub chosen_step : Value → Step
unfolding kind_of target_of
chosen_step v = elim (as_dict v) [
  | none ↦ record { step_kind = "number"; step_target = ""; step_seconds = none }
  | some step ↦ record {
    step_kind = kind_of step;
    step_target = target_of step;
    step_seconds = if has "ring_seconds" step then some (get "ring_seconds" step) else none;
  }
]

-- An invalid value is ignored here, and a missing one reads as `null`.
unfoldable pub usable_ring : Value → Option Value
unfolding ring_seconds_problem
usable_ring v = elim (ring_seconds_problem v) [ none ↦ some v | some _ ↦ none ]

unfoldable pub list_of : Value → List Value
list_of (list vs) = elements vs
list_of _ = []

unfoldable pub usable_steps : String → Value → List Step
unfolding chosen_step list_of then_problems contains
usable_steps kind v =
    if contains kind ring_kinds
    then elim (then_problems v) [ [] ↦ map chosen_step (list_of v) | _ ∷ _ ↦ [] ]
    else []

-- The fields of the chosen destination.
unfoldable pub chosen_from : String → Dict → Destination
unfolding usable_ring usable_steps kind_of target_of
chosen_from name entry = record {
  kind = kind_of entry;
  target = target_of entry;
  name = name;
  ring_seconds = usable_ring (get "ring_seconds" entry);
  follow_ups = usable_steps (kind_of entry) (get "then" entry);
}

unfoldable pub destination : String → Dict → Option Destination
unfolding chosen_from kind_of target_of contains
destination name entry =
    if contains (kind_of entry) transfer_kinds && not (str_eq (target_of entry) "")
    then some (chosen_from name entry)
    else none

unfoldable pub declared : String → Option Dict → Option Destination
unfolding destination
declared name none = none
declared name (some entry) = destination name entry

-- `resolve_transfer_target`
unfoldable pub resolve_transfer_target : Option Dict → String → Option Destination
unfolding declared get as_dict
resolve_transfer_target none name = none
resolve_transfer_target (some targets) name =
    if str_eq name "" then none else declared name (as_dict (get name targets))

unfoldable pub keep_name : String → Option Destination → List String → List String
keep_name n none rest = rest
keep_name n (some _) rest = n ∷ rest

unfoldable pub offered : Dict → List String → List String
unfolding resolve_transfer_target keep_name
offered targets [] = []
offered targets (n ∷ ns) =
    keep_name n (resolve_transfer_target (some targets) n) (offered targets ns)

-- `target_names`
unfoldable pub target_names : Option Dict → List String
unfolding offered sorted
target_names none = []
target_names (some targets) = sorted (offered targets (keys targets))

-- `office_open` by the day of the week and the hour.
unfoldable pub office_open : ℕ → ℕ → Bool
office_open weekday hour = leb weekday 5 && leb 8 hour && ltb hour 17
