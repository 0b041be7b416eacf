-- ===== src/Flows/Service.antt =====
-- backend/app/flows/service.py: version numbers, the version that a clone copies, and the guards of
-- assigning and deleting a flow. The ids of versions are numbers.
pub mod Versions
mod Examples
use owen_main.Common.{
  ℕ, ◌+◌, String, List, [], ◌∷◌, Bool, true, false, Option, none, some, max, leb, ltb, ◌==◌, str_eq,
  if◌then◌else◌,
}

-- `max(nums)`
unfoldable pub highest : ℕ → List ℕ → ℕ
highest n [] = n
highest n (m ∷ ns) = max n (highest m ns)

unfoldable pub next_version_number : List ℕ → ℕ
unfolding highest
next_version_number [] = 1
next_version_number (n ∷ ns) = highest n ns + 1

-- The sentences of `flow_assignment_error`.
pub data AssignmentError : Type 0 where
  wrong_provider not_found no_active_version : AssignmentError

provider_of : Option String → String
provider_of none = ""
provider_of (some p) = p

unfoldable pub flow_assignment_error :
    Option String → String → Bool → Option ℕ → Option AssignmentError
unfolding provider_of
flow_assignment_error provider expected exists active =
    if str_eq (provider_of provider) expected
    then (if exists
        then elim active [ none ↦ some no_active_version | some _ ↦ none ]
        else some not_found)
    else some wrong_provider

-- `any(vid == active_version_id for vid, _ in versions)`
unfoldable pub has_version : ℕ → List (ℕ × ℕ) → Bool
has_version id [] = false
has_version id (v ∷ vs) = let rest = has_version id vs in if v.0 == id then true else rest

-- `max(versions, key=...)`: the first of those with the highest number.
unfoldable pub latest : ℕ × ℕ → List (ℕ × ℕ) → ℕ × ℕ
latest best [] = best
latest best (v ∷ vs) =
    let other = latest v vs in let same = latest best vs in if ltb best.1 v.1 then other else same

unfoldable pub latest_id : List (ℕ × ℕ) → Option ℕ
unfolding latest
latest_id [] = none
latest_id (v ∷ vs) = some (latest v vs).0

unfoldable pub pick_clone_source : Option ℕ → List (ℕ × ℕ) → Option ℕ
unfolding has_version latest_id
pick_clone_source none versions = latest_id versions
pick_clone_source (some active) versions =
    if has_version active versions then some active else latest_id versions

-- What a deletion may do; a refusal names the numbers that the flow is assigned to.
pub data DeletePlan : Type 0 where
  refused : List String → DeletePlan
  archived deleted : DeletePlan

unfoldable pub flow_delete_plan : List String → ℕ → DeletePlan
flow_delete_plan [] calls = if ltb 0 calls then archived else deleted
flow_delete_plan (n ∷ ns) calls = refused (n ∷ ns)
