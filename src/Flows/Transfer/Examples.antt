-- ===== src/Flows/Transfer/Examples.antt =====
-- One declared destination, with a number to ring after it.
use owen_main.Common.{◌≤◌, [], ◌∷◌, ◌≡◌, refl, false, none, some, contains, length, All}
use owen_main.Common.Json.{
  nil, cons, int, str, list, dict, end, field, Dict, get, has, as_dict, truthy,
}
use owen_main.Common.Print.{str_of}
use owen_main.Common.Chars.{strip, is_space, strip_chars, lstrip}
use owen_main.Flows.Transfer.{
  ring_seconds_problem, usable_ring, target_of, kind_of, Destination, destination, declared,
  resolve_transfer_target, chosen_from, usable_steps, then_problems, steps_problems, step_problems,
  step_ring_problem, chosen_step, list_of,
}
use owen_main.Flows.Transfer.Allowlist.{Declares, transfer_declared}
use owen_main.Flows.Transfer.FollowUps.{StepFits, follow_ups_StepFits}

abbrev office : Dict
office =
    (
      "office",
      dict (
          field "target" (str "+1 555 0100") (
            field "ring_seconds" (int false 12) (
              field "then"
                (list (
                  cons (dict (field "target" (str "desk") (field "kind" (str "operator") end)))
                    nil))
                end))),
    )
    ∷ []

abbrev to_office : Destination
to_office = record {
  kind = "number";
  target = "+1 555 0100";
  name = "office";
  ring_seconds = some (int false 12);
  follow_ups = record { step_kind = "operator"; step_target = "desk"; step_seconds = none } ∷ [];
}

resolved : resolve_transfer_target (some office) "office" ≡ some to_office
unfolding resolve_transfer_target declared destination chosen_from kind_of target_of usable_ring
    usable_steps then_problems steps_problems step_problems step_ring_problem chosen_step list_of
    ring_seconds_problem strip strip_chars lstrip is_space contains get has as_dict truthy str_of
resolved = refl

transfer_declared_example :
    (entry : Dict) × (as_dict (get "office" office) ≡ some entry)
    × Declares "office" entry to_office
transfer_declared_example = transfer_declared office "office" to_office resolved

follow_ups_StepFits_example : (length to_office.follow_ups ≤ 2) × All StepFits to_office.follow_ups
follow_ups_StepFits_example = follow_ups_StepFits office "office" to_office resolved
