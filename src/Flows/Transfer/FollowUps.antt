-- ===== src/Flows/Transfer/FollowUps.antt =====
-- The numbers that are rung after the first are few, and each is fit to ring.
use owen_main.Common.{
  ℕ, suc, ◌≤◌, String, List, [], ◌∷◌, ◌≡◌, refl, ap, inl, inr, Bool, true, false, Option, none,
  some, contains, In, str_eq, Bool-cases, leb, leb→le, arith, if◌then◌else◌, All, length, map,
  append-eq-nil,
}
use mathlib.Core.Path.{subst}
use owen_main.Common.Json.{
  Value, nil, cons, null, bool, int, float, str, list, dict, Dict, get, has, elements, as_dict,
}
use owen_main.Flows.Transfer.{
  ring_kinds, then_max, ring_seconds_problem, usable_ring, kind_of, Step, chosen_step, chosen_from,
  step_problems, steps_problems, step_ring_problem, step_ring, TransferProblem, list_of,
  then_problems, usable_steps, Destination, resolve_transfer_target,
}
use owen_main.Flows.Transfer.Allowlist.{ring_bounded, transfer_chosen}

-- No ring time, or a whole number of seconds within the bounds.
abbrev pub RingFits : Option Value → Type 0
RingFits none = Unit
RingFits (some v) = (n : ℕ) × (v ≡ int false n) × (5 ≤ n) × (n ≤ 60)

pub record StepFits (s : Step) : Type 0 where
  pub rings : In s.step_kind ring_kinds
  pub has_target : str_eq s.step_target "" ≡ false
  pub ring : RingFits s.step_seconds

no_problem :
    (i : ℕ) (v : Value) (o : Option TransferProblem)
    → ring_seconds_problem v ≡ o
    → elim o as (λ _. List TransferProblem) [ none ↦ [] | some p ↦ step_ring i p ∷ [] ] ≡ []
    → usable_ring v ≡ some v
unfolding usable_ring
no_problem i v none e h = rw (usable_ring, e) refl
no_problem i v (some p) e h = cc h

RingFits-step :
    (i : ℕ) (step : Dict)
    → step_ring_problem i step ≡ []
    → RingFits (if has "ring_seconds" step then some (get "ring_seconds" step) else none)
unfolding step_ring_problem
RingFits-step i step h = elim (Bool-cases (has "ring_seconds" step)) [
  | inl q ↦ rw q (
      ring_bounded (get "ring_seconds" step) (get "ring_seconds" step) (
        no_problem i (get "ring_seconds" step) (ring_seconds_problem (get "ring_seconds" step)) refl
          (rw q at h)))
  | inr q ↦ rw q tt
]

kept_test : (b : Bool) (p : TransferProblem) → (if b then [] else p ∷ []) ≡ [] → b ≡ true
kept_test b p h = ground arith

failed_test : (b : Bool) (p : TransferProblem) → (if b then p ∷ [] else []) ≡ [] → b ≡ false
failed_test b p h = ground arith

-- A step without problems is fit to ring.
StepFits-chosen_step : (i : ℕ) (v : Value) → step_problems i v ≡ [] → StepFits (chosen_step v)
unfolding step_problems chosen_step
StepFits-chosen_step i v h = go (as_dict v) refl h
  where
    go : (o : Option Dict) → as_dict v ≡ o → step_problems i v ≡ [] → StepFits (chosen_step v)
    go none e h = cc (rw (step_problems, e) at h)
    go (some step) e h =
        let parts = append-eq-nil _ _ (rw (step_problems, e) at h) in
        let tests = append-eq-nil _ _ parts.0 in
        rw (chosen_step, e)
          (record {
            rings = kept_test _ _ tests.0;
            has_target = failed_test _ _ tests.1;
            ring = RingFits-step i step parts.1;
          })

All-StepFits :
    (i : ℕ) (vs : List Value) → steps_problems i vs ≡ [] → All StepFits (map chosen_step vs)
unfolding steps_problems
All-StepFits i [] h = tt
All-StepFits i (v ∷ vs) h =
    let parts = append-eq-nil (step_problems i v) (steps_problems (suc i) vs) h in
    (StepFits-chosen_step i v parts.0, All-StepFits (suc i) vs parts.1)

length-map : {A B : Type 0} (f : A → B) (xs : List A) → length (map f xs) ≡ length xs
length-map f [] = refl
length-map f (x ∷ xs) = ap suc (length-map f xs)

abbrev FewFit : List Step → Type 0
FewFit steps = (length steps ≤ 2) × All StepFits steps

FewFit-then : (v : Value) → then_problems v ≡ [] → FewFit (map chosen_step (list_of v))
unfolding then_problems list_of
FewFit-then null h = (omega arith, tt)
FewFit-then (list nil) h = cc h
FewFit-then (list (cons v vs)) h =
    elim (Bool-cases (leb (length (elements (cons v vs))) then_max)) [
      | inl q ↦ (
        omega (arith, length-map chosen_step (elements (cons v vs)), leb→le _ _ q),
        All-StepFits 1 (elements (cons v vs)) (rw q at h),
      )
      | inr q ↦ cc (rw q at h)
    ]
FewFit-then (bool b) h = cc h
FewFit-then (int s n) h = cc h
FewFit-then (float t) h = cc h
FewFit-then (str t) h = cc h
FewFit-then (dict fs) h = cc h

FewFit-usable : (kind : String) (v : Value) → FewFit (usable_steps kind v)
unfolding usable_steps
FewFit-usable kind v = elim (Bool-cases (contains kind ring_kinds)) [
  | inl q ↦ rw q (go (then_problems v) refl)
  | inr q ↦ rw q (omega arith, tt)
]
  where
    go :
        (ps : List TransferProblem)
        → then_problems v ≡ ps
        → FewFit (elim (then_problems v) as (λ _. List Step) [
          | [] ↦ map chosen_step (list_of v)
          | _ ∷ _ ↦ []
        ])
    go [] e = rw e (FewFit-then v e)
    go (p ∷ ps) e = rw e (omega arith, tt)

FewFit-chosen_from : (name : String) (entry : Dict) → FewFit (chosen_from name entry).follow_ups
unfolding chosen_from
FewFit-chosen_from name entry = FewFit-usable (kind_of entry) (get "then" entry)

-- A chosen destination is followed by at most two more numbers, each of a kind that rings, with a
-- target, and with a ring time within the bounds where it has one.
pub follow_ups_StepFits :
    (targets : Dict) (name : String) (d : Destination)
    → resolve_transfer_target (some targets) name ≡ some d
    → (length d.follow_ups ≤ 2) × All StepFits d.follow_ups
follow_ups_StepFits targets name d h =
    let (entry, e) = transfer_chosen targets name d h in
    subst (λ x. FewFit x.follow_ups) e (FewFit-chosen_from name entry)
