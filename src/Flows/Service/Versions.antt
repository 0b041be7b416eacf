-- ===== src/Flows/Service/Versions.antt =====
-- A new version never takes a number that is in use, and a clone copies a version of the flow.
use owen_main.Common.{
  ℕ, ◌≤◌, ◌<◌, List, [], ◌∷◌, ◌≡◌, inl, inr, true, Option, none, some, ltb, All, All-imp,
  Bool-cases, arith,
}
use mathlib.Core.Path.{subst}
use mathlib.Core.Option.{some_inj}
use owen_main.Flows.Service.{
  highest, next_version_number, has_version, latest, latest_id, pick_clone_source,
}

highest_bounds : (n : ℕ) (ns : List ℕ) → All (λ m. m ≤ highest n ns) (n ∷ ns)
unfolding highest
highest_bounds n [] = (omega arith, tt)
highest_bounds n (m ∷ ns) =
    (omega arith, All-imp (λ k h. omega (arith, h)) (m ∷ ns) (highest_bounds m ns))

-- The next version number is above every number that exists.
pub next_version_number_above : (ns : List ℕ) → All (λ m. m < next_version_number ns) ns
unfolding next_version_number
next_version_number_above [] = tt
next_version_number_above (n ∷ ns) =
    All-imp (λ k h. omega (arith, h)) (n ∷ ns) (highest_bounds n ns)

has-head : (v : ℕ × ℕ) (vs : List (ℕ × ℕ)) → has_version v.0 (v ∷ vs) ≡ true
unfolding has_version
has-head v vs = ground arith

has-tail :
    (id : ℕ) (v : ℕ × ℕ) (vs : List (ℕ × ℕ))
    → has_version id vs ≡ true
    → has_version id (v ∷ vs) ≡ true
unfolding has_version
has-tail id v vs h = ground arith

has-second :
    (id : ℕ) (v u : ℕ × ℕ) (vs : List (ℕ × ℕ))
    → has_version id (v ∷ vs) ≡ true
    → has_version id (v ∷ u ∷ vs) ≡ true
unfolding has_version
has-second id v u vs h = ground arith

has-latest : (v : ℕ × ℕ) (vs : List (ℕ × ℕ)) → has_version (latest v vs).0 (v ∷ vs) ≡ true
unfolding latest
has-latest v [] = has-head v []
has-latest v (u ∷ us) = elim (Bool-cases (ltb v.1 u.1)) [
  | inl q ↦ rw q (has-tail (latest u us).0 v (u ∷ us) (has-latest u us))
  | inr q ↦ rw q (has-second (latest v us).0 v u us (has-latest v us))
]

has-latest_id :
    (versions : List (ℕ × ℕ)) (id : ℕ)
    → latest_id versions ≡ some id
    → has_version id versions ≡ true
unfolding latest_id
has-latest_id [] id h = cc h
has-latest_id (v ∷ vs) id h =
    subst (λ k. has_version k (v ∷ vs) ≡ true) (some_inj.0 h) (has-latest v vs)

-- A clone copies a version of the flow that is cloned, also where the active version that the flow
-- names is not among its versions.
pub clone_source_exists :
    (active : Option ℕ) (versions : List (ℕ × ℕ)) (id : ℕ)
    → pick_clone_source active versions ≡ some id
    → has_version id versions ≡ true
unfolding pick_clone_source
clone_source_exists none versions id h = has-latest_id versions id h
clone_source_exists (some active) versions id h = elim (Bool-cases (has_version active versions)) [
  | inl q ↦ subst (λ k. has_version k versions ≡ true) (some_inj.0 (rw q at h)) q
  | inr q ↦ has-latest_id versions id (rw q at h)
]
