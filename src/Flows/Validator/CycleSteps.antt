-- ===== src/Flows/Validator/CycleSteps.antt =====
-- The equations of the depth-first search, one for each branch, and what it does to the colours.
use owen_main.Common.{
  ℕ, zero, suc, String, List, [], ◌∷◌, ◌++◌, ◌≡◌, refl, ap, ◌⊎◌, inl, inr, none, some, str_eq,
  Option-cases, arith, false,
}
use owen_main.Common.Json.{Dict}
use owen_main.Flows.Validator.Warnings.{successors}
use owen_main.Flows.Validator.Cycles.{
  Color, white, grey, black, Colors, color_of, paint, from_first, Visit, visit_targets, visit,
  search_from,
}

pub data ColorCase (c : Color) : Type 0 where
  is_white : c ≡ white → ColorCase c
  is_grey : c ≡ grey → ColorCase c
  is_black : c ≡ black → ColorCase c

pub Color-cases : (c : Color) → ColorCase c
Color-cases white = is_white refl
Color-cases grey = is_grey refl
Color-cases black = is_black refl

module _ (v : Visit) (nid t : String) (ts : List String) (cs : Colors) (path : List String) where
  pub visit_targets_grey :
      color_of cs t ≡ grey
      → visit_targets v nid (t ∷ ts) cs path ≡ (cs, some (from_first t path ++ (t ∷ [])))
  unfolding visit_targets
  visit_targets_grey e = rw (e, visit_targets)

  pub visit_targets_black :
      color_of cs t ≡ black → visit_targets v nid (t ∷ ts) cs path ≡ visit_targets v nid ts cs path
  unfolding visit_targets
  visit_targets_black e = rw (e, visit_targets)

  pub visit_targets_found :
      {c : List String}
      → color_of cs t ≡ white
      → (v cs t path).1 ≡ some c
      → visit_targets v nid (t ∷ ts) cs path ≡ v cs t path
  unfolding visit_targets
  visit_targets_found e f = ground arith

  pub visit_targets_on :
      color_of cs t ≡ white
      → (v cs t path).1 ≡ none
      → visit_targets v nid (t ∷ ts) cs path ≡ visit_targets v nid ts (v cs t path).0 path
  unfolding visit_targets
  visit_targets_on e f = rw (e, f, visit_targets)

module _ (v : Visit) (nid : String) (nids : List String) (cs : Colors) where
  pub search_from_old :
      (color_of cs nid ≡ grey) ⊎ (color_of cs nid ≡ black)
      → search_from v (nid ∷ nids) cs ≡ search_from v nids cs
  unfolding search_from
  search_from_old (inl e) = rw (e, search_from)
  search_from_old (inr e) = rw (e, search_from)

  pub search_from_found :
      {c : List String}
      → color_of cs nid ≡ white
      → (v cs nid []).1 ≡ some c
      → search_from v (nid ∷ nids) cs ≡ some c
  unfolding search_from
  search_from_found e f = rw (e, f, search_from)

  pub search_from_on :
      color_of cs nid ≡ white
      → (v cs nid []).1 ≡ none
      → search_from v (nid ∷ nids) cs ≡ search_from v nids (v cs nid []).0
  unfolding search_from
  search_from_on e f = rw (e, f, search_from)

-- A visit that finds no cycle leaves no node grey that was not grey before.
abbrev pub KeepsGrey : Visit → Type 0
KeepsGrey v =
    (cs : Colors) (nid : String) (path : List String)
    → (v cs nid path).1 ≡ none
    → (k : String) → color_of (v cs nid path).0 k ≡ grey
    → color_of cs k ≡ grey

grey_paint :
    (nid k : String) (cs : Colors)
    → color_of (paint nid black cs) k ≡ grey
    → (str_eq nid k ≡ false) × (color_of cs k ≡ grey)
unfolding color_of
grey_paint nid k cs h = ground arith

grey_unpaint :
    (nid k : String) (cs : Colors)
    → str_eq nid k ≡ false
    → color_of (paint nid grey cs) k ≡ grey
    → color_of cs k ≡ grey
unfolding color_of
grey_unpaint nid k cs e h = ground arith

visit_targets_grey_kept :
    (v : Visit)
    → KeepsGrey v
    → (nid : String) (ts : List String) (cs : Colors) (path : List String)
    → (visit_targets v nid ts cs path).1 ≡ none
    → (k : String) → color_of (visit_targets v nid ts cs path).0 k ≡ grey
    → (str_eq nid k ≡ false) × (color_of cs k ≡ grey)
visit_targets_grey_kept v keep nid [] cs path h k g =
    grey_paint nid k cs (unfold visit_targets in g)
visit_targets_grey_kept v keep nid (t ∷ ts) cs path h k g = elim (Color-cases (color_of cs t)) [
  | is_grey e ↦ absurd (cc (ap (λ r. r.1) (visit_targets_grey v nid t ts cs path e)))
  | is_black e ↦
      let q = visit_targets_black v nid t ts cs path e in
      visit_targets_grey_kept v keep nid ts cs path (rw q at h) k (rw q at g)
  | is_white e ↦ elim (Option-cases (v cs t path).1) [
    | inr (c, f) ↦ absurd (cc (f, ap (λ r. r.1) (visit_targets_found v nid t ts cs path e f)))
    | inl f ↦
        let q = visit_targets_on v nid t ts cs path e f in
        let rest =
          visit_targets_grey_kept v keep nid ts (v cs t path).0 path (rw q at h) k (rw q at g) in
        (rest.0, keep cs t path f k rest.1)
  ]
]

pub visit-KeepsGrey : (f : ℕ) (nodes : Dict) → KeepsGrey (visit f nodes)
unfolding visit
visit-KeepsGrey zero nodes cs nid path h k g = g
visit-KeepsGrey (suc f) nodes cs nid path h k g =
    let r =
      visit_targets_grey_kept (visit f nodes) (visit-KeepsGrey f nodes) nid (successors nodes nid)
        (paint nid grey cs) (path ++ (nid ∷ [])) h k g in
    grey_unpaint nid k cs r.0 r.1
