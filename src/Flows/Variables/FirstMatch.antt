-- ===== src/Flows/Variables/FirstMatch.antt =====
-- The first row that matches is the one that is taken.
use owen_main.Common.{
  ℕ, suc, ◌+◌, String, List, [], ◌∷◌, ◌++◌, ◌≡◌, refl, Option, none, some, All, length, arith, ap,
  ◌∙◌,
}
use mathlib.Core.Option.{some_inj}
use owen_main.Common.Json.{Value, Dict}
use owen_main.Flows.Variables.Conditions.{Matching, row_hit, evaluate_conditions}

module _ (m : Matching) where
  -- The rows up to the one that matches, from row `i` on.
  pub record FirstHit (i : ℕ) (rows : List Value) (vars : Dict) (found : ℕ × String × String)
      : Type 0 where
    pub before : List Value
    pub row : Value
    pub after : List Value
    pub split : rows ≡ before ++ (row ∷ after)
    pub number : found.0 ≡ i + length before
    pub missed : All (λ r. row_hit m vars r ≡ none) before
    pub hit : row_hit m vars row ≡ some (found.1, found.2)

  FirstHit-later :
      (i : ℕ) (r : Value) (rows : List Value) (vars : Dict) (found : ℕ × String × String)
      → row_hit m vars r ≡ none
      → FirstHit (suc i) rows vars found
      → FirstHit i (r ∷ rows) vars found
  FirstHit-later i r rows vars found e h = record {
    before = r ∷ h.before;
    row = h.row;
    after = h.after;
    split = ap (λ x. r ∷ x) h.split;
    number = omega (arith, h.number);
    missed = (e, h.missed);
    hit = h.hit;
  }

  -- A row that is taken is the first one that matches: it matches with the port and the compared text
  -- that are returned, its number is the number of rows before it, and none of those matches.
  pub evaluate_conditions_first :
      (i : ℕ) (rows : List Value) (vars : Dict) (found : ℕ × String × String)
      → evaluate_conditions m i rows vars ≡ some found
      → FirstHit i rows vars found
  unfolding evaluate_conditions
  evaluate_conditions_first i [] vars found h = cc h
  evaluate_conditions_first i (r ∷ rows) vars found h =
      go (row_hit m vars r) refl (evaluate_conditions_first (suc i) rows vars found)
    where
      go :
          (o : Option (String × String))
          → row_hit m vars r ≡ o
          → (evaluate_conditions m (suc i) rows vars ≡ some found
              → FirstHit (suc i) rows vars found)
          → FirstHit i (r ∷ rows) vars found
      go none e later =
          FirstHit-later i r rows vars found e (later (rw (evaluate_conditions, e) at h))
      go (some p) e later =
          let q = some_inj.0 (rw (evaluate_conditions, e) at h) in
          record {
            before = [];
            row = r;
            after = rows;
            split = refl;
            number = omega (arith, ap (λ x. x.0) q);
            missed = tt;
            hit = e ∙ ap (λ x. some (x.1, x.2)) q;
          }
