-- ===== src/Flows/Service/Examples.antt =====
-- A flow with three versions, of which none is active.
use owen_main.Common.{ℕ, List, [], ◌∷◌, ◌≡◌, refl, some}
use owen_main.Flows.Service.{has_version, latest, latest_id, pick_clone_source}

abbrev saved : List (ℕ × ℕ)
saved = (10, 1) ∷ (30, 3) ∷ (20, 2) ∷ []

picks_latest : pick_clone_source (some 5) saved ≡ some 30
unfolding pick_clone_source has_version latest_id latest
picks_latest = refl
