-- ===== src/Common/Texts.antt =====
-- Texts as keys: tests, membership in a list of texts, and Python's `sorted`.
use Prim.Native.String.{String, compare}
use mathlib.Core.Path.{◌≡◌, refl}
use mathlib.Core.Logic.{◌⊎◌}
use mathlib.Core.Bool.{Bool, true, false, ◌||◌}
use mathlib.Core.List.{List, [], ◌∷◌, ◌++◌}
use native.Mathlib.Omega.{arith}
pub use text.Mathlib.Text.{◌==◌ as str_eq}
use text.Mathlib.Text.{is_le}
pub use text.Mathlib.TextEquality.{eq_iff}
pub use text.Mathlib.TextPositions.{eq_refl}
use owen_main.Common.Tests.{if◌then◌else◌}

-- `k in keys`
unfoldable pub contains : String → List String → Bool
contains k [] = false
contains k (j ∷ js) = str_eq j k || contains k js

insert_sorted : String → List String → List String
insert_sorted s [] = s ∷ []
insert_sorted s (t ∷ ts) = if is_le (compare s t) then s ∷ t ∷ ts else t ∷ insert_sorted s ts

-- Python compares texts by code point, which is the order of their UTF-8 bytes.
unfoldable pub sorted : List String → List String
unfolding insert_sorted
sorted [] = []
sorted (s ∷ ss) = insert_sorted s (sorted ss)

contains-insert_sorted :
    (k s : String) (l : List String) → contains k (insert_sorted s l) ≡ (str_eq s k || contains k l)
unfolding contains insert_sorted
contains-insert_sorted k s [] = refl
contains-insert_sorted k s (t ∷ ts) = ground (arith, contains-insert_sorted k s ts)

-- Sorting changes no membership.
pub contains-sorted : (k : String) (l : List String) → contains k (sorted l) ≡ contains k l
unfolding contains sorted
contains-sorted k [] = refl
contains-sorted k (s ∷ ss) =
    ground (arith, contains-insert_sorted k s (sorted ss), contains-sorted k ss)

pub contains-append :
    (k : String) (xs ys : List String) → contains k (xs ++ ys) ≡ (contains k xs || contains k ys)
unfolding contains
contains-append k [] ys = refl
contains-append k (x ∷ xs) ys = ground (arith, contains-append k xs ys)

pub contains-head : (k : String) (l : List String) → contains k (k ∷ l) ≡ true
unfolding contains
contains-head k l = ground (arith, eq_refl k)

-- The same membership, as a statement.
abbrev pub In : String → List String → Type 0
In k l = contains k l ≡ true

pub In-cons : (k j : String) (l : List String) → In k (j ∷ l) → (j ≡ k) ⊎ In k l
unfolding contains
In-cons k j l h = ground (arith, eq_iff j k)

pub In-tail : (k j : String) (l : List String) → In k l → In k (j ∷ l)
unfolding contains
In-tail k j l h = ground arith
