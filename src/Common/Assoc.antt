-- ===== src/Common/Assoc.antt =====
-- Dicts whose keys are texts, as their items in insertion order: `d.get`, `d[k] = v`, `d.pop(k, None)`.
use owen_main.Common.Tests.{if◌then◌else◌}
use owen_main.Common.Texts.{str_eq, eq_iff, contains}
use Prim.Native.String.{String}
use mathlib.Core.Path.{◌≡◌, refl, ◌∙◌}
use mathlib.Core.Bool.{true, false}
use mathlib.Core.Option.{Option, none, some}
use mathlib.Core.List.{List, [], ◌∷◌}
use native.Mathlib.Omega.{arith}

module _ {A : Type 0} where
  unfoldable pub lookup : String → List (String × A) → Option A
  lookup k [] = none
  lookup k ((j, a) ∷ d) = let rest = lookup k d in if str_eq j k then some a else rest

  -- A key that is there keeps its place.
  unfoldable pub insert : String → A → List (String × A) → List (String × A)
  insert k a [] = (k, a) ∷ []
  insert k a ((j, b) ∷ d) =
      let rest = insert k a d in if str_eq j k then (j, a) ∷ d else (j, b) ∷ rest

  unfoldable pub delete : String → List (String × A) → List (String × A)
  delete k [] = []
  delete k ((j, b) ∷ d) = let rest = delete k d in if str_eq j k then rest else (j, b) ∷ rest

  -- `for k in ks: d[k] = a`
  unfoldable pub insert_all : List String → A → List (String × A) → List (String × A)
  insert_all [] a d = d
  insert_all (k ∷ ks) a d = insert_all ks a (insert k a d)

  -- `for k in ks: d.pop(k, None)`
  unfoldable pub delete_all : List String → List (String × A) → List (String × A)
  delete_all [] d = d
  delete_all (k ∷ ks) d = delete_all ks (delete k d)

  pub lookup-insert :
      (k j : String) (a : A) (d : List (String × A))
      → lookup j (insert k a d) ≡ (if str_eq k j then some a else lookup j d)
  unfolding lookup insert
  lookup-insert k j a [] = refl
  lookup-insert k j a ((i, b) ∷ d) =
      ground (arith, lookup-insert k j a d, eq_iff k j, eq_iff i k, eq_iff i j)

  pub lookup-delete :
      (k j : String) (d : List (String × A))
      → lookup j (delete k d) ≡ (if str_eq k j then none else lookup j d)
  unfolding lookup delete
  lookup-delete k j [] = ground arith
  lookup-delete k j ((i, b) ∷ d) =
      ground (arith, lookup-delete k j d, eq_iff k j, eq_iff i k, eq_iff i j)

  pub lookup-insert_all :
      (ks : List String) (j : String) (a : A) (d : List (String × A))
      → lookup j (insert_all ks a d) ≡ (if contains j ks then some a else lookup j d)
  unfolding insert_all contains
  lookup-insert_all [] j a d = refl
  lookup-insert_all (k ∷ ks) j a d =
      ground (arith, lookup-insert_all ks j a (insert k a d), lookup-insert k j a d)

  pub lookup-delete_all :
      (ks : List String) (j : String) (d : List (String × A))
      → lookup j (delete_all ks d) ≡ (if contains j ks then none else lookup j d)
  unfolding delete_all contains
  lookup-delete_all [] j d = refl
  lookup-delete_all (k ∷ ks) j d =
      ground (arith, lookup-delete_all ks j (delete k d), lookup-delete k j d)

  pub lookup-insert_hit :
      (k j : String) (a : A) (d : List (String × A))
      → str_eq k j ≡ true
      → lookup j (insert k a d) ≡ some a
  lookup-insert_hit k j a d h = lookup-insert k j a d ∙ rw h refl

  pub lookup-insert_miss :
      (k j : String) (a : A) (d : List (String × A))
      → str_eq k j ≡ false
      → lookup j (insert k a d) ≡ lookup j d
  lookup-insert_miss k j a d h = lookup-insert k j a d ∙ rw h refl

  pub lookup-delete_hit :
      (k j : String) (d : List (String × A)) → str_eq k j ≡ true → lookup j (delete k d) ≡ none
  lookup-delete_hit k j d h = lookup-delete k j d ∙ rw h refl

  pub lookup-delete_miss :
      (k j : String) (d : List (String × A))
      → str_eq k j ≡ false
      → lookup j (delete k d) ≡ lookup j d
  lookup-delete_miss k j d h = lookup-delete k j d ∙ rw h refl
