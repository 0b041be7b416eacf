-- ===== src/Common/Raising.antt =====
-- Python exceptions as values: `ok` is a return, `raise` an exception that leaves the function.
use mathlib.Core.Path.{◌≡◌, refl, ap}
use owen_main.Common.Lists.{All}
use mathlib.Core.List.{List, [], ◌∷◌, ◌++◌}

-- The kinds that the code can raise or that a collaborator can raise into it.
pub data Exc : Type 0 where
  type_error value_error key_error external : Exc

pub data Result {ℓ} (A : Type ℓ) : Type ℓ where
  ok : A → Result A
  raise : Exc → Result A

infixl 5 ◌>>=◌ ◌>>◌
abbrev pub ◌>>=◌ {ℓ κ} : {A : Type ℓ} {B : Type κ} → Result A → (A → Result B) → Result B
ok a >>= f = f a
raise e >>= f = raise e

abbrev pub ◌>>◌ {ℓ κ} : {A : Type ℓ} {B : Type κ} → Result A → Result B → Result B
m >> k = m >>= λ _. k

-- A block that returns has returned from its first step.
pub bind-ok_inv {ℓ κ} :
    {A : Type ℓ} {B : Type κ} (r : Result A) (k : A → Result B) (b : B)
    → (r >>= k) ≡ ok b
    → (a : A) × (r ≡ ok a) × (k a ≡ ok b)
bind-ok_inv (ok a) k b h = (a, refl, h)
bind-ok_inv (raise e) k b h = cc h

-- A `for` loop whose body returns what it appends to a list.
pub collect {ℓ κ} : {A : Type ℓ} {B : Type κ} → (A → Result (List B)) → List A → Result (List B)
collect f [] = ok []
collect f (x ∷ xs) = do here ← f x; rest ← collect f xs; ok (here ++ rest)

pub ok_inj {ℓ} : {A : Type ℓ} {a b : A} → ok a ≡ ok b → a ≡ b
ok_inj h = cc

pub append-eq-nil {ℓ} : {A : Type ℓ} (xs ys : List A) → (xs ++ ys) ≡ [] → (xs ≡ []) × (ys ≡ [])
append-eq-nil [] ys h = (refl, h)
append-eq-nil (x ∷ xs) ys h = cc

-- Two parts of a list are both empty where the whole is, and neither raised.
pub both_nil {ℓ} :
    {A : Type ℓ} (r s : Result (List A))
    → (r >>= λ xs. s >>= λ ys. ok (xs ++ ys)) ≡ ok []
    → (r ≡ ok []) × (s ≡ ok [])
both_nil (ok xs) (ok ys) h =
    let parts = append-eq-nil xs ys (ok_inj h) in (ap ok parts.0, ap ok parts.1)
both_nil (ok xs) (raise e) h = cc
both_nil (raise e) s h = cc

module _ {ℓ κ} {A : Type ℓ} {B : Type κ} (f : A → Result (List B)) where
  -- The loop collects nothing exactly when every round appends nothing and none raises.
  pub collect-nil : (xs : List A) → collect f xs ≡ ok [] → All (λ x. f x ≡ ok []) xs
  unfolding collect
  collect-nil [] h = tt
  collect-nil (x ∷ xs) h =
      let parts = both_nil (f x) (collect f xs) h in (parts.0, collect-nil xs parts.1)

  pub nil-collect : (xs : List A) → All (λ x. f x ≡ ok []) xs → collect f xs ≡ ok []
  unfolding collect
  nil-collect [] h = refl
  nil-collect (x ∷ xs) h = rw (h.0, nil-collect xs h.1)
