-- ===== src/Flows/Variables/Enough.antt =====
-- The fuel of the substitution is enough, and texts without braces are left as they are.
use Prim.Native.Char.{Char, code}
use owen_main.Common.{
  ℕ, zero, suc, ◌≤◌, ◌<◌, List, [], ◌∷◌, ◌++◌, ◌≡◌, refl, ap, Option, none, some, length, arith,
  ◌==◌, Bool-cases, inl, inr,
}
use mathlib.Core.Option.{some_inj}
use owen_main.Common.Json.{Dict}
use owen_main.Common.Chars.{codes, text_of}
use owen_main.Flows.Variables.{resolve_var}
use owen_main.Flows.Variables.Template.{
  is_brace, take_run, after_close, template_at, template_rest, value_text, substitute,
}

length-after_close : (cs rest : List Char) → after_close cs ≡ some rest → length rest < length cs
unfolding after_close
length-after_close [] rest h = cc h
length-after_close (c ∷ []) rest h = cc h
length-after_close (c ∷ d ∷ cs) rest h = elim (Bool-cases (code c == 125)) [
  | inl p ↦ elim (Bool-cases (code d == 125)) [
    | inl q ↦ omega (arith, ap length (some_inj.0 (rw (p, q) at h)))
    | inr q ↦ cc (rw (p, q) at h)
  ]
  | inr p ↦ cc (rw p at h)
]

length-take_run : (cs : List Char) → length (take_run cs).1 ≤ length cs
unfolding take_run
length-take_run [] = omega arith
length-take_run (c ∷ cs) = elim (Bool-cases (is_brace c)) [
  | inl q ↦ rw q (omega arith)
  | inr q ↦ rw q (omega (arith, length-take_run cs))
]

template_rest-rest :
    (o : Option (List Char)) (r : Option (List Char)) (found : List Char × List Char)
    → template_rest o r ≡ some found
    → r ≡ some found.1
unfolding template_rest
template_rest-rest (some n) (some r) found h = ap some (ap (λ x. x.1) (some_inj.0 h))
template_rest-rest none r found h = cc h
template_rest-rest (some n) none found h = cc h

-- A match takes characters.
length-template_at :
    (cs : List Char) (found : List Char × List Char)
    → template_at cs ≡ some found
    → length found.1 < length cs
unfolding template_at
length-template_at [] found h = cc h
length-template_at (c ∷ []) found h = cc h
length-template_at (c ∷ d ∷ cs) found h = elim (Bool-cases (code c == 123)) [
  | inl p ↦ elim (Bool-cases (code d == 123)) [
    | inl q ↦ omega (
      arith,
      length-take_run cs,
      length-after_close (take_run cs).1 found.1 (template_rest-rest _ _ found (rw (p, q) at h)),
    )
    | inr q ↦ cc (rw (p, q) at h)
  ]
  | inr p ↦ cc (rw p at h)
]

-- Any two amounts of fuel that are at least the number of characters give the same text.
pub substitute_enough :
    (f g : ℕ) (vars : Dict) (cs : List Char)
    → length cs ≤ f
    → length cs ≤ g
    → substitute f vars cs ≡ substitute g vars cs
unfolding substitute
substitute_enough zero zero vars [] h k = refl
substitute_enough zero (suc g) vars [] h k = refl
substitute_enough (suc f) zero vars [] h k = refl
substitute_enough (suc f) (suc g) vars [] h k = refl
substitute_enough zero g vars (c ∷ cs) h k = absurd (omega (arith, h))
substitute_enough (suc f) zero vars (c ∷ cs) h k = absurd (omega (arith, k))
substitute_enough (suc f) (suc g) vars (c ∷ cs) h k =
    go (template_at (c ∷ cs)) refl (λ rest. substitute_enough f g vars rest)
  where
    go :
        (o : Option (List Char × List Char))
        → template_at (c ∷ cs) ≡ o
        → ((rest : List Char)
            → length rest ≤ f
            → length rest ≤ g
            → substitute f vars rest ≡ substitute g vars rest)
        → substitute (suc f) vars (c ∷ cs) ≡ substitute (suc g) vars (c ∷ cs)
    go none e same =
        rw (substitute, e) (ap (λ x. c ∷ x) (same cs (omega (arith, h)) (omega (arith, k))))
    go (some p) e same =
        let l = length-template_at (c ∷ cs) p e in
        rw (substitute, e)
          (ap (λ x. codes (value_text (resolve_var vars (text_of p.0))) ++ x)
            (same p.1 (omega (arith, h, l)) (omega (arith, k, l))))
