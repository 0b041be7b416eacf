-- ===== src/Services/Ingestion/Forwarding.antt =====
-- The row of a call, after an event of the call and after an event of another one.
use owen_main.Common.{
  ℕ, String, List, [], ◌∷◌, ◌++◌, ◌≡◌, refl, sym, ap, ◌∙◌, inl, inr, Bool, true, false, Option,
  none, some, eq_iff, Bool-cases, arith, if◌then◌else◌,
}
use mathlib.Core.Option.{some_inj}
use owen_main.Services.Ingestion.{NormalizedCallEvent, Call}
use owen_main.Services.Ingestion.Write.{
  Finding, same_call, find_call, insert_call, new_row, update_calls, of_event,
}

-- What an update does to the row of a call, if there is one.
abbrev pub on_row : (Call → Call) → Option Call → Option Call
on_row g none = none
on_row g (some c) = some (g c)

pub find-same :
    (p : ℕ) (s : String) (cs : List Call) (c : Call)
    → find_call p s cs ≡ some c
    → same_call p s c ≡ true
unfolding find_call
find-same p s [] c h = cc h
find-same p s (d ∷ cs) c h = elim (Bool-cases (same_call p s d)) [
  | inl e ↦ ap (same_call p s) (sym (some_inj.0 (rw e at h))) ∙ e
  | inr e ↦ find-same p s cs c (rw e at h)
]

pub find-update :
    (p : ℕ) (s : String) (w : Call → Bool) (g : Call → Call) (cs : List Call)
    → ((c : Call) → same_call p s (g c) ≡ same_call p s c)
    → find_call p s (update_calls w g cs) ≡ on_row (λ c. if w c then g c else c) (find_call p s cs)
unfolding find_call update_calls
find-update p s w g [] k = refl
find-update p s w g (c ∷ cs) k = elim (Bool-cases (w c)) [
  | inl a ↦ rw a (elim (Bool-cases (same_call p s c)) [
    | inl e ↦ rw (k c, e) (rw a refl)
    | inr e ↦ rw (k c, e) (find-update p s w g cs k)
  ])
  | inr a ↦ rw a (elim (Bool-cases (same_call p s c)) [
    | inl e ↦ rw e (rw a refl)
    | inr e ↦ rw e (find-update p s w g cs k)
  ])
]

pub find-append :
    (p : ℕ) (s : String) (row : Call) (cs : List Call)
    → find_call p s (cs ++ (row ∷ [])) ≡ elim (find_call p s cs) [
      | none ↦ if same_call p s row then some row else none
      | some c ↦ some c
    ]
unfolding find_call
find-append p s row [] = refl
find-append p s row (c ∷ cs) = elim (Bool-cases (same_call p s c)) [
  | inl e ↦ rw e refl
  | inr e ↦ rw e (find-append p s row cs)
]

on_row-id : (o : Option Call) → on_row (λ c. c) o ≡ o
on_row-id none = refl
on_row-id (some c) = refl

-- A row is changed where the test holds.
abbrev pub set_if : (Call → Bool) → (Call → Call) → Call → Call
set_if w g c = if w c then g c else c

module _ (e : NormalizedCallEvent) (f : Finding) where
  pub find-own :
      (w : Call → Bool) (g : Call → Call) (cs : List Call)
      → ((c : Call) → same_call f.provider e.call_sid (g c) ≡ same_call f.provider e.call_sid c)
      → find_call f.provider e.call_sid (update_calls (of_event e f w) g cs)
        ≡ on_row (set_if w g) (find_call f.provider e.call_sid cs)
  find-own w g cs k =
      find-update f.provider e.call_sid (of_event e f w) g cs k
      ∙ go (find_call f.provider e.call_sid cs) (λ c. find-same f.provider e.call_sid cs c)
    where
      go :
          (o : Option Call)
          → ((c : Call) → o ≡ some c → same_call f.provider e.call_sid c ≡ true)
          → on_row (set_if (of_event e f w) g) o ≡ on_row (set_if w g) o
      go none h = refl
      go (some c) h = rw (h c refl) refl

  -- Another call: none of its rows is a row of the event.
  abbrev pub Apart : ℕ → String → Type 0
  Apart p s = (c : Call) → same_call p s c ≡ true → same_call f.provider e.call_sid c ≡ false

  pub find-other :
      (p : ℕ) (s : String) (w : Call → Bool) (g : Call → Call) (cs : List Call)
      → ((c : Call) → same_call p s (g c) ≡ same_call p s c)
      → Apart p s
      → find_call p s (update_calls (of_event e f w) g cs) ≡ find_call p s cs
  find-other p s w g cs k a =
      find-update p s (of_event e f w) g cs k ∙ go (find_call p s cs) (λ c. find-same p s cs c)
    where
      go :
          (o : Option Call)
          → ((c : Call) → o ≡ some c → same_call p s c ≡ true)
          → on_row (set_if (of_event e f w) g) o ≡ o
      go none h = refl
      go (some c) h = rw (a c (h c refl)) refl

  abbrev pub row_or_new : Option Call → Call
  row_or_new none = new_row e f
  row_or_new (some c) = c

  pub find-insert :
      (cs : List Call)
      → find_call f.provider e.call_sid (insert_call (new_row e f) cs)
        ≡ some (row_or_new (find_call f.provider e.call_sid cs))
  unfolding insert_call new_row same_call
  find-insert cs = go (find_call f.provider e.call_sid cs) refl
    where
      here : same_call f.provider e.call_sid (new_row e f) ≡ true
      here = ground (arith, eq_iff e.call_sid e.call_sid)

      go :
          (o : Option Call)
          → find_call f.provider e.call_sid cs ≡ o
          → find_call f.provider e.call_sid
              (elim o as (λ _. List Call) [ none ↦ cs ++ (new_row e f ∷ []) | some c ↦ cs ])
            ≡ some (row_or_new o)
      go none h = find-append f.provider e.call_sid (new_row e f) cs ∙ rw h (rw here refl)
      go (some c) h = h

  pub find-insert_other :
      (p : ℕ) (s : String) (cs : List Call)
      → Apart p s
      → find_call p s (insert_call (new_row e f) cs) ≡ find_call p s cs
  unfolding insert_call new_row same_call
  find-insert_other p s cs a = go (find_call f.provider e.call_sid cs)
    where
      here : same_call f.provider e.call_sid (new_row e f) ≡ true
      here = ground (arith, eq_iff e.call_sid e.call_sid)

      elsewhere : same_call p s (new_row e f) ≡ false
      elsewhere = elim (Bool-cases (same_call p s (new_row e f))) [
        | inl q ↦ cc (a (new_row e f) q, here)
        | inr q ↦ q
      ]

      kept :
          (o : Option Call)
          → elim o as (λ _. Option Call) [
            | none ↦ if same_call p s (new_row e f) then some (new_row e f) else none
            | some c ↦ some c
          ]
            ≡ o
      kept none = rw elsewhere refl
      kept (some c) = refl

      go :
          (o : Option Call)
          → find_call p s
              (elim o as (λ _. List Call) [ none ↦ cs ++ (new_row e f ∷ []) | some c ↦ cs ])
            ≡ find_call p s cs
      go none = find-append p s (new_row e f) cs ∙ kept (find_call p s cs)
      go (some c) = refl
