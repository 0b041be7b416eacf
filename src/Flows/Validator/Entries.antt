-- ===== src/Flows/Validator/Entries.antt =====
-- The entry check against the well-formedness of the entry.
use owen_main.Common.{
  String, List, [], ◌∷◌, ◌++◌, ◌≡◌, refl, ap, inl, inr, true, All, arith, Bool-cases, eq_iff,
}
use owen_main.Common.Json.{Value, str, Dict, get, is_text}
use owen_main.Flows.Validator.Errors.{node_items, entry_ids, entry_errors}
use owen_main.Flows.Validator.WellFormed.{IsEntry, OneEntry}

is_text→eq : (t : String) (v : Value) → is_text t v ≡ true → v ≡ str t
unfolding is_text
is_text→eq t (str s) h = ap str ((eq_iff s t).0 h)
is_text→eq t _ h = cc

eq→is_text : (t : String) (v : Value) → v ≡ str t → is_text t v ≡ true
unfolding is_text
eq→is_text t v e = rw e ((eq_iff t t).1 refl)

no_entries : (ns : Dict) → entry_ids ns ≡ [] → All (λ n. ¬ IsEntry n) ns
unfolding entry_ids
no_entries [] h = tt
no_entries ((nid, v) ∷ ns) h = (
  λ e. ground (arith, eq→is_text "entry" (get "type" (node_items v)) e),
  no_entries ns (ground arith),
)

entries_none : (ns : Dict) → All (λ n. ¬ IsEntry n) ns → entry_ids ns ≡ []
unfolding entry_ids
entries_none [] h = refl
entries_none ((nid, v) ∷ ns) h = elim (Bool-cases (is_text "entry" (get "type" (node_items v)))) [
  | inl e ↦ absurd (h.0 (is_text→eq "entry" _ e))
  | inr e ↦ rw e (entries_none ns h.1)
]

one_entry : (ns : Dict) (x : String) → entry_ids ns ≡ x ∷ [] → OneEntry ns
unfolding entry_ids
one_entry [] x h = cc
one_entry ((nid, v) ∷ ns) x h = elim (Bool-cases (is_text "entry" (get "type" (node_items v)))) [
  | inl e ↦ ([], (nid, v), ns, refl, is_text→eq "entry" _ e, tt, no_entries ns (ground arith))
  | inr e ↦
      let (before, entry, after, split, is, none_before, none_after) = one_entry ns x (rw e at h) in
      (
        (nid, v) ∷ before,
        entry,
        after,
        ap (λ t. (nid, v) ∷ t) split,
        is,
        (λ q. cc (e, eq→is_text "entry" _ q), none_before),
        none_after,
      )
]

entries_split :
    (before : Dict) (entry : String × Value) (after : Dict)
    → IsEntry entry
    → All (λ n. ¬ IsEntry n) before
    → All (λ n. ¬ IsEntry n) after
    → entry_ids (before ++ (entry ∷ after)) ≡ entry.0 ∷ []
unfolding entry_ids
entries_split [] (nid, v) after is none_before none_after =
    rw (eq→is_text "entry" (get "type" (node_items v)) is) (rw (entries_none after none_after))
entries_split ((n, w) ∷ before) entry after is none_before none_after =
    elim (Bool-cases (is_text "entry" (get "type" (node_items w)))) [
      | inl e ↦ absurd (none_before.0 (is_text→eq "entry" _ e))
      | inr e ↦ rw e (entries_split before entry after is none_before.1 none_after)
    ]

pub entry_ok : (ns : Dict) → entry_errors (entry_ids ns) ≡ [] → OneEntry ns
entry_ok ns h = go (entry_ids ns) refl h
  where
    go : (es : List String) → entry_ids ns ≡ es → entry_errors es ≡ [] → OneEntry ns
    go [] e h = absurd (unfold entry_errors in cc h)
    go (x ∷ []) e h = one_entry ns x e
    go (x ∷ y ∷ es) e h = absurd (unfold entry_errors in cc h)

pub entry_fits : (ns : Dict) → OneEntry ns → entry_errors (entry_ids ns) ≡ []
unfolding entry_errors
entry_fits ns (before, entry, after, split, is, none_before, none_after) =
    rw split (rw (entries_split before entry after is none_before none_after))
