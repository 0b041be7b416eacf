-- ===== src/Services/Inbox/Reopening.antt =====
-- A contact who was closed or deleted comes back with the next activity; a block stays.
use mathlib.Core.Path.{subst}
use owen_main.Common.{
  ℕ, ◌<◌, ◌≡◌, refl, sym, ap, ◌∙◌, ◌⊎◌, inl, inr, String, List, [], ◌∷◌, Bool, true, false, ◌&&◌,
  not, Option, none, some, is_some, str_eq, eq_iff, Bool-cases, arith, if◌then◌else◌,
}
use owen_main.Common.Assoc.{lookup, insert}
use owen_main.Services.Inbox.{
  ContactThread, Row, ThreadStates, state_of, newer, after, overtakes, bump, Merge, or_new,
  thread_or_new, counted_message, counted_call, call_preview, see_message, see_call, see_messages,
  see_calls, finish, merged,
}
use owen_main.Services.Inbox.Counts.{hits, thread-insert, lookup-finish_all}

-- An activity of the contact at a time.
abbrev pub Had : String → ℕ → List Row → Type 0
Had cid a [] = ⊥
Had cid a (r ∷ rs) = ((hits cid r.caller ≡ true) × (r.at ≡ some a)) ⊎ Had cid a rs

newer_irrefl : (a : Option ℕ) → newer a a ≡ false
unfolding newer
newer_irrefl none = refl
newer_irrefl (some a) = ground arith

newer_trans : (a b c : Option ℕ) → newer a b ≡ false → newer c b ≡ true → newer a c ≡ false
unfolding newer
newer_trans none b c h k = refl
newer_trans (some a) b none h k = cc k
newer_trans (some a) none (some c) h k = cc h
newer_trans (some a) (some b) (some c) h k = ground (arith, h, k)

bump-covers :
    (r : Row) (kind preview : String) (t : ContactThread)
    → newer r.at (bump r kind preview t).last_at ≡ false
unfolding bump
bump-covers r kind preview t = elim (Bool-cases (newer r.at t.last_at)) [
  | inl q ↦ rw (q, bump) (newer_irrefl r.at)
  | inr q ↦ rw (q, bump) q
]

bump-keeps :
    (a : Option ℕ) (r : Row) (kind preview : String) (t : ContactThread)
    → newer a t.last_at ≡ false
    → newer a (bump r kind preview t).last_at ≡ false
unfolding bump
bump-keeps a r kind preview t h = elim (Bool-cases (newer r.at t.last_at)) [
  | inl q ↦ rw (q, bump) (newer_trans a t.last_at r.at h q)
  | inr q ↦ rw (q, bump) h
]

-- No activity at `a` is newer than the thread of the contact.
abbrev Covers : Option ℕ → String → List (String × ContactThread) → Type 0
Covers a cid ts = newer a (thread_or_new cid ts).last_at ≡ false

Covers-insert :
    (a : Option ℕ) (c cid : String) (t : ContactThread) (ts : List (String × ContactThread))
    → (c ≡ cid → newer a t.last_at ≡ false)
    → (str_eq c cid ≡ false → Covers a cid ts)
    → Covers a cid (insert c t ts)
Covers-insert a c cid t ts h k =
    subst (λ x. newer a x.last_at ≡ false) (sym (thread-insert c cid t ts))
      (go (str_eq c cid) (λ q. h ((eq_iff c cid).0 q)) k)
  where
    go :
        (b : Bool)
        → (b ≡ true → newer a t.last_at ≡ false)
        → (b ≡ false → Covers a cid ts)
        → newer a (if b then t else thread_or_new cid ts).last_at ≡ false
    go true here there = here refl
    go false here there = there refl

module _ (lower : String → String) (states : ThreadStates) (a : Option ℕ) (cid : String) where
  see_message-keeps :
      (o : Option String) (r : Row) (m : Merge)
      → Covers a cid m.threads
      → Covers a cid (see_message lower states o r m).threads
  unfolding see_message counted_message
  see_message-keeps none r m h = h
  see_message-keeps (some c) r m h =
      let t = thread_or_new c m.threads in
      Covers-insert a c cid (counted_message lower states c r t) m.threads
        (λ e.
          bump-keeps a r "message" (elim r.text [ none ↦ "" | some b ↦ b ]) t
            (subst (λ d. Covers a d m.threads) (sym e) h))
        (λ q. h)

  see_call-keeps :
      (o : Option String) (r : Row) (m : Merge)
      → Covers a cid m.threads
      → Covers a cid (see_call lower states o r m).threads
  unfolding see_call counted_call
  see_call-keeps none r m h = h
  see_call-keeps (some c) r m h =
      let t = thread_or_new c m.threads in
      Covers-insert a c cid (counted_call lower states c r t) m.threads
        (λ e.
          bump-keeps a r "call" (call_preview lower r.way r.text) t
            (subst (λ d. Covers a d m.threads) (sym e) h))
        (λ q. h)

  see_message-Covers :
      (o : Option String) (r : Row) (m : Merge)
      → hits cid o ≡ true
      → r.at ≡ a
      → Covers a cid (see_message lower states o r m).threads
  unfolding see_message counted_message
  see_message-Covers none r m h e = cc h
  see_message-Covers (some c) r m h e =
      let t = thread_or_new c m.threads in
      Covers-insert a c cid (counted_message lower states c r t) m.threads
        (λ q. rw (← e) (bump-covers r "message" (elim r.text [ none ↦ "" | some b ↦ b ]) t))
        (λ q. cc (h, q))

  see_call-Covers :
      (o : Option String) (r : Row) (m : Merge)
      → hits cid o ≡ true
      → r.at ≡ a
      → Covers a cid (see_call lower states o r m).threads
  unfolding see_call counted_call
  see_call-Covers none r m h e = cc h
  see_call-Covers (some c) r m h e =
      let t = thread_or_new c m.threads in
      Covers-insert a c cid (counted_call lower states c r t) m.threads
        (λ q. rw (← e) (bump-covers r "call" (call_preview lower r.way r.text) t)) (λ q. cc (h, q))

  see_messages-keeps :
      (rs : List Row) (m : Merge)
      → Covers a cid m.threads
      → Covers a cid (see_messages lower states rs m).threads
  unfolding see_messages
  see_messages-keeps [] m h = h
  see_messages-keeps (r ∷ rs) m h = see_messages-keeps rs _ (see_message-keeps r.caller r m h)

  see_calls-keeps :
      (rs : List Row) (m : Merge)
      → Covers a cid m.threads
      → Covers a cid (see_calls lower states rs m).threads
  unfolding see_calls
  see_calls-keeps [] m h = h
  see_calls-keeps (r ∷ rs) m h = see_calls-keeps rs _ (see_call-keeps r.caller r m h)

module _ (lower : String → String) (states : ThreadStates) (a : ℕ) (cid : String) where
  see_messages-Covers :
      (rs : List Row) (m : Merge)
      → Had cid a rs
      → Covers (some a) cid (see_messages lower states rs m).threads
  unfolding see_messages
  see_messages-Covers [] m h = absurd h
  see_messages-Covers (r ∷ rs) m (inl h) =
      see_messages-keeps lower states (some a) cid rs _
        (see_message-Covers lower states (some a) cid r.caller r m h.0 h.1)
  see_messages-Covers (r ∷ rs) m (inr h) = see_messages-Covers rs _ h

  see_calls-Covers :
      (rs : List Row) (m : Merge)
      → Had cid a rs
      → Covers (some a) cid (see_calls lower states rs m).threads
  unfolding see_calls
  see_calls-Covers [] m h = absurd h
  see_calls-Covers (r ∷ rs) m (inl h) =
      see_calls-keeps lower states (some a) cid rs _
        (see_call-Covers lower states (some a) cid r.caller r m h.0 h.1)
  see_calls-Covers (r ∷ rs) m (inr h) = see_calls-Covers rs _ h

newer_overtakes :
    (a z : ℕ) (last : Option ℕ) → newer (some a) last ≡ false → z < a → newer last (some z) ≡ true
unfolding newer
newer_overtakes a z none h k = cc h
newer_overtakes a z (some b) h k = ground (arith, h)

-- A message or a call of the contact at a time after the thread was closed leaves it open, and one after it was
-- deleted leaves it not deleted; a block stays whatever comes.
pub merged_reopens :
    (lower : String → String) (states : ThreadStates) (message_rows call_rows : List Row)
    (cid : String) (t : ContactThread) (a z : ℕ)
    → lookup cid (merged lower states message_rows call_rows) ≡ some t
    → Had cid a message_rows ⊎ Had cid a call_rows
    → z < a
    → ((state_of states cid).closed_at ≡ some z → t.open_now ≡ true)
      × ((state_of states cid).deleted_at ≡ some z → t.deleted ≡ false)
      × (t.blocked ≡ is_some (state_of states cid).blocked_at)
unfolding merged finish or_new thread_or_new after overtakes
merged_reopens lower states message_rows call_rows cid t a z h had k =
    let start : Merge = record { threads = []; newest_msg = [] } in
    let first = see_messages lower states message_rows start in
    let m = see_calls lower states call_rows first in
    let (u, q, e) = lookup-finish_all lower states cid m m.threads t h in
    let covers = seen had in
    let late =
      newer_overtakes a z u.last_at
        (subst (λ o. newer (some a) (or_new cid o).last_at ≡ false) q covers) k in
    subst
      (λ x.
        ((state_of states cid).closed_at ≡ some z → x.open_now ≡ true)
        × ((state_of states cid).deleted_at ≡ some z → x.deleted ≡ false)
        × (x.blocked ≡ is_some (state_of states cid).blocked_at))
      (sym e)
      (
        λ c. ap (λ o. after u.last_at o) c ∙ late,
        λ d. ap (λ o. is_some o && not (overtakes u.last_at o)) d ∙ ap not late,
        refl,
      )
  where
    seen :
        Had cid a message_rows ⊎ Had cid a call_rows
        → Covers
            (some a)
            cid
            (see_calls lower states call_rows (
              see_messages lower states message_rows
                (record { threads = []; newest_msg = [] }))).threads
    seen (inl x) =
        see_calls-keeps lower states (some a) cid call_rows _
          (see_messages-Covers lower states a cid message_rows _ x)
    seen (inr x) = see_calls-Covers lower states a cid call_rows _ x
