-- ===== src/Services/Inbox/Counts.antt =====
-- The counts of a thread are those of the rows of its contact.
use mathlib.Core.Option.{some-injective}
use owen_main.Common.{
  ℕ, ◌+◌, ◌≡◌, refl, sym, ap, ◌∙◌, inl, inr, String, List, [], ◌∷◌, Bool, true, false, ◌&&◌, Option,
  none, some, str_eq, eq_iff, Bool-cases, arith, if◌then◌else◌,
}
use owen_main.Common.Assoc.{lookup, insert, lookup-insert}
use owen_main.Services.Inbox.{
  ContactThread, Row, ThreadStates, newer, bump, is_unread, one_if, Merge, or_new, thread_or_new,
  counted_message, counted_call, see_message, see_call, see_messages, see_calls, call_preview,
  finish, finish_all, merged,
}

-- Is the row of this contact?
abbrev pub hits : String → Option String → Bool
hits cid none = false
hits cid (some c) = str_eq c cid

abbrev pub count_rows : (Row → Bool) → List Row → ℕ
count_rows p [] = 0
count_rows p (r ∷ rs) = one_if (p r) + count_rows p rs

-- The counts of messages, calls and unread rows.
abbrev Tally : Type 0
Tally = ℕ × ℕ × ℕ

abbrev tally : ContactThread → Tally
tally t = (t.message_count, t.call_count, t.unread_count)

bump-tally :
    (r : Row) (kind preview : String) (t : ContactThread) → tally (bump r kind preview t) ≡ tally t
unfolding bump
bump-tally r kind preview t = elim (Bool-cases (newer r.at t.last_at)) [
  | inl q ↦ rw (q, bump) refl
  | inr q ↦ rw (q, bump) refl
]

or_new-if :
    (cid : String) (b : Bool) (t : ContactThread) (o : Option ContactThread)
    → or_new cid (if b then some t else o) ≡ (if b then t else or_new cid o)
unfolding or_new
or_new-if cid true t o = refl
or_new-if cid false t o = refl

pub thread-insert :
    (c cid : String) (t : ContactThread) (ts : List (String × ContactThread))
    → thread_or_new cid (insert c t ts) ≡ (if str_eq c cid then t else thread_or_new cid ts)
unfolding thread_or_new
thread-insert c cid t ts =
    ap (λ o. or_new cid o) (lookup-insert c cid t ts)
    ∙ or_new-if cid (str_eq c cid) t (lookup cid ts)

-- What a row of a contact adds.
abbrev plus : Tally → ℕ → ℕ → ℕ → Tally
plus a m c u = (a.0 + m, a.1 + c, a.2 + u)

plus-zero : (a : Tally) → a ≡ plus a 0 0 0
plus-zero (m, c, u) = ground arith

plus-plus :
    (a : Tally) (m c u m' c' u' : ℕ)
    → plus (plus a m c u) m' c' u' ≡ plus a (m + m') (c + c') (u + u')
plus-plus (x, y, z) m c u m' c' u' = ground arith

-- A row changes the tally of its contact only.
tally-if :
    (c cid : String) (t : ContactThread) (ts : List (String × ContactThread)) (m k : ℕ)
    (u : String → Bool)
    → tally t ≡ plus (tally (thread_or_new c ts)) m k (one_if (u c))
    → tally (thread_or_new cid (insert c t ts)) ≡ (
        if str_eq c cid
        then plus (tally (thread_or_new cid ts)) m k (one_if (u cid))
        else tally (thread_or_new cid ts))
tally-if c cid t ts m k u e =
    ap (λ x. tally x) (thread-insert c cid t ts) ∙ go (str_eq c cid) (λ q. (eq_iff c cid).0 q)
  where
    go :
        (b : Bool)
        → (b ≡ true → c ≡ cid)
        → tally (if b then t else thread_or_new cid ts) ≡ (
            if b
            then plus (tally (thread_or_new cid ts)) m k (one_if (u cid))
            else tally (thread_or_new cid ts))
    go true q = e ∙ ap (λ x. plus (tally (thread_or_new x ts)) m k (one_if (u x))) (q refl)
    go false q = refl

if-message :
    (b : Bool) (a : Tally) (u : Bool)
    → (if b then plus a 1 0 (one_if u) else a) ≡ plus a (one_if b) 0 (one_if (b && u))
if-message true a u = refl
if-message false a u = plus-zero a

if-call :
    (b : Bool) (a : Tally) (u : Bool)
    → (if b then plus a 0 1 (one_if u) else a) ≡ plus a 0 (one_if b) (one_if (b && u))
if-call true a u = refl
if-call false a u = plus-zero a

module _ (lower : String → String) (states : ThreadStates) where
  counted_message-tally :
      (cid : String) (r : Row) (t : ContactThread)
      → tally (counted_message lower states cid r t)
        ≡ plus (tally t) 1 0 (one_if (is_unread states cid r))
  unfolding counted_message
  counted_message-tally cid r t =
      let k = ap (λ a. a.1) (bump-tally r "message" (elim r.text [ none ↦ "" | some b ↦ b ]) t) in
      ground (arith, k)

  counted_call-tally :
      (cid : String) (r : Row) (t : ContactThread)
      → tally (counted_call lower states cid r t)
        ≡ plus (tally t) 0 1 (one_if (is_unread states cid r))
  unfolding counted_call
  counted_call-tally cid r t =
      let k = ap (λ a. a.0) (bump-tally r "call" (call_preview lower r.way r.text) t) in
      ground (arith, k)

  abbrev unread_of : String → Row → Bool
  unread_of cid r = hits cid r.caller && is_unread states cid r

  see_message-tally :
      (cid : String) (o : Option String) (r : Row) (m : Merge)
      → tally (thread_or_new cid (see_message lower states o r m).threads)
        ≡ plus
            (tally (thread_or_new cid m.threads))
            (one_if (hits cid o))
            0
            (one_if (hits cid o && is_unread states cid r))
  unfolding see_message
  see_message-tally cid none r m = plus-zero _
  see_message-tally cid (some c) r m =
      tally-if c cid (counted_message lower states c r (thread_or_new c m.threads)) m.threads 1 0
        (λ d. is_unread states d r) (counted_message-tally c r (thread_or_new c m.threads))
      ∙ if-message (str_eq c cid) (tally (thread_or_new cid m.threads)) (is_unread states cid r)

  see_call-tally :
      (cid : String) (o : Option String) (r : Row) (m : Merge)
      → tally (thread_or_new cid (see_call lower states o r m).threads)
        ≡ plus
            (tally (thread_or_new cid m.threads))
            0
            (one_if (hits cid o))
            (one_if (hits cid o && is_unread states cid r))
  unfolding see_call
  see_call-tally cid none r m = plus-zero _
  see_call-tally cid (some c) r m =
      tally-if c cid (counted_call lower states c r (thread_or_new c m.threads)) m.threads 0 1
        (λ d. is_unread states d r) (counted_call-tally c r (thread_or_new c m.threads))
      ∙ if-call (str_eq c cid) (tally (thread_or_new cid m.threads)) (is_unread states cid r)

  see_messages-tally :
      (cid : String) (rs : List Row) (m : Merge)
      → tally (thread_or_new cid (see_messages lower states rs m).threads)
        ≡ plus
            (tally (thread_or_new cid m.threads))
            (count_rows (λ r. hits cid r.caller) rs)
            0
            (count_rows (unread_of cid) rs)
  unfolding see_messages
  see_messages-tally cid [] m = plus-zero _
  see_messages-tally cid (r ∷ rs) m =
      see_messages-tally cid rs (see_message lower states r.caller r m)
      ∙ ap (λ a. plus a (count_rows (λ q. hits cid q.caller) rs) 0 (count_rows (unread_of cid) rs))
          (see_message-tally cid r.caller r m)
      ∙ plus-plus _ _ _ _ _ _ _

  see_calls-tally :
      (cid : String) (rs : List Row) (m : Merge)
      → tally (thread_or_new cid (see_calls lower states rs m).threads)
        ≡ plus
            (tally (thread_or_new cid m.threads))
            0
            (count_rows (λ r. hits cid r.caller) rs)
            (count_rows (unread_of cid) rs)
  unfolding see_calls
  see_calls-tally cid [] m = plus-zero _
  see_calls-tally cid (r ∷ rs) m =
      see_calls-tally cid rs (see_call lower states r.caller r m)
      ∙ ap (λ a. plus a 0 (count_rows (λ q. hits cid q.caller) rs) (count_rows (unread_of cid) rs))
          (see_call-tally cid r.caller r m)
      ∙ plus-plus _ _ _ _ _ _ _

  -- The last step changes no count.
  pub lookup-finish_all :
      (cid : String) (m : Merge) (ts : List (String × ContactThread)) (t : ContactThread)
      → lookup cid (finish_all lower states m ts) ≡ some t
      → (u : ContactThread) × (lookup cid ts ≡ some u) × (t ≡ finish lower states m cid u)
  unfolding finish_all lookup
  lookup-finish_all cid m [] t h = cc h
  lookup-finish_all cid m ((c, u) ∷ ts) t h =
      go (str_eq c cid) (λ q. (eq_iff c cid).0 q) (lookup-finish_all cid m ts t) h
    where
      go :
          (b : Bool)
          → (b ≡ true → c ≡ cid)
          → (lookup cid (finish_all lower states m ts) ≡ some t
              → (v : ContactThread) × (lookup cid ts ≡ some v) × (t ≡ finish lower states m cid v))
          → (if b
              then some (finish lower states m c u)
              else lookup cid (finish_all lower states m ts))
            ≡ some t
          → (v : ContactThread) × ((if b then some u else lookup cid ts) ≡ some v)
            × (t ≡ finish lower states m cid v)
      go true q ih e =
          (u, refl, sym (some-injective _ _ e) ∙ ap (λ k. finish lower states m k u) (q refl))
      go false q ih e = ih e

  -- The thread of a contact counts its messages, its calls, and the rows of both that are unread: not
  -- outbound, and newer than the last reading, if there was one. No other row counts.
  pub merged_counts :
      (message_rows call_rows : List Row) (cid : String) (t : ContactThread)
      → lookup cid (merged lower states message_rows call_rows) ≡ some t
      → (t.message_count ≡ count_rows (λ r. hits cid r.caller) message_rows)
        × (t.call_count ≡ count_rows (λ r. hits cid r.caller) call_rows)
        × (t.unread_count
            ≡ count_rows (unread_of cid) message_rows + count_rows (unread_of cid) call_rows)
  unfolding merged finish or_new
  merged_counts message_rows call_rows cid t h =
      let start : Merge = record { threads = []; newest_msg = [] } in
      let first = see_messages lower states message_rows start in
      let m = see_calls lower states call_rows first in
      let (u, q, e) = lookup-finish_all cid m m.threads t h in
      let whole =
        ap (λ o. tally (or_new cid o)) (sym q)
        ∙ see_calls-tally cid call_rows first
        ∙ ap
            (λ a.
              plus a 0 (count_rows (λ r. hits cid r.caller) call_rows)
                (count_rows (unread_of cid) call_rows))
            (see_messages-tally cid message_rows start) in
      let parts = ap (λ x. tally x) e ∙ whole in
      (
        ap (λ a. a.0) parts ∙ omega arith,
        ap (λ a. a.1) parts ∙ omega arith,
        ap (λ a. a.2) parts ∙ omega arith,
      )
