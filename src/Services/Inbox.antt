-- ===== src/Services/Inbox.antt =====
-- backend/app/services/inbox_threads.py: one thread for each contact, made of the rows of messages and
-- of calls. `str.lower` is a parameter.
pub mod From
pub mod Counts
pub mod Reopening
pub mod Sending
mod Examples
use owen_main.Common.{
  ℕ, ◌+◌, String, List, [], ◌∷◌, Bool, true, false, ◌&&◌, ◌||◌, not, Option, none, some, is_some,
  ltb, contains, str_eq, if◌then◌else◌,
}
use owen_main.Common.Assoc.{lookup, insert}
use owen_main.Services.Sms.{BlockReason, outbound_block_reason}

pub record DidRef : Type 0 where
  pub number_id : Option String
  pub phone_number : Option String
  pub sms_enabled : Bool
  pub sms_campaign_id : Option String
  pub friendly_name : Option String

-- `DidRef()`
abbrev pub no_did : DidRef
no_did = record {
  number_id = none;
  phone_number = none;
  sms_enabled = false;
  sms_campaign_id = none;
  friendly_name = none;
}

pub record ContactThread : Type 0 where
  pub caller_id : String
  pub caller_number : Option String
  pub last_at : Option ℕ
  pub last_kind : Option String
  pub last_direction : Option String
  pub last_preview : Option String
  pub message_count : ℕ
  pub call_count : ℕ
  pub unread_count : ℕ
  pub open_now : Bool
  pub responded : Bool
  pub blocked : Bool
  pub deleted : Bool
  pub sticky : DidRef

abbrev pub new_thread : String → ContactThread
new_thread cid = record {
  caller_id = cid;
  caller_number = none;
  last_at = none;
  last_kind = none;
  last_direction = none;
  last_preview = none;
  message_count = 0;
  call_count = 0;
  unread_count = 0;
  open_now = true;
  responded = true;
  blocked = false;
  deleted = false;
  sticky = no_did;
}

-- A row of messages, whose text is its body, or of calls, whose text is its status. `at` is
-- `received_at` or `started_at`, `did` what the row says of our number.
pub record Row : Type 0 where
  pub caller : Option String
  pub number : Option String
  pub way : Option String
  pub text : Option String
  pub at : Option ℕ
  pub did : DidRef

-- `(last_read_at, closed_at, blocked_at, deleted_at)`, padded with none.
pub record Marks : Type 0 where
  pub last_read_at : Option ℕ
  pub closed_at : Option ℕ
  pub blocked_at : Option ℕ
  pub deleted_at : Option ℕ

abbrev pub ThreadStates : Type 0
ThreadStates = List (String × Marks)

unfoldable pub state_of : ThreadStates → String → Marks
unfolding lookup
state_of states cid = elim (lookup cid states) [
  | none ↦ record { last_read_at = none; closed_at = none; blocked_at = none; deleted_at = none }
  | some m ↦ m
]

unfoldable pub is_outbound : Option String → Bool
is_outbound none = false
is_outbound (some d) = str_eq d "outbound"

unfoldable pub call_preview : (String → String) → Option String → Option String → String
unfolding is_outbound contains
call_preview lower way status =
    if is_outbound way
    then "↗ You called"
    else if contains (lower (elim status [ none ↦ "" | some s ↦ s ]))
        ("no-answer" ∷ "busy" ∷ "failed" ∷ "canceled" ∷ [])
    then "↙ Missed call"
    else "↙ Call"

-- `a is not None and (b is None or a > b)`
unfoldable pub newer : Option ℕ → Option ℕ → Bool
newer none b = false
newer (some a) none = true
newer (some a) (some b) = ltb b a

-- `b is None or (a is not None and a > b)`
unfoldable pub after : Option ℕ → Option ℕ → Bool
unfolding newer
after a none = true
after a (some b) = newer a (some b)

-- `a is not None and b is not None and a > b`
unfoldable pub overtakes : Option ℕ → Option ℕ → Bool
unfolding newer
overtakes a none = false
overtakes a (some b) = newer a (some b)

-- `str(id) if id else None`
unfoldable pub truthy_did : DidRef → DidRef
truthy_did d = record d {
  number_id = elim d.number_id [ none ↦ none | some n ↦ if str_eq n "" then none else some n ];
}

unfoldable pub or_new : String → Option ContactThread → ContactThread
or_new cid none = new_thread cid
or_new cid (some t) = t

unfoldable pub thread_or_new : String → List (String × ContactThread) → ContactThread
unfolding lookup or_new
thread_or_new cid threads = or_new cid (lookup cid threads)

-- The thread as the row leaves it, but for the counts.
unfoldable pub bump : Row → String → String → ContactThread → ContactThread
unfolding newer truthy_did
bump r kind preview t =
    let t' : ContactThread = record t {
      caller_number = elim t.caller_number [ none ↦ r.number | some n ↦ some n ];
    } in
    if newer r.at t.last_at
    then record t' {
      last_at = r.at;
      last_kind = some kind;
      last_direction = r.way;
      last_preview = some preview;
      sticky = truthy_did r.did;
    }
    else t'

unfoldable pub is_unread : ThreadStates → String → Row → Bool
unfolding is_outbound after state_of
is_unread states cid r = not (is_outbound r.way) && after r.at (state_of states cid).last_read_at

abbrev pub one_if : Bool → ℕ
one_if b = if b then 1 else 0

-- The threads, and the newest message of each contact.
pub record Merge : Type 0 where
  pub threads : List (String × ContactThread)
  pub newest_msg : List (String × (Option ℕ × Option String))

unfoldable pub note_newest :
    String
    → Row
    → List (String × (Option ℕ × Option String))
    → List (String × (Option ℕ × Option String))
unfolding lookup insert newer
note_newest cid r ms =
    if newer r.at (elim (lookup cid ms) [ none ↦ none | some p ↦ p.0 ])
    then insert cid (r.at, r.way) ms
    else ms

-- `sorted(..., reverse=True)`: the newest first, those without a time last, equals in their order.
unfoldable pub place : ContactThread → List ContactThread → List ContactThread
unfolding newer
place t [] = t ∷ []
place t (u ∷ us) =
    let rest = place t us in if newer u.last_at t.last_at then u ∷ rest else t ∷ u ∷ us

unfoldable pub newest_first : List (String × ContactThread) → List ContactThread
unfolding place
newest_first [] = []
newest_first ((cid, t) ∷ ts) = place t (newest_first ts)

module _ (lower : String → String) (states : ThreadStates) where
  unfoldable pub counted_message : String → Row → ContactThread → ContactThread
  unfolding bump is_unread
  counted_message cid r t =
      let t' = bump r "message" (elim r.text [ none ↦ "" | some b ↦ b ]) t in
      record t' {
        message_count = t.message_count + 1;
        unread_count = t.unread_count + one_if (is_unread states cid r);
      }

  unfoldable pub counted_call : String → Row → ContactThread → ContactThread
  unfolding bump is_unread call_preview
  counted_call cid r t =
      let t' = bump r "call" (call_preview lower r.way r.text) t in
      record t' {
        call_count = t.call_count + 1;
        unread_count = t.unread_count + one_if (is_unread states cid r);
      }

  unfoldable pub see_message : Option String → Row → Merge → Merge
  unfolding counted_message thread_or_new insert note_newest
  see_message none r m = m
  see_message (some cid) r m = record {
    threads = insert cid (counted_message cid r (thread_or_new cid m.threads)) m.threads;
    newest_msg = note_newest cid r m.newest_msg;
  }

  unfoldable pub see_call : Option String → Row → Merge → Merge
  unfolding counted_call thread_or_new insert
  see_call none r m = m
  see_call (some cid) r m = record m {
    threads = insert cid (counted_call cid r (thread_or_new cid m.threads)) m.threads;
  }

  unfoldable pub see_messages : List Row → Merge → Merge
  unfolding see_message
  see_messages [] m = m
  see_messages (r ∷ rs) m = see_messages rs (see_message r.caller r m)

  unfoldable pub see_calls : List Row → Merge → Merge
  unfolding see_call
  see_calls [] m = m
  see_calls (r ∷ rs) m = see_calls rs (see_call r.caller r m)

  unfoldable pub finish : Merge → String → ContactThread → ContactThread
  unfolding state_of overtakes after lookup is_outbound
  finish m cid t =
      let s = state_of states cid in
      record t {
        open_now = after t.last_at s.closed_at;
        blocked = is_some s.blocked_at;
        deleted = is_some s.deleted_at && not (overtakes t.last_at s.deleted_at);
        responded = elim (lookup cid m.newest_msg) [ none ↦ true | some p ↦ is_outbound (p.1) ];
      }

  unfoldable pub finish_all : Merge → List (String × ContactThread) → List (String × ContactThread)
  unfolding finish
  finish_all m [] = []
  finish_all m ((cid, t) ∷ ts) = (cid, finish m cid t) ∷ finish_all m ts

  -- The threads by contact, before they are sorted.
  unfoldable pub merged : List Row → List Row → List (String × ContactThread)
  unfolding see_messages see_calls finish_all
  merged message_rows call_rows =
      let m =
        see_calls call_rows
          (see_messages message_rows (record { threads = []; newest_msg = [] })) in
      finish_all m m.threads

  unfoldable pub merge_threads : List Row → List Row → List ContactThread
  unfolding merged newest_first
  merge_threads message_rows call_rows = newest_first (merged message_rows call_rows)
