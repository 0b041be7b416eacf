-- ===== src/Flows/Dtmf/Bounded.antt =====
-- The queues never grow past their limits, and digits come out in the order in which they went in.
use owen_main.Common.{
  ℕ, ◌+◌, ◌≤◌, ◌<◌, String, List, [], ◌∷◌, ◌++◌, ◌≡◌, refl, sym, ap, ◌∙◌, inl, inr, false, Option,
  none, some, ◌==◌, ltb, ltb→lt, lt→ltb, eq_refl, length, length-append, append-nil, append_assoc,
  All, arith, str_eq, Bool-cases, if◌then◌else◌,
}
use mathlib.Core.Option.{some_inj}
use owen_main.Common.Json.{Dict}
use owen_main.Common.Assoc.{lookup, lookup-insert_hit}
use owen_main.Flows.Dtmf.{
  digit_queue_max, event_queue_max, put_nowait, push_into, push_digit, digit_queue, listeners,
  deliver, Registries, push_channel_event,
}

length-put_nowait :
    {A : Type 0} (limit : ℕ) (a : A) (q q' : List A)
    → put_nowait limit a q ≡ some q'
    → length q' ≤ limit
unfolding put_nowait
length-put_nowait limit a q q' h = elim (Bool-cases (ltb (length q) limit)) [
  | inl e ↦
      omega (arith, ltb→lt _ _ e, length-append q (a ∷ []), ap length (some_inj.0 (rw e at h)))
  | inr e ↦ cc (rw e at h)
]

-- No inbox holds more than the limit.
abbrev pub Fits : (ℕ → List Dict) → Type 0
Fits inbox = (q : ℕ) → length (inbox q) ≤ event_queue_max

Fits-put :
    (q : ℕ) (queue : List Dict) (inbox : ℕ → List Dict)
    → length queue ≤ event_queue_max
    → Fits inbox
    → Fits (λ p. if p == q then queue else inbox p)
Fits-put q queue inbox h f p = elim (Bool-cases (p == q)) [ inl e ↦ rw e h | inr e ↦ rw e (f p) ]

deliver-Fits :
    (event : Dict) (qs : List ℕ) (inbox : ℕ → List Dict)
    → Fits inbox
    → ((deliver event qs inbox).0 ≤ length qs) × Fits (deliver event qs inbox).1
unfolding deliver
deliver-Fits event [] inbox f = (omega arith, f)
deliver-Fits event (q ∷ qs) inbox f =
    go (put_nowait event_queue_max event (inbox q)) refl (deliver-Fits event qs)
  where
    Good : List ℕ → (ℕ → List Dict) → Type 0
    Good ps i = ((deliver event ps i).0 ≤ length ps) × Fits (deliver event ps i).1

    go :
        (o : Option (List Dict))
        → put_nowait event_queue_max event (inbox q) ≡ o
        → ((i : ℕ → List Dict) → Fits i → Good qs i)
        → Good (q ∷ qs) inbox
    go none e later = rw (deliver, e) (let g = later inbox f in (omega (arith, g.0), g.1))
    go (some queue) e later =
        rw (deliver, e)
          (let g =
              later (λ p. if p == q then queue else inbox p)
                (Fits-put q queue inbox (length-put_nowait event_queue_max event (inbox q) queue e)
                  f) in
            (omega (arith, g.0), g.1))

-- An event goes to at most the watchers of its channel, and no queue grows past its limit.
pub push_channel_event_bounded :
    (channel : String) (event : Dict) (r : Registries)
    → Fits r.inbox
    → let (delivered, r') = push_channel_event channel event r in
      (delivered ≤ length (listeners channel r.watchers)) × Fits r'.inbox
unfolding push_channel_event
push_channel_event_bounded channel event r f =
    deliver-Fits event (listeners channel r.watchers) r.inbox f

-- What has been pushed to a digit queue, by the digits in the order in which they were pressed.
unfoldable pub press_all : String → List String → Registries → Registries
unfolding push_digit
press_all channel [] r = r
press_all channel (d ∷ ds) r = press_all channel ds (push_digit channel d r).1

-- Every digit is one.
abbrev pub Pressed : List String → Type 0
Pressed = All (λ d. str_eq d "" ≡ false)

push_into-some :
    {A : Type 0} (limit : ℕ) (k : String) (a : A) (d : List (String × List A)) (q : List A)
    → lookup k d ≡ some q
    → length q < limit
    → lookup k (push_into limit k a d).1 ≡ some (q ++ (a ∷ []))
unfolding push_into put_nowait
push_into-some limit k a d q h l =
    rw (push_into, h, put_nowait, lt→ltb (length q) limit l)
      (lookup-insert_hit k k (q ++ (a ∷ [])) d (eq_refl k))

push_digit-queue :
    (channel d : String) (q : List String) (r : Registries)
    → str_eq d "" ≡ false
    → digit_queue channel r ≡ some q
    → length q < digit_queue_max
    → digit_queue channel (push_digit channel d r).1 ≡ some (q ++ (d ∷ []))
unfolding digit_queue push_digit
push_digit-queue channel d q r n h l =
    rw n (push_into-some digit_queue_max channel d r.digit_queues q h l)

-- Digits that are pressed, as long as there is room for them, stand in the queue in the order in
-- which they were pressed, after those that were in it.
pub digits_in_order :
    (channel : String) (ds : List String) (q : List String) (r : Registries)
    → Pressed ds
    → digit_queue channel r ≡ some q
    → length q + length ds ≤ digit_queue_max
    → digit_queue channel (press_all channel ds r) ≡ some (q ++ ds)
unfolding press_all
digits_in_order channel [] q r p h l = h ∙ ap some (sym (append-nil q))
digits_in_order channel (d ∷ ds) q r p h l =
    digits_in_order channel ds (q ++ (d ∷ [])) (push_digit channel d r).1 p.1
      (push_digit-queue channel d q r p.0 h (omega (arith, l)))
      (omega (arith, l, length-append q (d ∷ [])))
    ∙ ap some (append_assoc q (d ∷ []) ds)
