-- ===== src/Services/Dlr/Lists.antt =====
-- Lists of messages: what holds of some message, through the filters, the order and a change.
use owen_main.Common.{
  ℕ, String, List, [], ◌∷◌, ◌≡◌, refl, ◌∙◌, inl, inr, Bool, true, false, ◌&&◌, ◌||◌, Option,
  contains, ◌==◌, eq_iff, Bool-cases, arith, if◌then◌else◌,
}
use owen_main.Services.Dlr.{Message}
use owen_main.Services.Dlr.Correlate.{
  only, place, newest_first, nearer, nearest, append_new, matched, change_message,
}

abbrev pub any : (Message → Bool) → List Message → Bool
any f [] = false
any f (m ∷ ms) = if f m then true else any f ms

pub any-tail :
    (f : Message → Bool) (m : Message) (ms : List Message) → any f ms ≡ true → any f (m ∷ ms) ≡ true
any-tail f m ms h = elim (Bool-cases (f m)) [ inl q ↦ rw q refl | inr q ↦ rw q h ]

pub any-same :
    (f g : Message → Bool) (ms : List Message) → ((m : Message) → f m ≡ g m) → any f ms ≡ any g ms
any-same f g [] e = refl
any-same f g (m ∷ ms) e = rw (e m, any-same f g ms e) refl

pub and_assoc : (a b c : Bool) → (a && (b && c)) ≡ ((a && b) && c)
and_assoc true b c = refl
and_assoc false b c = refl

pub any-only :
    (f g : Message → Bool) (ms : List Message) → any f (only g ms) ≡ any (λ m. g m && f m) ms
unfolding only
any-only f g [] = refl
any-only f g (m ∷ ms) = ground (arith, any-only f g ms)

pub any-place :
    (f : Message → Bool) (m : Message) (ms : List Message) → any f (place m ms) ≡ (f m || any f ms)
unfolding place
any-place f m [] = ground arith
any-place f m (n ∷ ns) = ground (arith, any-place f m ns)

pub any-newest_first : (f : Message → Bool) (ms : List Message) → any f (newest_first ms) ≡ any f ms
unfolding newest_first
any-newest_first f [] = refl
any-newest_first f (m ∷ ms) =
    any-place f m (newest_first ms) ∙ ground (arith, any-newest_first f ms)

pub any-nearest :
    (f : Message → Bool) (submitted : Option ℕ) (m : Message) (ms : List Message)
    → f (nearest submitted m ms) ≡ true
    → any f (m ∷ ms) ≡ true
unfolding nearest
any-nearest f submitted m [] h = ground (arith, h)
any-nearest f submitted m (n ∷ ns) h =
    elim (Bool-cases (nearer submitted m (nearest submitted n ns))) [
      | inl q ↦ rw (rw q at h) refl
      | inr q ↦ any-tail f m (n ∷ ns) (any-nearest f submitted n ns (rw q at h))
    ]

pub any-change :
    (f g : Message → Bool) (change : Message → Message) (id : ℕ) (ms : List Message)
    → ((m : Message) → g (change m) ≡ g m)
    → ((m : Message) → f (change m) ≡ true)
    → any (λ m. g m && (m.message_id == id)) ms ≡ true
    → any (λ m. g m && f m) (change_message change id ms) ≡ true
unfolding change_message
any-change f g change id [] a b h = h
any-change f g change id (m ∷ ms) a b h = elim (Bool-cases (m.message_id == id)) [
  | inl i ↦ elim (Bool-cases (g m)) [
    | inl q ↦ rw (i, a m, q, b m) refl
    | inr q ↦ rw (i, a m, q) (any-change f g change id ms a b (rw q at h))
  ]
  | inr i ↦ rw i (
      any-tail (λ m. g m && f m) m (change_message change id ms)
        (any-change f g change id ms a b (not_here (g m) (rw i at h))))
]
  where
    not_here :
        (q : Bool)
        → (if q && false then true else any (λ m. g m && (m.message_id == id)) ms) ≡ true
        → any (λ m. g m && (m.message_id == id)) ms ≡ true
    not_here true k = k
    not_here false k = k

pub contains-append_new : (k : String) (ks : List String) → contains k (append_new k ks) ≡ true
unfolding contains append_new
contains-append_new k [] = ground (arith, eq_iff k k)
contains-append_new k (x ∷ xs) = ground (arith, contains-append_new k xs)

pub message_inj :
    {m m' : Message} {b b' : Bool} {n n' : ℕ} → matched m b n ≡ matched m' b' n' → m ≡ m'
message_inj h = cc h

pub same_number : (n : ℕ) → (n == n) ≡ true
same_number n = ground arith
