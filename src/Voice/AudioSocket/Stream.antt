-- ===== src/Voice/AudioSocket/Stream.antt =====
-- What the parser makes of a stream does not depend on how the stream was cut into reads.
use mathlib.Core.Option.{some-injective}
use owen_main.Common.{
  ℕ, zero, suc, ◌+◌, ◌*◌, ◌≤◌, ◌<◌, ◌≡◌, refl, sym, ap, ◌∙◌, inl, inr, List, [], ◌∷◌, ◌++◌,
  append-nil, append_assoc, none, some, ltb, length, take, drop, flatten, length-append,
  length-drop, take-append, drop-append, Bool-cases, Option-cases, arith,
}
use owen_main.Voice.AudioSocket.{Frame, cut, feed_loop, feed, feed_all}

abbrev pub cut_at : ℕ → ℕ → List ℕ → Frame × List ℕ
cut_at k size xs = (record { kind = k; payload = take size xs }, drop size xs)

pub cut_inv :
    (k hi lo : ℕ) (xs : List ℕ) (c : Frame × List ℕ)
    → cut (k ∷ hi ∷ lo ∷ xs) ≡ some c
    → (hi * 256 + lo ≤ length xs) × (c ≡ cut_at k (hi * 256 + lo) xs)
unfolding cut
cut_inv k hi lo xs c h = elim (Bool-cases (ltb (length xs) (hi * 256 + lo))) [
  | inl q ↦ cc (rw q at h)
  | inr q ↦ (ground (arith, q), sym (some-injective _ _ (rw q at h)))
]

pub cut_fits :
    (k hi lo : ℕ) (xs : List ℕ)
    → hi * 256 + lo ≤ length xs
    → cut (k ∷ hi ∷ lo ∷ xs) ≡ some (cut_at k (hi * 256 + lo) xs)
unfolding cut
cut_fits k hi lo xs h = elim (Bool-cases (ltb (length xs) (hi * 256 + lo))) [
  | inl q ↦ absurd (ground (arith, q))
  | inr q ↦ rw q refl
]

pub cut_at-append :
    (k size : ℕ) (xs ys : List ℕ)
    → size ≤ length xs
    → cut_at k size (xs ++ ys) ≡ ((cut_at k size xs).0, (cut_at k size xs).1 ++ ys)
cut_at-append k size xs ys h = rw (take-append size xs ys h, drop-append size xs ys h) refl

pub cut_nil : cut [] ≡ none
unfolding cut
cut_nil = refl

-- A complete frame stays the first one whatever comes after it.
cut-append :
    (xs ys : List ℕ) (c : Frame × List ℕ)
    → cut xs ≡ some c
    → (cut (xs ++ ys) ≡ some (c.0, c.1 ++ ys)) × (length (c.1) < length xs)
unfolding cut
cut-append [] ys c h = cc
cut-append (k ∷ []) ys c h = cc
cut-append (k ∷ hi ∷ []) ys c h = cc
cut-append (k ∷ hi ∷ lo ∷ xs) ys c h =
    let (fits, e) = cut_inv k hi lo xs c h in
    rw e (
      cut_fits k hi lo (xs ++ ys) (omega (arith, length-append xs ys, fits))
          ∙ ap some (cut_at-append k (hi * 256 + lo) xs ys fits),
      omega (arith, length-drop (hi * 256 + lo) xs),
    )

pub feed_loop-none : (n : ℕ) (buf : List ℕ) → cut buf ≡ none → feed_loop n buf ≡ ([], buf)
unfolding feed_loop
feed_loop-none zero buf q = refl
feed_loop-none (suc n) buf q = rw (q, feed_loop) refl

pub feed_loop-some :
    (n : ℕ) (buf : List ℕ) (c : Frame × List ℕ)
    → cut buf ≡ some c
    → feed_loop (suc n) buf ≡ (let more = feed_loop n (c.1) in (c.0 ∷ more.0, more.1))
unfolding feed_loop
feed_loop-some n buf c q = rw (q, feed_loop) refl

pub cut-shrinks : (xs : List ℕ) (c : Frame × List ℕ) → cut xs ≡ some c → length (c.1) < length xs
cut-shrinks xs c q = (cut-append xs [] c q).1

-- Any fuel that is enough gives the same.
pub feed_loop_enough :
    (n m : ℕ) (buf : List ℕ) → length buf ≤ n → length buf ≤ m → feed_loop n buf ≡ feed_loop m buf
feed_loop_enough zero m [] h k = feed_loop-none zero [] cut_nil ∙ sym (feed_loop-none m [] cut_nil)
feed_loop_enough zero m (b ∷ buf) h k = absurd (omega arith)
feed_loop_enough (suc n) zero [] h k =
    feed_loop-none (suc n) [] cut_nil ∙ sym (feed_loop-none zero [] cut_nil)
feed_loop_enough (suc n) zero (b ∷ buf) h k = absurd (omega arith)
feed_loop_enough (suc n) (suc m) buf h k = elim (Option-cases (cut buf)) [
  | inl q ↦ feed_loop-none (suc n) buf q ∙ sym (feed_loop-none (suc m) buf q)
  | inr (c, q) ↦
      let less = cut-shrinks buf c q in
      rw (feed_loop-some n buf c q, feed_loop-some m buf c q)
        (ap (λ r. (c.0 ∷ r.0, r.1)) (feed_loop_enough n m (c.1) (omega arith) (omega arith)))
]

-- The loop over a longer buffer goes on where the loop over the shorter one stopped.
abbrev Resumes : ℕ → List ℕ → List ℕ → List Frame × List ℕ → Type 0
Resumes n xs ys now =
    (feed_loop n (xs ++ ys)
      ≡ (now.0 ++ (feed_loop n (now.1 ++ ys)).0, (feed_loop n (now.1 ++ ys)).1))
    × (length (now.1) ≤ length xs)

feed_loop-append :
    (n : ℕ) (xs ys : List ℕ) → length xs + length ys ≤ n → Resumes n xs ys (feed_loop n xs)
feed_loop-append zero [] ys h = rw (feed_loop-none zero [] cut_nil) (refl, omega arith)
feed_loop-append zero (x ∷ xs) ys h = absurd (omega arith)
feed_loop-append (suc n) xs ys h = elim (Option-cases (cut xs)) [
  | inl q ↦ rw (feed_loop-none (suc n) xs q) (refl, omega arith)
  | inr (c, q) ↦
      let less = cut-shrinks xs c q in
      let (ih, short) = feed_loop-append n (c.1) ys (omega arith) in
      let left = (feed_loop n (c.1)).1 ++ ys in
      let e =
        feed_loop_enough n (suc n) left
          (omega (arith, length-append ((feed_loop n (c.1)).1) ys, less, short, h))
          (omega (arith, length-append ((feed_loop n (c.1)).1) ys, less, short, h)) in
      rw (feed_loop-some n xs c q) (
        feed_loop-some n (xs ++ ys) (c.0, c.1 ++ ys) (cut-append xs ys c q).0
            ∙ ap (λ r. (c.0 ∷ r.0, r.1)) ih
            ∙ ap (λ r. (c.0 ∷ (feed_loop n (c.1)).0 ++ r.0, r.1)) e,
        omega (arith, less, short),
      )
]

-- What `feed` leaves has no complete frame.
feed_loop-rests : (n : ℕ) (buf : List ℕ) → length buf ≤ n → cut ((feed_loop n buf).1) ≡ none
feed_loop-rests zero [] h = rw (feed_loop-none zero [] cut_nil) cut_nil
feed_loop-rests zero (b ∷ buf) h = absurd (omega arith)
feed_loop-rests (suc n) buf h = elim (Option-cases (cut buf)) [
  | inl q ↦ rw (feed_loop-none (suc n) buf q) q
  | inr (c, q) ↦
      let less = cut-shrinks buf c q in
      rw (feed_loop-some n buf c q) (feed_loop-rests n (c.1) (omega arith))
]

feed-rests : (buf received : List ℕ) → cut ((feed buf received).1) ≡ none
unfolding feed
feed-rests buf received = feed_loop-rests (length (buf ++ received)) (buf ++ received) (omega arith)

abbrev after : List Frame × List ℕ → List ℕ → List Frame × List ℕ
after now d = let later = feed (now.1) d in (now.0 ++ later.0, later.1)

feed-append : (buf c d : List ℕ) → feed buf (c ++ d) ≡ after (feed buf c) d
unfolding feed
feed-append buf c d =
    let xs = buf ++ c in
    let n = length xs + length d in
    let (e, short) = feed_loop-append n xs d (omega arith) in
    let now = feed_loop n xs in
    let same = feed_loop_enough n (length xs) xs (omega arith) (omega arith) in
    let long = length-append xs d in
    let left = length-append (now.1) d in
    ap (λ t. feed_loop (length t) t) (sym (append_assoc buf c d))
    ∙ feed_loop_enough (length (xs ++ d)) n (xs ++ d) (omega arith) (omega (arith, long))
    ∙ e
    ∙ ap (λ r. (now.0 ++ r.0, r.1))
        (feed_loop_enough n (length (now.1 ++ d)) (now.1 ++ d) (omega (arith, left, short))
          (omega arith))
    ∙ ap (λ r. after r d) same

-- However a stream is cut into reads, the frames and the buffer are those of one read of the whole.
pub feed_all_whole :
    (buf : List ℕ) (reads : List (List ℕ))
    → cut buf ≡ none
    → feed_all buf reads ≡ feed buf (flatten reads)
unfolding feed_all feed
feed_all_whole buf [] h = rw (append-nil buf) (sym (feed_loop-none (length buf) buf h))
feed_all_whole buf (c ∷ cs) h =
    ap (λ r. ((feed buf c).0 ++ r.0, r.1)) (feed_all_whole ((feed buf c).1) cs (feed-rests buf c))
    ∙ sym (feed-append buf c (flatten cs))
