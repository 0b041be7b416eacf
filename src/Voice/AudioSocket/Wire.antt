-- ===== src/Voice/AudioSocket/Wire.antt =====
-- Frames as `encode` writes them, and what the parser makes of them.
use native.Mathlib.Nat.{mod-eq_of_lt}
use owen_main.Common.{
  ℕ, suc, ◌+◌, ◌*◌, ◌/◌, ◌%◌, ◌≤◌, ◌<◌, ◌≡◌, refl, sym, ap, ◌∙◌, inl, inr, List, [], ◌∷◌, ◌++◌,
  some, ltb, length, flatten, length-append, take-length, drop-length, All, Bool-cases, ok, ok_inj,
  bind-ok_inv, arith,
}
use owen_main.Voice.AudioSocket.{
  Frame, max_payload, encode, encode_all, cut, feed_loop, feed, feed_all,
}
use owen_main.Voice.AudioSocket.Stream.{
  cut_at, cut_fits, cut_nil, feed_loop_enough, feed_loop-none, feed_loop-some, feed_all_whole,
}

-- A frame as it stands on the wire.
abbrev pub Sendable : Frame → Type 0
Sendable f = (f.kind < 256) × (length f.payload ≤ max_payload)

abbrev pub wire : Frame → List ℕ
wire f = f.kind ∷ (length f.payload / 256) ∷ (length f.payload % 256) ∷ f.payload

pub encode_lem : (f : Frame) → Sendable f → encode f ≡ ok (wire f)
unfolding encode
encode_lem f h = elim (Bool-cases (ltb max_payload (length f.payload))) [
  | inl q ↦ absurd (ground (arith, q, h.1))
  | inr q ↦ rw (q, mod-eq_of_lt h.0) refl
]

cut-wire : (f : Frame) (ys : List ℕ) → cut (wire f ++ ys) ≡ some (f, ys)
cut-wire f ys =
    let size = length f.payload / 256 * 256 + length f.payload % 256 in
    let e : size ≡ length f.payload = omega arith in
    cut_fits f.kind (length f.payload / 256) (length f.payload % 256) (f.payload ++ ys)
      (omega (arith, length-append f.payload ys))
    ∙ ap (λ t. some (cut_at f.kind t (f.payload ++ ys))) e
    ∙ rw (take-length f.payload ys, drop-length f.payload ys) refl

feed_lem : (ys : List ℕ) (n : ℕ) → length ys ≤ n → feed [] ys ≡ feed_loop n ys
unfolding feed
feed_lem ys n h = feed_loop_enough (length ys) n ys (omega arith) h

-- A frame of the stream, and what follows it.
feed-wire :
    (f : Frame) (ys : List ℕ) → feed [] (wire f ++ ys) ≡ (f ∷ (feed [] ys).0, (feed [] ys).1)
feed-wire f ys =
    let n = length f.payload + length ys + 3 in
    feed_lem (wire f ++ ys) (suc n) (omega (arith, length-append f.payload ys))
    ∙ feed_loop-some n (wire f ++ ys) (f, ys) (cut-wire f ys)
    ∙ ap (λ r. (f ∷ r.0, r.1)) (sym (feed_lem ys n (omega arith)))

encode-fits : (f : Frame) (w : List ℕ) → encode f ≡ ok w → length f.payload ≤ max_payload
unfolding encode
encode-fits f w e = elim (Bool-cases (ltb max_payload (length f.payload))) [
  | inl q ↦ cc (rw q at e)
  | inr q ↦ ground (arith, q)
]

-- What was sent of a frame and of those after it.
encode_all-cons :
    (f : Frame) (fs : List Frame) (bytes : List ℕ)
    → encode_all (f ∷ fs) ≡ ok bytes
    → (w rest : List ℕ) × (encode f ≡ ok w) × (encode_all fs ≡ ok rest) × (w ++ rest ≡ bytes)
unfolding encode_all
encode_all-cons f fs bytes e =
    let (w, q, e₁) = bind-ok_inv (encode f) _ bytes e in
    let (rest, q₁, e₂) = bind-ok_inv (encode_all fs) _ bytes e₁ in (w, rest, q, q₁, ok_inj e₂)

-- Frames that were sent have payloads that fit.
pub encode_all-fits :
    (frames : List Frame) (bytes : List ℕ)
    → encode_all frames ≡ ok bytes
    → All (λ f. length f.payload ≤ max_payload) frames
encode_all-fits [] bytes e = tt
encode_all-fits (f ∷ fs) bytes e =
    let (w, rest, q, q₁, _) = encode_all-cons f fs bytes e in
    (encode-fits f w q, encode_all-fits fs rest q₁)

-- What was sent is understood in one read.
feed-encode_all :
    (frames : List Frame) (bytes : List ℕ)
    → All (λ f. f.kind < 256) frames
    → encode_all frames ≡ ok bytes
    → feed [] bytes ≡ (frames, [])
unfolding encode_all
feed-encode_all [] bytes h e =
    rw (sym (ok_inj e)) (feed_lem [] 0 (omega arith) ∙ feed_loop-none 0 [] cut_nil)
feed-encode_all (f ∷ fs) bytes h e =
    let (w, rest, q, q₁, whole) = encode_all-cons f fs bytes e in
    let sent = ok_inj (sym q ∙ encode_lem f (h.0, encode-fits f w q)) in
    ap (λ t. feed [] t) (sym whole ∙ ap (λ t. t ++ rest) sent)
    ∙ feed-wire f rest
    ∙ ap (λ r. (f ∷ r.0, r.1)) (feed-encode_all fs rest h.1 q₁)

-- A peer that sends frames of kinds below 256 is understood: whatever the reads are into which the
-- network cuts the bytes that it sends, the parser yields exactly these frames, and its buffer is empty.
pub feed_all-encode_all :
    (frames : List Frame) (bytes : List ℕ) (reads : List (List ℕ))
    → All (λ f. f.kind < 256) frames
    → encode_all frames ≡ ok bytes
    → flatten reads ≡ bytes
    → feed_all [] reads ≡ (frames, [])
feed_all-encode_all frames bytes reads h e r =
    feed_all_whole [] reads cut_nil ∙ rw r (feed-encode_all frames bytes h e)
