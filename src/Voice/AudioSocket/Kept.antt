-- ===== src/Voice/AudioSocket/Kept.antt =====
-- The parser keeps every byte: in the frames that it yields or in its buffer, which is bounded.
use owen_main.Common.{
  ℕ, zero, suc, ◌+◌, ◌*◌, ◌/◌, ◌%◌, ◌≤◌, ◌<◌, ◌≡◌, refl, ap, ◌∙◌, inl, inr, List, [], ◌∷◌, ◌++◌,
  append_assoc, none, some, length, take, drop, flatten, length-take, append-take-drop, All,
  All-append, All-drop, Option-cases, ok, arith,
}
use owen_main.Voice.AudioSocket.{
  Frame, header_len, max_payload, encode_all, cut, feed_loop, feed, feed_all,
}
use owen_main.Voice.AudioSocket.Stream.{
  cut_inv, cut-shrinks, cut_nil, feed_loop-none, feed_loop-some, feed_all_whole,
}
use owen_main.Voice.AudioSocket.Wire.{Sendable, wire, encode_lem}

abbrev pub Bytes : List ℕ → Type 0
Bytes = All (λ b. b < 256)

header :
    (hi lo : ℕ) (xs ys : List ℕ)
    → hi < 256
    → lo < 256
    → xs ≡ ys
    → ◌≡◌ {A = List ℕ} (((hi * 256 + lo) / 256) ∷ ((hi * 256 + lo) % 256) ∷ xs) (hi ∷ lo ∷ ys)
header hi lo xs ys h l e =
    let high : (hi * 256 + lo) / 256 ≡ hi = omega arith in
    let low : (hi * 256 + lo) % 256 ≡ lo = omega arith in rw (high, low, e) refl

-- A frame that was cut off is what stood there.
cut-wire_inv :
    (xs : List ℕ) (c : Frame × List ℕ)
    → Bytes xs
    → cut xs ≡ some c
    → Sendable (c.0) × (wire (c.0) ++ c.1 ≡ xs) × Bytes (c.1)
unfolding cut
cut-wire_inv [] c b h = cc
cut-wire_inv (k ∷ []) c b h = cc
cut-wire_inv (k ∷ hi ∷ []) c b h = cc
cut-wire_inv (k ∷ hi ∷ lo ∷ xs) c b h =
    let (fits, e) = cut_inv k hi lo xs c h in
    let size = hi * 256 + lo in
    let n : length (take size xs) ≡ size = length-take size xs fits in
    rw (e, n)
      (
        (b.0, omega arith),
        ap (λ t. k ∷ t)
            (header hi lo (take size xs ++ drop size xs) xs b.1.0 b.1.1.0
              (append-take-drop size xs)),
        All-drop (λ t. t < 256) size xs b.1.1.1,
      )

-- An incomplete frame is short.
cut-short : (xs : List ℕ) → Bytes xs → cut xs ≡ none → length xs < header_len + max_payload
unfolding cut
cut-short [] b h = omega arith
cut-short (k ∷ []) b h = omega arith
cut-short (k ∷ hi ∷ []) b h = omega arith
cut-short (k ∷ hi ∷ lo ∷ xs) b h = ground (arith, b, h)

-- What is kept of a stream: the frames are what encodes to its first bytes, the buffer is the others.
abbrev pub Keeps : List Frame × List ℕ → List ℕ → Type 0
Keeps now bytes =
    (sent : List ℕ) × (encode_all (now.0) ≡ ok sent)
    × (sent ++ now.1 ≡ bytes)
    × (length (now.1) < header_len + max_payload)

feed_loop-Keeps : (n : ℕ) (buf : List ℕ) → length buf ≤ n → Bytes buf → Keeps (feed_loop n buf) buf
unfolding encode_all
feed_loop-Keeps zero [] h b = rw (feed_loop-none zero [] cut_nil) ([], refl, refl, omega arith)
feed_loop-Keeps zero (x ∷ buf) h b = absurd (omega arith)
feed_loop-Keeps (suc n) buf h b = elim (Option-cases (cut buf)) [
  | inl q ↦ rw (feed_loop-none (suc n) buf q) ([], refl, refl, cut-short buf b q)
  | inr (c, q) ↦
      let less = cut-shrinks buf c q in
      let (fits, e, more) = cut-wire_inv buf c b q in
      let (sent, en, whole, short) = feed_loop-Keeps n (c.1) (omega arith) more in
      rw (feed_loop-some n buf c q) (
        wire (c.0) ++ sent,
        rw (encode_lem (c.0) fits, en) refl,
        append_assoc (wire (c.0)) sent _ ∙ ap (λ t. wire (c.0) ++ t) whole ∙ e,
        short,
      )
]

Bytes-flatten : (reads : List (List ℕ)) → All Bytes reads → Bytes (flatten reads)
Bytes-flatten [] b = tt
Bytes-flatten (r ∷ rs) b = All-append (λ t. t < 256) r (flatten rs) b.0 (Bytes-flatten rs b.1)

-- Whatever bytes arrive, in whatever reads: those of the frames that the parser has yielded, followed by
-- those in its buffer, are the bytes that arrived, and the buffer holds fewer than a largest frame has.
pub feed_all-Keeps :
    (reads : List (List ℕ)) → All Bytes reads → Keeps (feed_all [] reads) (flatten reads)
unfolding feed
feed_all-Keeps reads b =
    rw (feed_all_whole [] reads cut_nil) (
      feed_loop-Keeps (length (flatten reads)) (flatten reads) (omega arith)
        (Bytes-flatten reads b))
