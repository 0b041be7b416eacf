-- ===== src/Voice/AudioSocket.antt =====
-- owen-voice/app/audiosocket.py: the frames of the AudioSocket protocol, as lists of bytes.
pub mod Uuid
pub mod Stream
pub mod Wire
pub mod Kept
mod Examples
use owen_main.Common.{
  ℕ, zero, suc, ◌+◌, ◌*◌, ◌/◌, ◌%◌, List, [], ◌∷◌, ◌++◌, Bool, true, false, ◌||◌, Option, none,
  some, ltb, ◌==◌, length, take, drop, Result, ok, raise, value_error, ◌>>=◌, if◌then◌else◌,
}

abbrev pub kind_terminate : ℕ
kind_terminate = 0

abbrev pub kind_uuid : ℕ
kind_uuid = 1

abbrev pub kind_audio : ℕ
kind_audio = 16

abbrev pub kind_error : ℕ
kind_error = 255

abbrev pub header_len : ℕ
header_len = 3

abbrev pub max_payload : ℕ
max_payload = 65535

pub record Frame : Type 0 where
  pub kind : ℕ
  pub payload : List ℕ

unfoldable pub is_audio : Frame → Bool
is_audio f = f.kind == kind_audio

unfoldable pub is_terminate : Frame → Bool
is_terminate f = f.kind == kind_terminate

unfoldable pub is_uuid : Frame → Bool
is_uuid f = f.kind == kind_uuid

unfoldable pub is_error : Frame → Bool
is_error f = f.kind == kind_error

unfoldable pub is_dtmf : Frame → Bool
is_dtmf f = (f.kind == 2) || (f.kind == 3)

unfoldable pub encode : Frame → Result (List ℕ)
encode f =
    if ltb max_payload (length f.payload)
    then raise value_error
    else ok ((f.kind % 256) ∷ (length f.payload / 256) ∷ (length f.payload % 256) ∷ f.payload)

-- The frames of a sender, one after the other.
unfoldable pub encode_all : List Frame → Result (List ℕ)
unfolding encode
encode_all [] = ok []
encode_all (f ∷ fs) = do here ← encode f; rest ← encode_all fs; ok (here ++ rest)

-- The first frame of the buffer, if it is complete, and what is left.
unfoldable pub cut : List ℕ → Option (Frame × List ℕ)
cut [] = none
cut (k ∷ []) = none
cut (k ∷ hi ∷ []) = none
cut (k ∷ hi ∷ lo ∷ rest) =
    let size = hi * 256 + lo in
    if ltb (length rest) size
    then none
    else some (record { kind = k; payload = take size rest }, drop size rest)

-- The loop of `feed`, on fuel: the frames that it yields, and the buffer after them.
unfoldable pub feed_loop : ℕ → List ℕ → List Frame × List ℕ
unfolding cut
feed_loop zero buf = ([], buf)
feed_loop (suc n) buf = elim (cut buf) [
  | none ↦ ([], buf)
  | some c ↦ let more = feed_loop n (c.1) in (c.0 ∷ more.0, more.1)
]

-- Each round takes a byte at least.
unfoldable pub feed : List ℕ → List ℕ → List Frame × List ℕ
unfolding feed_loop
feed buf received = let whole = buf ++ received in feed_loop (length whole) whole

-- One `feed` after the other, each consumed to its end.
unfoldable pub feed_all : List ℕ → List (List ℕ) → List Frame × List ℕ
unfolding feed
feed_all buf [] = ([], buf)
feed_all buf (c ∷ cs) =
    let now = feed buf c in let later = feed_all (now.1) cs in (now.0 ++ later.0, later.1)
