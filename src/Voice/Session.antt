-- ===== src/Voice/Session.antt =====
-- owen-voice/app/session.py: what the server keeps of a call, and the registry of sessions. The fields that
-- only the pipeline of an agent reads are left out; the times are of the monotonic clock.
use owen_main.Common.{
  ℕ, ◌+◌, ◌*◌, ◌-◌, ◌≤◌, ◌<◌, String, List, [], ◌∷◌, Bool, false, not, Option, none, some, is_some,
  ltb, ◌==◌, ◌&&◌, str_eq, All, max, arith, if◌then◌else◌,
}
use owen_main.Common.Assoc.{insert}

pub record Session : Type 0 where
  pub call_channel_id : Option String
  pub mode : String
  pub connected_at : Option ℕ
  pub closed_at : Option ℕ
  pub has_writer : Bool
  pub rx_frames : ℕ
  pub rx_bytes : ℕ
  pub tx_frames : ℕ
  pub tx_bytes : ℕ
  pub peak_amplitude : ℕ
  pub dtmf : String
  pub error : Option String
  pub turns : ℕ
  pub result_port : Option String
  pub done : Bool

unfoldable pub connected : Session → Bool
connected s = is_some s.connected_at && not (is_some s.closed_at)

-- A `MediaSession` that is made for a call, in a mode.
abbrev pub fresh : Option String → String → Session
fresh call_channel_id mode = record {
  call_channel_id = call_channel_id;
  mode = mode;
  connected_at = none;
  closed_at = none;
  has_writer = false;
  rx_frames = 0;
  rx_bytes = 0;
  tx_frames = 0;
  tx_bytes = 0;
  peak_amplitude = 0;
  dtmf = "";
  error = none;
  turns = 0;
  result_port = none;
  done = false;
}

-- `if session.error`
unfoldable pub has_error : Session → Bool
has_error s = elim s.error [ none ↦ false | some e ↦ not (str_eq e "") ]

-- The sentences of `verdict`.
pub data Verdict : Type 0 where
  failed : Option String → Verdict
  never_connected not_bridged no_turn : Verdict
  conversed : ℕ → Verdict
  no_tone : Verdict
  sent_tone : ℕ → Verdict
  silent not_echoed both_ways : Verdict

unfoldable pub verdict : Session → Verdict
unfolding has_error
verdict s =
    if has_error s
    then failed s.error
    else if not (is_some s.connected_at)
    then never_connected
    else if str_eq s.mode "agent"
    then if s.rx_frames == 0
      then not_bridged
      else if s.turns == 0
      then no_turn
      else conversed s.turns
    else if str_eq s.mode "tone"
    then if s.tx_frames == 0 then no_tone else sent_tone s.tx_frames
    else if s.rx_frames == 0
    then not_bridged
    else if s.peak_amplitude == 0
    then silent
    else if s.tx_frames == 0
    then not_echoed
    else both_ways

-- The absolute value of a signed sample of two bytes, the low one first.
unfoldable pub amplitude : ℕ → ℕ → ℕ
amplitude lo hi = let w = lo + 256 * hi in if ltb w 32768 then w else 65536 - w

-- An odd byte at the end is left over.
unfoldable pub peak_of : List ℕ → ℕ → ℕ
unfolding amplitude
peak_of [] current = current
peak_of (b ∷ []) current = current
peak_of (lo ∷ hi ∷ pcm) current =
    peak_of pcm (if ltb current (amplitude lo hi) then amplitude lo hi else current)

-- The registry: sessions by their UUID.
abbrev pub Registry : Type 0
Registry = List (String × Session)

unfoldable pub create : String → Session → Registry → Registry
unfolding insert
create uuid s r = insert uuid s r

unfoldable pub active : Registry → List Session
unfolding connected
active [] = []
active ((uuid, s) ∷ r) = let rest = active r in if connected s then s ∷ rest else rest

amplitude_bounded : (lo hi : ℕ) → lo < 256 → hi < 256 → amplitude lo hi ≤ 32768
unfolding amplitude
amplitude_bounded lo hi h k = ground arith

-- The peak is no more than the largest magnitude of 16 bits, which only the least sample has.
pub peak_of_bounded :
    (pcm : List ℕ) (current : ℕ)
    → All (λ b. b < 256) pcm
    → (current ≤ peak_of pcm current) × (peak_of pcm current ≤ max current 32768)
unfolding peak_of
peak_of_bounded [] current h = (omega arith, omega arith)
peak_of_bounded (b ∷ []) current h = (omega arith, omega arith)
peak_of_bounded (lo ∷ hi ∷ pcm) current h =
    let least = amplitude_bounded lo hi h.0 h.1.0 in
    let ih =
      peak_of_bounded pcm (if ltb current (amplitude lo hi) then amplitude lo hi else current)
        h.1.1 in
    ground (arith, least, ih)
