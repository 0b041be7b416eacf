-- ===== src/Voice/Server.antt =====
-- `handle_connection` of owen-voice/app/server.py: one TCP connection from Asterisk, from its first read to its
-- close. The conversation of an agent, the socket and the texts that Python makes of bytes are parameters.
pub mod Loop
pub mod Closing
pub mod Frames
pub mod Echo
mod Examples
use Prim.Native.String.{◌++◌ as append}
use owen_main.Common.{
  ℕ, zero, suc, ◌+◌, String, List, [], ◌∷◌, ◌++◌, Bool, true, false, not, Option, none, some,
  is_some, length, str_eq, Result, ok, raise, if◌then◌else◌,
}
use owen_main.Common.Assoc.{lookup, insert}
use owen_main.Voice.AudioSocket.{
  Frame, kind_audio, is_audio, is_terminate, is_uuid, is_error, is_dtmf, encode, feed,
}
use owen_main.Voice.AudioSocket.Uuid.{uuid_str}
use owen_main.Voice.Session.{Session, Registry, peak_of, has_error}

-- What may go wrong at an await: the peer resets the connection, or anything else is raised.
pub data Fault : Type 0 where
  reset broken : Fault

-- What the handler does not implement. A conversation may change its session at each frame; its `close`
-- changes none, and may raise.
pub record World : Type 0 where
  pub clock : ℕ
  pub greets : Session → Session × Option Fault
  pub hears : List (List ℕ) → Session → Session × Result (Option String)
  pub closes : List (List ℕ) → Option Fault
  pub drains : List (List ℕ) → Option Fault
  pub ascii : List ℕ → String
  pub shown : List ℕ → String

-- The handler's variables: `session` and `convo` as the UUIDs of their sessions, what was written
-- to the socket, and the frames that the conversation has heard. A pump is a task, known by a number: the
-- variable `pump` holds the last one, `pumps` counts them, and `running` has those that were not cancelled.
-- `escaped` is what the `finally` block raises.
pub record Conn : Type 0 where
  pub sessions : Registry
  pub session : Option String
  pub pump : Option ℕ
  pub pumps : ℕ
  pub running : List ℕ
  pub convo : Option String
  pub written : List (List ℕ)
  pub heard : List (List ℕ)
  pub escaped : Option Fault

-- How the handling of a frame ends.
pub data Next : Type 0 where
  again stop : Next
  fault : Fault → Next

unfoldable pub change : String → (Session → Session) → Registry → Registry
unfolding lookup insert
change uuid f r = elim (lookup uuid r) [ none ↦ r | some s ↦ insert uuid (f s) r ]

module _ (w : World) where
  unfoldable pub start_mode : String → String → Session → Conn → Conn × Next
  unfolding insert
  start_mode mode uuid s c =
      if str_eq mode "tone"
      then (
        record c { pump = some c.pumps; pumps = suc c.pumps; running = c.pumps ∷ c.running },
        again,
      )
      else if str_eq mode "agent"
      then (
        record c { convo = some uuid; sessions = insert uuid ((w.greets s).0) c.sessions },
        elim ((w.greets s).1) [ none ↦ again | some x ↦ fault x ],
      )
      else (c, again)

  abbrev attached : Session → Session
  attached s = record s { has_writer = true; connected_at = some w.clock }

  -- With what the registry has of the UUID.
  unfoldable pub attach_found : Option Session → String → Conn → Conn × Next
  unfolding start_mode insert
  attach_found none uuid c = (record c { session = none }, stop)
  attach_found (some s) uuid c =
      start_mode s.mode uuid (attached s)
        (record c { session = some uuid; sessions = insert uuid (attached s) c.sessions })

  unfoldable pub attach : Option String → Conn → Conn × Next
  unfolding attach_found lookup
  attach none c = (record c { session = none }, stop)
  attach (some uuid) c =
      attach_found (if str_eq uuid "" then none else lookup uuid c.sessions) uuid c

  abbrev received : List ℕ → Session → Session
  received pcm s = record s {
    rx_frames = s.rx_frames + 1;
    rx_bytes = s.rx_bytes + length pcm;
    peak_amplitude = peak_of pcm s.peak_amplitude;
  }

  abbrev echoed : List ℕ → Session → Session
  echoed pcm s = record s { tx_frames = s.tx_frames + 1; tx_bytes = s.tx_bytes + length pcm }

  abbrev guarded : Session → Session
  guarded s = record s {
    result_port = elim s.result_port [
      | none ↦ some "end_call"
      | some p ↦ if str_eq p "" then some "end_call" else some p
    ];
    error = none;
  }

  -- `if ended:` and what follows.
  unfoldable pub after_hearing : String → Result (Option String) → Conn → Conn × Next
  unfolding change
  after_hearing uuid (raise x) c = (c, fault broken)
  after_hearing uuid (ok none) c = (c, again)
  after_hearing uuid (ok (some reason)) c =
      if str_eq reason ""
      then (c, again)
      else (record c { sessions = change uuid guarded c.sessions }, stop)

  unfoldable pub hear : String → List ℕ → Conn → Conn × Next
  unfolding after_hearing lookup insert
  hear uuid pcm c = elim c.convo [
    | none ↦ (c, again)
    | some talk ↦ elim (lookup talk c.sessions) [
      | none ↦ (c, again)
      | some s ↦ after_hearing uuid ((w.hears c.heard s).1) (record c {
        heard = c.heard ++ pcm ∷ [];
        sessions = insert talk ((w.hears c.heard s).0) c.sessions;
      })
    ]
  ]

  -- The echo: `writer.write(encode_audio(...))`, the counters, `writer.drain()`.
  unfoldable pub echo : String → List ℕ → Conn → Conn × Next
  unfolding encode change
  echo uuid pcm c = elim (encode (record { kind = kind_audio; payload = pcm })) [
    | raise x ↦ (c, fault broken)
    | ok bytes ↦ (
      record c {
        written = c.written ++ bytes ∷ [];
        sessions = change uuid (echoed pcm) c.sessions;
      },
      elim (w.drains (c.written ++ bytes ∷ [])) [ none ↦ again | some x ↦ fault x ],
    )
  ]

  abbrev by_mode : String → String → List ℕ → Conn → Conn × Next
  by_mode mode uuid pcm c =
      if str_eq mode "tone"
      then (c, again)
      else if str_eq mode "agent"
      then hear uuid pcm c
      else echo uuid pcm c

  unfoldable pub in_mode : Option Session → String → List ℕ → Conn → Conn × Next
  unfolding hear echo
  in_mode none uuid pcm c = (c, again)
  in_mode (some s) uuid pcm c = by_mode s.mode uuid pcm c

  unfoldable pub audio : String → List ℕ → Conn → Conn × Next
  unfolding change lookup in_mode
  audio uuid pcm c =
      in_mode (lookup uuid c.sessions) uuid pcm
        (record c { sessions = change uuid (received pcm) c.sessions })

  -- A frame that names no session, where the session is known or not.
  unfoldable pub in_call : Frame → Option String → Conn → Conn × Next
  unfolding is_audio is_dtmf is_terminate is_error audio change
  in_call f none c = (c, again)
  in_call f (some uuid) c =
      if is_audio f
      then audio uuid f.payload c
      else if is_dtmf f
      then (
        record c {
          sessions =
              change uuid (λ s. record s { dtmf = append s.dtmf (w.ascii f.payload) }) c.sessions;
        },
        again,
      )
      else if is_terminate f
      then (c, stop)
      else if is_error f
      then (
        record c {
          sessions =
              change uuid
                (λ s. record s {
                  error = some (append "asterisk error frame: " (w.shown f.payload));
                })
                c.sessions;
        },
        stop,
      )
      else (c, again)

  unfoldable pub handle_frame : Frame → Conn → Conn × Next
  unfolding is_uuid attach in_call
  handle_frame f c = if is_uuid f then attach (uuid_str f) c else in_call f c.session c
