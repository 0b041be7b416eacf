-- ===== src/Voice/Server/Loop.antt =====
-- The loop of `handle_connection` over what arrives, and what its `finally` does. A session
-- stays in the registry while its connection is open; the socket is not shown closed.
use owen_main.Common.{
  ℕ, String, List, [], ◌∷◌, Bool, true, false, Option, none, some, ◌==◌, if◌then◌else◌,
}
use owen_main.Voice.AudioSocket.{Frame, feed}
use owen_main.Voice.Session.{Session, Registry, has_error}
use owen_main.Voice.Server.{
  World, Fault, reset, broken, Conn, Next, again, stop, fault, change, handle_frame,
}

-- What an await for the next bytes brings: bytes, none of them where the peer has closed, the end of the
-- time for the UUID, or an exception.
pub data Arrival : Type 0 where
  read : List ℕ → Arrival
  timed_out : Arrival
  raised : Fault → Arrival

abbrev pub opened : Registry → Conn
opened sessions = record {
  sessions = sessions;
  session = none;
  pump = none;
  pumps = 0;
  running = [];
  convo = none;
  written = [];
  heard = [];
  escaped = none;
}

-- What follows a step that neither returned nor raised.
unfoldable pub then_on : Conn × Next → (Conn → Conn × Next) → Conn × Next
then_on (c, again) k = k c
then_on (c, stop) k = (c, stop)
then_on (c, fault x) k = (c, fault x)

-- The wait has a limit only until the session is known.
unfoldable pub waited : Conn → Conn × Next
waited c = (c, elim c.session [ none ↦ stop | some uuid ↦ again ])

-- `if session is not None: ...`
unfoldable pub in_session : (Session → Session) → Option String → Registry → Registry
unfolding change
in_session f none r = r
in_session f (some uuid) r = change uuid f r

-- `if session.result_port is None: ...`
unfoldable pub port_at_close : Bool → Option String → Option String
port_at_close errored none = some (if errored then "failed" else "default")
port_at_close errored (some p) = some p

-- The tasks but for that one.
unfoldable pub others : ℕ → List ℕ → List ℕ
others k [] = []
others k (j ∷ js) = let rest = others k js in if j == k then rest else j ∷ rest

module _ (w : World) where
  unfoldable pub handle_frames : List Frame → Conn → Conn × Next
  unfolding handle_frame then_on
  handle_frames [] c = (c, again)
  handle_frames (f ∷ fs) c = then_on (handle_frame w f c) (λ c'. handle_frames fs c')

  -- `again` at the end says that the connection is still open.
  unfoldable pub read_loop : List Arrival → List ℕ → Conn → Conn × Next
  unfolding handle_frames feed waited then_on
  read_loop [] buf c = (c, again)
  read_loop (read [] ∷ later) buf c = (c, stop)
  read_loop (read (b ∷ bs) ∷ later) buf c =
      let fed = feed buf (b ∷ bs) in
      then_on (handle_frames (fed.0) c) (λ c'. read_loop later (fed.1) c')
  read_loop (timed_out ∷ later) buf c = then_on (waited c) (λ c'. read_loop later buf c')
  read_loop (raised x ∷ later) buf c = (c, fault x)

  -- `except Exception`
  unfoldable pub note_fault : Fault → Session → Session
  note_fault broken s = record s { error = some "handler exception" }
  note_fault reset s = s

  unfoldable pub settle : Session → Session
  unfolding has_error port_at_close
  settle s = record s {
    closed_at = some w.clock;
    has_writer = false;
    result_port = port_at_close (has_error s) s.result_port;
    done = true;
  }

  -- `except Exception`, which is told of the session that is known
  unfoldable pub noted : Fault → Conn → Conn
  unfolding in_session note_fault
  noted x c = record c { sessions = in_session (note_fault x) c.session c.sessions }

  -- `if pump is not None: pump.cancel()`
  unfoldable pub stop_pump : Option ℕ → Conn → Conn
  unfolding others
  stop_pump none c = c
  stop_pump (some k) c = record c { running = others k c.running }

  -- `if convo is not None: await convo.close()`
  unfoldable pub close_convo : Option String → Conn → Option Fault
  close_convo none c = none
  close_convo (some talk) c = w.closes c.heard

  -- The rest of `finally`: where that raised, the session is not settled.
  unfoldable pub settled_unless : Option Fault → Conn → Conn
  unfolding in_session settle
  settled_unless none c = record c { sessions = in_session settle c.session c.sessions }
  settled_unless (some x) c = record c { escaped = some x }

  -- `finally`
  unfoldable pub finish : Conn → Conn
  unfolding stop_pump close_convo settled_unless
  finish c = settled_unless (close_convo c.convo c) (stop_pump c.pump c)

  -- What follows the loop.
  unfoldable pub close : Conn → Next → Conn
  unfolding noted finish
  close c again = c
  close c (fault x) = finish (noted x c)
  close c stop = finish c

  unfoldable pub handle_connection : List Arrival → Registry → Conn
  unfolding read_loop close
  handle_connection arrivals sessions =
      let end = read_loop arrivals [] (opened sessions) in close (end.0) (end.1)
