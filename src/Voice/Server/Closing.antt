-- ===== src/Voice/Server/Closing.antt =====
-- A connection that ends settles its session, however it ends.
use mathlib.Core.Path.{subst}
use owen_main.Common.{
  ℕ, String, List, ◌∷◌, ◌≡◌, ◌≢◌, refl, sym, ap, ◌∙◌, Bool, true, false, Option, none, some,
  is_some, str_eq, eq_iff, All, if◌then◌else◌,
}
use owen_main.Common.Assoc.{lookup, lookup-insert_hit}
use owen_main.Voice.AudioSocket.{Frame, is_uuid}
use owen_main.Voice.AudioSocket.Uuid.{uuid_str}
use owen_main.Voice.Session.{Session, Registry}
use owen_main.Voice.Server.{
  World, Conn, stop, Fault, change, handle_frame, in_call, attach, attach_found,
}
use owen_main.Voice.Server.Loop.{
  then_on, handle_frames, settle, in_session, stop_pump, close_convo, settled_unless, finish, close,
}

-- A change of a session that is there.
pub lookup-change :
    (id : String) (f : Session → Session) (r : Registry) (s : Session)
    → lookup id r ≡ some s
    → lookup id (change id f r) ≡ some (f s)
unfolding change
lookup-change id f r s q = rw (q, change) (lookup-insert_hit id id (f s) r ((eq_iff id id).1 refl))

neither : (b : Bool) → ◌≡◌ {A = Option Session} (if b then none else none) none
neither true = refl
neither false = refl

module _ (w : World) where
  abbrev pub Settled : Session → Type 0
  Settled t =
      (t.done ≡ true)
      × (is_some t.result_port ≡ true)
      × (t.closed_at ≡ some w.clock)
      × (t.has_writer ≡ false)

  -- The pump that the handler knows of does not run.
  abbrev pub Stopped : Conn → Type 0
  Stopped c = (k : ℕ) → c.pump ≡ some k → All (λ j. j ≢ k) c.running

  -- Without a conversation nothing stands in the way.
  pub finish-alone :
      (c : Conn)
      → c.convo ≡ none
      → ((finish w c).written ≡ c.written)
        × ((finish w c).sessions ≡ in_session (settle w) c.session c.sessions)
  unfolding finish settled_unless stop_pump close_convo
  finish-alone c e =
      subst
        (λ o.
          let d = settled_unless w (close_convo w o c) (stop_pump w c.pump c) in
          (d.written ≡ c.written) × (d.sessions ≡ in_session (settle w) c.session c.sessions))
        (sym e) (go c.pump)
    where
      go :
          (k : Option ℕ)
          → let d = settled_unless w none (stop_pump w k c) in
            (d.written ≡ c.written) × (d.sessions ≡ in_session (settle w) c.session c.sessions)
      go none = (refl, refl)
      go (some k) = (refl, refl)

  -- Without a session none is settled.
  finish-sessions : (c : Conn) → c.session ≡ none → (finish w c).sessions ≡ c.sessions
  unfolding finish settled_unless stop_pump in_session
  finish-sessions c e = go (close_convo w c.convo c) c.pump
    where
      go :
          (o : Option Fault) (k : Option ℕ)
          → (settled_unless w o (stop_pump w k c)).sessions ≡ c.sessions
      go (some x) none = refl
      go (some x) (some k) = refl
      go none none = ap (λ m. in_session (settle w) m c.sessions) e
      go none (some k) = ap (λ m. in_session (settle w) m c.sessions) e

  attach_unknown :
      (m : Option String) (c : Conn)
      → ((id : String) → m ≡ some id → lookup id c.sessions ≡ none)
      → attach w m c ≡ (record c { session = none }, stop)
  unfolding attach attach_found
  attach_unknown none c h = refl
  attach_unknown (some id) c h =
      ap (λ o. attach_found w (if str_eq id "" then none else o) id c) (h id refl)
      ∙ ap (λ o. attach_found w o id c) (neither (str_eq id ""))

  -- A frame that names no session in the registry ends the connection, and every session of the registry
  -- stays as it was, unsettled if it was so: also the one that this connection served until then.
  pub handle_connection_abandons :
      (f : Frame) (fs : List Frame) (c : Conn)
      → is_uuid f ≡ true
      → ((id : String) → uuid_str f ≡ some id → lookup id c.sessions ≡ none)
      → let r = handle_frames w (f ∷ fs) c in
        (r.1 ≡ stop) × ((close w (r.0) (r.1)).sessions ≡ c.sessions)
  unfolding handle_frames handle_frame attach close in_session then_on
  handle_connection_abandons f fs c u h =
      let e : handle_frame w f c ≡ (record c { session = none }, stop) =
        ap (λ b. if b then attach w (uuid_str f) c else in_call w f c.session c) u
        ∙ attach_unknown (uuid_str f) c h in
      subst
        (λ d.
          let r = then_on d (λ c'. handle_frames w fs c') in
          (r.1 ≡ stop) × ((close w (r.0) (r.1)).sessions ≡ c.sessions))
        (sym e) (refl, finish-sessions (record c { session = none }) refl)
