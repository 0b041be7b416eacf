-- ===== src/Voice/Server/Echo.antt =====
-- A session in echo mode hears what it says, whole and in order, however the network cuts the stream.
use mathlib.Core.Path.{subst}
use owen_main.Common.{
  ℕ, suc, ◌+◌, ◌≤◌, ◌<◌, String, List, [], ◌∷◌, ◌++◌, map, ◌≡◌, ◌≢◌, refl, sym, ap, ◌∙◌, true,
  false, none, some, append_assoc, append-nil, length, flatten, All, str_eq, eq_iff, ok, arith,
  if◌then◌else◌,
}
use owen_main.Common.Assoc.{lookup, insert, lookup-insert_hit}
use owen_main.Voice.AudioSocket.{Frame, kind_audio, max_payload, is_uuid, encode_all}
use owen_main.Voice.AudioSocket.Uuid.{uuid_str}
use owen_main.Voice.AudioSocket.Wire.{wire, encode_lem, encode_all-fits, feed_all-encode_all}
use owen_main.Voice.Session.{Session, Registry}
use owen_main.Voice.Server.{
  World, Conn, again, stop, change, received, echoed, echo, attach, attach_found, attached,
  start_mode, in_mode, by_mode, in_call, handle_frame,
}
use owen_main.Voice.Server.Loop.{
  read, opened, then_on, handle_frames, read_loop, settle, in_session, close, handle_connection,
}
use owen_main.Voice.Server.Frames.{read_loop-frames}
use owen_main.Voice.Server.Closing.{lookup-change, finish-alone}

abbrev pub voice : List ℕ → Frame
voice pcm = record { kind = kind_audio; payload = pcm }

abbrev pub Echoed : String → Session → List (List ℕ) → Conn → Type 0
Echoed id s pcms c =
    (c.written ≡ map (λ p. wire (voice p)) pcms)
    × ((t : Session) × (lookup id c.sessions ≡ some t)
        × (t.rx_frames ≡ s.rx_frames + length pcms)
        × (t.tx_frames ≡ s.tx_frames + length pcms))

voices : (pcms : List (List ℕ)) → All (λ f. f.kind < 256) (map voice pcms)
voices [] = tt
voices (p ∷ ps) = (omega arith, voices ps)

payloads :
    (pcms : List (List ℕ))
    → All (λ f. length f.payload ≤ max_payload) (map voice pcms)
    → All (λ p. length p ≤ max_payload) pcms
payloads [] h = tt
payloads (p ∷ ps) h = (h.0, payloads ps h.1)

module _ (w : World) where
  -- What a session in echo mode has after `n` more frames.
  pub record Echoing (id : String) (s : Session) (out : List (List ℕ)) (n : ℕ) (c : Conn)
      : Type 0 where
    pub known : c.session ≡ some id
    pub alone : c.convo ≡ none
    pub now : Session
    pub found : lookup id c.sessions ≡ some now
    pub echo_mode : now.mode ≡ "echo"
    pub wrote : c.written ≡ out
    pub heard : now.rx_frames ≡ s.rx_frames + n
    pub said : now.tx_frames ≡ s.tx_frames + n

  closed :
      (id : String) (s : Session) (pcms : List (List ℕ)) (c : Conn)
      → Echoing id s (map (λ p. wire (voice p)) pcms) (length pcms) c
      → Echoed id s pcms (close w c stop)
  unfolding close in_session settle
  closed id s pcms c e = (
    (finish-alone w c e.alone).0 ∙ e.wrote,
    (
      settle w e.now,
      ap (lookup id) (finish-alone w c e.alone).1
          ∙ ap (λ m. lookup id (in_session (λ t. settle w t) m c.sessions)) e.known
          ∙ lookup-change id (λ t. settle w t) c.sessions e.now e.found,
      e.heard,
      e.said,
    ),
  )

  audio_lem :
      (id : String) (pcm : List ℕ) (c : Conn) (s : Session)
      → c.session ≡ some id
      → lookup id c.sessions ≡ some s
      → s.mode ≡ "echo"
      → handle_frame w (voice pcm) c
        ≡ echo w id pcm (record c { sessions = change id (received w pcm) c.sessions })
  unfolding handle_frame in_mode
  audio_lem id pcm c s k q m =
      let c' : Conn = record c { sessions = change id (received w pcm) c.sessions } in
      ap (λ t. in_call w (voice pcm) t c) k
      ∙ ap (λ o. in_mode w o id pcm c') q
      ∙ ap (λ t. by_mode w t id pcm c') m

  module _ (drained : (ws : List (List ℕ)) → w.drains ws ≡ none) where
    echo_lem :
        (id : String) (pcm : List ℕ) (c : Conn)
        → length pcm ≤ max_payload
        → echo w id pcm c ≡ (
          record c {
            written = c.written ++ wire (voice pcm) ∷ [];
            sessions = change id (echoed w pcm) c.sessions;
          },
          again,
        )
    unfolding echo
    echo_lem id pcm c h =
        rw
          (
            encode_lem (voice pcm) (omega arith, h),
            drained (c.written ++ wire (voice pcm) ∷ []),
            echo,
          )
          refl

    -- One more frame of audio.
    step :
        (id : String) (s : Session) (out : List (List ℕ)) (n : ℕ) (pcm : List ℕ) (c : Conn)
        → length pcm ≤ max_payload
        → Echoing id s out n c
        → (c' : Conn) × (handle_frame w (voice pcm) c ≡ (c', again))
          × Echoing id s (out ++ wire (voice pcm) ∷ []) (n + 1) c'
    step id s out n pcm c fits e =
        let c₁ : Conn = record c { sessions = change id (received w pcm) c.sessions } in
        let found₁ = lookup-change id (received w pcm) c.sessions e.now e.found in
        (
          record c₁ {
            written = c₁.written ++ wire (voice pcm) ∷ [];
            sessions = change id (echoed w pcm) c₁.sessions;
          },
          audio_lem id pcm c e.now e.known e.found e.echo_mode ∙ echo_lem id pcm c₁ fits,
          record {
            known = e.known;
            alone = e.alone;
            now = echoed w pcm (received w pcm e.now);
            found = lookup-change id (echoed w pcm) c₁.sessions (received w pcm e.now) found₁;
            echo_mode = e.echo_mode;
            wrote = ap (λ t. t ++ wire (voice pcm) ∷ []) e.wrote;
            heard = omega (arith, e.heard);
            said = omega (arith, e.said);
          },
        )

    steps :
        (id : String) (s : Session) (pcms : List (List ℕ)) (out : List (List ℕ)) (n : ℕ) (c : Conn)
        → All (λ p. length p ≤ max_payload) pcms
        → Echoing id s out n c
        → (c' : Conn) × (handle_frames w (map voice pcms) c ≡ (c', again))
          × Echoing id s (out ++ map (λ p. wire (voice p)) pcms) (n + length pcms) c'
    unfolding handle_frames
    steps id s [] out n c h e = (
      c,
      refl,
      subst (λ t. Echoing id s t (n + 0) c) (sym (append-nil out))
          (subst (λ k. Echoing id s out k c) (omega arith) e),
    )
    steps id s (p ∷ ps) out n c h e =
        let (d, q, e₁) = step id s out n p c h.0 e in
        let (d', q', e₂) = steps id s ps (out ++ wire (voice p) ∷ []) (n + 1) d h.1 e₁ in
        (
          d',
          ap (λ r. then_on r (λ t. handle_frames w (map voice ps) t)) q ∙ q',
          subst (λ t. Echoing id s t (n + suc (length ps)) d')
              (append_assoc out (wire (voice p) ∷ []) (map (λ t. wire (voice t)) ps))
              (subst
                (λ k.
                  Echoing id s ((out ++ wire (voice p) ∷ []) ++ map (λ t. wire (voice t)) ps) k d')
                (omega arith) e₂),
        )

    -- The frame that names a session of echo mode.
    named :
        (sessions : Registry) (f : Frame) (id : String) (s : Session)
        → is_uuid f ≡ true
        → uuid_str f ≡ some id
        → str_eq id "" ≡ false
        → lookup id sessions ≡ some s
        → s.mode ≡ "echo"
        → (c : Conn) × (handle_frame w f (opened sessions) ≡ (c, again)) × Echoing id s [] 0 c
    unfolding handle_frame attach attach_found start_mode
    named sessions f id s u e n q m =
        let o = opened sessions in
        let c : Conn = record o {
          session = some id;
          sessions = insert id (attached w s) sessions;
        } in
        (
          c,
          ap (λ b. if b then attach w (uuid_str f) o else in_call w f none o) u
              ∙ ap (λ t. attach w t o) e
              ∙ ap (λ b. attach_found w (if b then none else lookup id sessions) id o) n
              ∙ ap (λ t. attach_found w t id o) q
              ∙ ap (λ t. start_mode w t id (attached w s) c) m,
          record {
            known = refl;
            alone = refl;
            now = attached w s;
            found = lookup-insert_hit id id (attached w s) sessions ((eq_iff id id).1 refl);
            echo_mode = m;
            wrote = refl;
            heard = omega arith;
            said = omega arith;
          },
        )

    -- All of it, up to the close.
    handled :
        (sessions : Registry) (f : Frame) (pcms : List (List ℕ)) (id : String) (s : Session)
        → (d : Conn) × (handle_frame w f (opened sessions) ≡ (d, again)) × Echoing id s [] 0 d
        → All (λ p. length p ≤ max_payload) pcms
        → (c : Conn) × (handle_frames w (f ∷ map voice pcms) (opened sessions) ≡ (c, again))
          × Echoing id s (map (λ p. wire (voice p)) pcms) (length pcms) c
    unfolding handle_frames
    handled sessions f pcms id s (d, q, e) fits =
        let (c, q', e') = steps id s pcms [] 0 d fits e in
        (
          c,
          ap (λ r. then_on r (λ t. handle_frames w (map voice pcms) t)) q ∙ q',
          subst (λ k. Echoing id s (map (λ p. wire (voice p)) pcms) k c) (omega arith) e',
        )

    -- A peer names a session of echo mode, sends frames of audio and closes. However the network cuts what it
    -- sends into reads, if no write fails then each frame is written back, in order and as `encode` writes it,
    -- and the session has received and sent as many frames more as were sent to it.
    pub handle_connection_echoes :
        (sessions : Registry) (f : Frame) (pcms : List (List ℕ)) (bytes : List ℕ)
        (reads : List (List ℕ)) (id : String) (s : Session)
        → is_uuid f ≡ true
        → uuid_str f ≡ some id
        → str_eq id "" ≡ false
        → lookup id sessions ≡ some s
        → s.mode ≡ "echo"
        → encode_all (f ∷ map voice pcms) ≡ ok bytes
        → flatten reads ≡ bytes
        → All (λ r. r ≢ []) reads
        → let c = handle_connection w (map read reads ++ read [] ∷ []) sessions in
          Echoed id s pcms c
    unfolding handle_connection read_loop is_uuid
    handle_connection_echoes sessions f pcms bytes reads id s u e n q m en fl p =
        let kinds = voices pcms in
        let (fit, fits) = encode_all-fits (f ∷ map voice pcms) bytes en in
        let (c, h, e₂) =
          handled sessions f pcms id s (named sessions f id s u e n q m) (payloads pcms fits) in
        let heard =
          feed_all-encode_all (f ∷ map voice pcms) bytes reads (ground (arith, u), kinds) en fl in
        let end =
          read_loop-frames w reads (read [] ∷ []) [] (opened sessions) c p
            (ap (λ r. handle_frames w (r.0) (opened sessions)) heard ∙ h) in
        subst (λ r. Echoed id s pcms (close w (r.0) (r.1))) (sym end) (closed id s pcms c e₂)
