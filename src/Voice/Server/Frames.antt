-- ===== src/Voice/Server/Frames.antt =====
-- Reads of a stream amount to the frames that the parser makes of the whole.
use mathlib.Core.Path.{fun_ext}
use owen_main.Common.{ℕ, List, [], ◌∷◌, ◌++◌, map, ◌≡◌, ◌≢◌, refl, sym, ap, ◌∙◌, All}
use owen_main.Voice.AudioSocket.{Frame, feed, feed_all}
use owen_main.Voice.Server.{World, Conn, Next, again, stop, fault, handle_frame}
use owen_main.Voice.Server.Loop.{Arrival, read, then_on, handle_frames, read_loop}

then_on-again :
    (r : Conn × Next) (k : Conn → Conn × Next) (c' : Conn)
    → then_on r k ≡ (c', again)
    → (c : Conn) × (r ≡ (c, again)) × (k c ≡ (c', again))
unfolding then_on
then_on-again (c, again) k c' h = (c, refl, h)
then_on-again (c, stop) k c' h = cc (ap (λ p. p.1) h)
then_on-again (c, fault x) k c' h = cc (ap (λ p. p.1) h)

then_on_assoc :
    (r : Conn × Next) (k l : Conn → Conn × Next)
    → then_on (then_on r k) l ≡ then_on r (λ c. then_on (k c) l)
unfolding then_on
then_on_assoc (c, again) k l = refl
then_on_assoc (c, stop) k l = refl
then_on_assoc (c, fault x) k l = refl

module _ (w : World) where
  handle_frames-append :
      (fs gs : List Frame) (c : Conn)
      → handle_frames w (fs ++ gs) c ≡ then_on (handle_frames w fs c) (λ c'. handle_frames w gs c')
  unfolding handle_frames
  handle_frames-append [] gs c = refl
  handle_frames-append (f ∷ fs) gs c =
      let r = handle_frame w f c in
      ap (λ k. then_on r k) (fun_ext (λ d. handle_frames-append fs gs d))
      ∙ sym (then_on_assoc r (λ d. handle_frames w fs d) (λ d. handle_frames w gs d))

  -- Reads of which every frame is handled amount to the handling of the frames of the whole.
  pub read_loop-frames :
      (reads : List (List ℕ)) (later : List Arrival) (buf : List ℕ) (c c' : Conn)
      → All (λ r. r ≢ []) reads
      → handle_frames w ((feed_all buf reads).0) c ≡ (c', again)
      → read_loop w (map read reads ++ later) buf c ≡ read_loop w later ((feed_all buf reads).1) c'
  unfolding read_loop feed_all handle_frames
  read_loop-frames [] later buf c c' p h = ap (λ d. read_loop w later buf d) (ap (λ q. q.0) h)
  read_loop-frames ([] ∷ reads) later buf c c' p h = absurd (p.0 refl)
  read_loop-frames ((b ∷ bs) ∷ reads) later buf c c' p h =
      let fed = feed buf (b ∷ bs) in
      let (d, e, k) =
        then_on-again (handle_frames w (fed.0) c) _ c'
          (sym (handle_frames-append (fed.0) _ c) ∙ h) in
      ap (λ r. then_on r (λ q. read_loop w (map read reads ++ later) (fed.1) q)) e
      ∙ read_loop-frames reads later (fed.1) d c' p.1 k
