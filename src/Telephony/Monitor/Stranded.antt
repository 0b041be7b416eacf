-- ===== src/Telephony/Monitor/Stranded.antt =====
-- A listen whose snoop raises, as that of the ARI client always does.
use owen_main.Common.{
  String, List, ◌∷◌, ◌≡◌, ◌≢◌, refl, ap, Bool, true, false, Result, ok, raise, Exc,
}
use owen_main.Common.Json.{Value}
use owen_main.Telephony.Monitor.Desk.{
  Ari, AriCall, Desk, originate, snoop, calls_of, noted, ◌>>◌, tell, hangup,
}
use owen_main.Telephony.Monitor.{listening, failed, wait_for_stasis, start_listen}

module _ (ari : Ari) (e : Exc)
    (raises : (h : List AriCall) (c : String) → ari.created h (snoop c) ≡ raise e) where
  after_answer :
      (events : List Value) (operator target linkedid channel : String) (s : Desk)
      → ari.succeeded (calls_of s.log) (originate channel operator linkedid) ≡ ok true
      → wait_for_stasis channel events ≡ true
      → start_listen ari events operator target linkedid channel s
        ≡ (raise e, noted (snoop target) (noted (originate channel operator linkedid) s))
  unfolding start_listen
  after_answer events operator target linkedid channel s h w =
      rw (h, w, raises (originate channel operator linkedid ∷ calls_of s.log) target) refl

  never_listens :
      (events : List Value) (operator target linkedid channel : String) (s : Desk) (a b c : String)
      → (start_listen ari events operator target linkedid channel s).0 ≢ ok (listening a b c)
  unfolding start_listen failed
  never_listens events operator target linkedid channel s a b c h =
      go (ari.succeeded (calls_of s.log) (originate channel operator linkedid)) refl
        (wait_for_stasis channel events) refl
    where
      unanswered :
          (t : Result (Unit {0}))
          → ari.told (originate channel operator linkedid ∷ calls_of s.log) (hangup channel) ≡ t
          → ((tell ari (hangup channel) >> failed "operator_no_answer")
              (noted (originate channel operator linkedid) s)).0
            ≡ ok (listening a b c)
          → ⊥
      unanswered (ok x) q k = cc (rw q at k)
      unanswered (raise x) q k = cc (rw q at k)

      go :
          (r : Result Bool)
          → ari.succeeded (calls_of s.log) (originate channel operator linkedid) ≡ r
          → (w : Bool) → wait_for_stasis channel events ≡ w
          → ⊥
      go (raise x) q w v = cc (rw q at h)
      go (ok false) q w v = cc (rw q at h)
      go (ok true) q true v =
          cc (ap (λ x. x.0) (after_answer events operator target linkedid channel s q v), h)
      go (ok true) q false v =
          unanswered
            (ari.told (originate channel operator linkedid ∷ calls_of s.log) (hangup channel)) refl
            (rw (q, v) at h)

  -- When the snoop raises, a supervisor never gets to listen; and when the operator's phone has been
  -- rung and answered, the exception leaves it connected: no hang-up of it follows the snoop.
  pub listen_strands_operator :
      (events : List Value) (operator target linkedid channel : String) (s : Desk)
      → ari.succeeded (calls_of s.log) (originate channel operator linkedid) ≡ ok true
      → wait_for_stasis channel events ≡ true
      → let (r, s') = start_listen ari events operator target linkedid channel s in
        ((a b c : String) → r ≢ ok (listening a b c))
        × (calls_of s'.log ≡ snoop target ∷ originate channel operator linkedid ∷ calls_of s.log)
  listen_strands_operator events operator target linkedid channel s h w = (
    never_listens events operator target linkedid channel s,
    ap (λ x. calls_of x.1.log) (after_answer events operator target linkedid channel s h w),
  )
