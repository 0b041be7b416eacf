-- ===== src/Voice/Server/Examples.antt =====
-- A caller in echo mode says two frames, which arrive in three reads.
use owen_main.Common.{
  ℕ, String, List, [], ◌∷◌, ◌++◌, map, ◌≡◌, ◌≢◌, refl, true, false, none, some, ok,
}
use owen_main.Common.Assoc.{lookup}
use owen_main.Voice.AudioSocket.{Frame, encode_all}
use owen_main.Voice.AudioSocket.Uuid.{uuid_str}
use owen_main.Voice.Session.{Session, Registry, fresh}
use owen_main.Voice.Server.{World, stop}
use owen_main.Voice.Server.Loop.{Arrival, read, opened, handle_frames, handle_connection, close}
use owen_main.Voice.Server.Closing.{handle_connection_abandons}
use owen_main.Voice.Server.Echo.{Echoed, handle_connection_echoes}

abbrev quiet : World
quiet = record {
  clock = 7;
  greets = λ s. (s, none);
  hears = λ fs s. (s, ok none);
  closes = λ hs. none;
  drains = λ ws. none;
  ascii = λ p. "";
  shown = λ p. "";
}

abbrev naming : Frame
naming = record {
  kind = 1;
  payload = 0 ∷ 1 ∷ 2 ∷ 3 ∷ 4 ∷ 5 ∷ 6 ∷ 7 ∷ 8 ∷ 9 ∷ 10 ∷ 11 ∷ 12 ∷ 13 ∷ 14 ∷ 15 ∷ [];
}

abbrev name : String
name = "00010203-0405-0607-0809-0a0b0c0d0e0f"

abbrev caller : Session
caller = fresh (some "PJSIP/1") "echo"

abbrev known : Registry
known = (name, caller) ∷ []

abbrev pieces : List (List ℕ)
pieces =
    (1 ∷ 0 ∷ [])
    ∷ (16 ∷ 0 ∷ 1 ∷ 2 ∷ 3 ∷ 4 ∷ 5 ∷ 6 ∷ 7 ∷ 8 ∷ 9 ∷ 10 ∷ 11 ∷ 12 ∷ 13 ∷ 14 ∷ 15 ∷ 16 ∷ 0 ∷ 2 ∷ 1
        ∷ [])
    ∷ (255 ∷ 16 ∷ 0 ∷ 1 ∷ 9 ∷ [])
    ∷ []

abbrev said : List (List ℕ)
said = (1 ∷ 255 ∷ []) ∷ (9 ∷ []) ∷ []

abbrev whole : List ℕ
whole =
    1 ∷ 0 ∷ 16 ∷ 0 ∷ 1 ∷ 2 ∷ 3 ∷ 4 ∷ 5 ∷ 6 ∷ 7 ∷ 8 ∷ 9 ∷ 10 ∷ 11 ∷ 12 ∷ 13 ∷ 14 ∷ 15 ∷ 16 ∷ 0 ∷ 2
    ∷ 1 ∷ 255 ∷ 16 ∷ 0 ∷ 1 ∷ 9 ∷ []

no_nil : (x : ℕ) (xs : List ℕ) → (x ∷ xs) ≢ []
no_nil x xs = λ e. cc e

handle_connection_echoes_example :
    Echoed name caller said (handle_connection quiet (map read pieces ++ read [] ∷ []) known)
unfolding uuid_str lookup encode_all
handle_connection_echoes_example =
    handle_connection_echoes quiet (λ ws. refl) known naming said whole pieces name caller refl refl
      refl refl refl refl refl (no_nil _ _, (no_nil _ _, (no_nil _ _, tt)))

-- The caller hangs up right after the session is named.
abbrev after_name : Session
after_name = record caller {
  has_writer = false;
  connected_at = some 7;
  closed_at = some 7;
  result_port = some "default";
  done = true;
}

abbrev just_named : List Arrival
just_named = read (1 ∷ 0 ∷ 16 ∷ naming.payload) ∷ []

-- A second name that the registry does not have, while the caller is served.
handle_connection_abandons_example :
    let r =
      handle_frames quiet
        (record naming { payload = [] } ∷ [])
        (record (opened known) { session = some name }) in
    (r.1 ≡ stop) × ((close quiet (r.0) (r.1)).sessions ≡ known)
unfolding uuid_str
handle_connection_abandons_example =
    handle_connection_abandons quiet (record naming { payload = [] }) []
      (record (opened known) { session = some name }) refl (λ id e. cc e)
