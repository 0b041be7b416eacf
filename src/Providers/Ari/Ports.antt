-- ===== src/Providers/Ari/Ports.antt =====
-- The ports that a dial ends with, and what `answered` means.
use owen_main.Common.{
  ℕ, String, List, [], ◌∷◌, ◌≡◌, refl, sym, ap, inl, inr, ◌⊎◌, Bool, true, false, Option, none,
  some, In, contains, Bool-cases, if◌then◌else◌,
}
use owen_main.Common.Json.{Value, Dict, int}
use owen_main.Providers.Ari.Client.{
  Platform, Client, Act, ◌>>=◌, ◌>>◌, pure, waiting, note_dial, continue, Answer, returned, stopped,
  Arrival, event, digit, silence, trouble, add_channels,
}
use owen_main.Providers.Ari.Events.{dial_cause_port}
use owen_main.Providers.Ari.Channels.{add_to_bridge, named_channels, join_all, record_bridge}
use owen_main.Providers.Ari.Dial.{when_some, talk}
use owen_main.Providers.Ari.Resources.{Granted}
use owen_main.Providers.Ari.Keeping.{Keeps, keeps_rules}
use owen_main.Providers.Ari.Dialling.{when_some-Keeps, record_bridge-Keeps}
use owen_main.Providers.Ari.Waits.{answer_step, await_dial_answer, await_bridge_end}

-- The ports of a dial that nobody answered.
abbrev pub unanswered : List String
unanswered = "busy" ∷ "noanswer" ∷ "failed" ∷ []

In-if : (b : Bool) (x y : String) (l : List String) → In x l → In y l → In (if b then x else y) l
In-if true x y l h k = h
In-if false x y l h k = k

abbrev pub StepPort : Option (String × Dict) → Type 0
StepPort none = Unit
StepPort (some found) = In found.0 ("answered" ∷ unanswered)

StepPort-if :
    (b : Bool) (x y : Option (String × Dict))
    → StepPort x
    → StepPort y
    → StepPort (if b then x else y)
StepPort-if true x y h k = h
StepPort-if false x y h k = k

abbrev pub AnswerPort : Answer (String × Dict) → Type 0
AnswerPort (returned found) = In found.0 ("answered" ∷ unanswered)
AnswerPort (stopped t) = Unit

module _ (p : Platform) where
  dial_cause_port-In : (v : Value) → In (dial_cause_port p v) ("answered" ∷ unanswered)
  unfolding dial_cause_port contains
  dial_cause_port-In (int false n) = search In-if depth 8
  dial_cause_port-In _ = refl

  answer_step-In :
      (channel out : String) (at : ℕ) (e : Dict) → StepPort (answer_step p channel out at e)
  unfolding answer_step contains
  answer_step-In channel out at e = search (StepPort-if, dial_cause_port-In, tt) depth 8

  pub await_dial_answer-In :
      (channel out : String) (arrivals : List Arrival)
      → AnswerPort (await_dial_answer p channel out arrivals).0
  unfolding await_dial_answer contains
  await_dial_answer-In channel out [] = refl
  await_dial_answer-In channel out (silence at ∷ rest) = refl
  await_dial_answer-In channel out (trouble t ∷ rest) = tt
  await_dial_answer-In channel out (digit d ∷ rest) = await_dial_answer-In channel out rest
  await_dial_answer-In channel out (event at e ∷ rest) =
      go (answer_step p channel out at e) (answer_step-In channel out at e)
        (await_dial_answer-In channel out rest)
    where
      go :
          (o : Option (String × Dict))
          → StepPort o
          → AnswerPort (await_dial_answer p channel out rest).0
          → AnswerPort
              (elim o as (λ _. Answer (String × Dict) × List Arrival) [
                | none ↦ await_dial_answer p channel out rest
                | some found ↦ (returned found, rest)
              ]).0
      go none h later = later
      go (some found) h later = h

  -- The legs were added to a bridge, which accepted them.
  abbrev pub Joined : String → String → Client → Type 0
  Joined channel out s =
      (b : String) × Granted p (add_channels b (named_channels p (channel ∷ out ∷ []))) s.requests

  abbrev pub PortEnds : String → String → String → Client → Type 0
  PortEnds channel out port s = In port unanswered ⊎ ((port ≡ "answered") × Joined channel out s)

  abbrev pub BodyEnds : String → String → Answer String → Client → Type 0
  BodyEnds channel out (returned port) s = PortEnds channel out port s
  BodyEnds channel out (stopped t) s = Unit

  -- An action that can only return "answered".
  record Answers (m : Act String) : Type 0 where
    at :
        (s : Client) (channel out : String)
        → Joined channel out (m s).1
        → BodyEnds channel out (m s).0 (m s).1

  Answers-pure : Answers (pure "answered")
  Answers-pure = record { at = λ s channel out j. inr (refl, j) }

  Answers-bind :
      {A : Type 0} (m : Act A) (f : A → Act String) → ((a : A) → Answers (f a)) → Answers (m >>= f)
  Answers-bind {A} m f k = record { at = λ s channel out. go channel out (m s).0 (m s).1 }
    where
      go :
          (channel out : String) (a : Answer A) (t : Client)
          → Joined channel out (continue a f t).1
          → BodyEnds channel out (continue a f t).0 (continue a f t).1
      go channel out (returned a) t j = (k a).at t channel out j
      go channel out (stopped x) t j = tt

  abbrev conversing : String → String → Option String → String → Act String
  conversing channel out record_name bridge = do
    when_some record_name (record_bridge p bridge)
    info ← waiting (await_bridge_end p channel out)
    note_dial info
    pure "answered"

  conversing-Ends :
      (channel out : String) (record_name : Option String) (bridge : String) (s : Client)
      → Joined channel out s
      → BodyEnds channel out
          (conversing channel out record_name bridge s).0
          (conversing channel out record_name bridge s).1
  conversing-Ends channel out record_name bridge s j =
      a.at s channel out (j.0, (k.at s).grown _ j.1)
    where
      a : Answers (conversing channel out record_name bridge)
      a = search (Answers-pure, Answers-bind) depth 8

      k : Keeps p [] (conversing channel out record_name bridge)
      k = search (keeps_rules, when_some-Keeps, record_bridge-Keeps) depth 12

  pub talk-Ends :
      (channel out : String) (record_name : Option String) (o : Option String) (s : Client)
      → BodyEnds channel out
          (talk p channel out record_name o s).0
          (talk p channel out record_name o s).1
  unfolding talk contains add_to_bridge join_all
  talk-Ends channel out record_name none s = inl refl
  talk-Ends channel out record_name (some b) s = go (named_channels p (channel ∷ out ∷ [])) refl
    where
      s1 : Client
      s1 = record s { bridge_id = some b }

      go :
          (cs : List String)
          → named_channels p (channel ∷ out ∷ []) ≡ cs
          → let m = join_all p b cs >>= (λ joined.
            if joined then conversing channel out record_name b else pure "failed") in
            BodyEnds channel out (m s1).0 (m s1).1
      go [] e = inl refl
      go (c ∷ cs) e = elim (Bool-cases (p.cuts s.requests (add_channels b (c ∷ cs)))) [
        | inl q ↦ rw q tt
        | inr q ↦ elim (Bool-cases (p.accepts s.requests (add_channels b (c ∷ cs)))) [
          | inl a ↦
              rw (q, a)
                (conversing-Ends channel out record_name b _
                  (b, inl (ap (add_channels b) (sym e), a)))
          | inr a ↦ rw (q, a) (inl refl)
        ]
      ]
