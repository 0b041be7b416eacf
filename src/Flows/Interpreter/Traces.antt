-- ===== src/Flows/Interpreter/Traces.antt =====
-- Which calls an action makes: rules for each way in which the handlers build an action.
use owen_main.Common.{
  List, [], ◌∷◌, ◌++◌, ◌≡◌, refl, sym, ap, ◌∙◌, Bool, true, false, Option, Result, ok, raise, Exc,
  All, All-append, All-imp, append_assoc, if◌then◌else◌,
}
use owen_main.Common.Json.{Dict}
use owen_main.Flows.Interpreter.Effects.{
  Call, hangup, voicemail, emit, call_summary, History, World,
}
use owen_main.Flows.Interpreter.Machine.{
  Machine, Exec, ◌>>=◌, continue, handled, pure, raising, lift, gets, modify, attempt, perform, ask,
  rec_name,
}

-- Not the one summary event.
abbrev pub Plain : Call → Type 0
Plain (emit (call_summary _ _ _ _)) = ⊥
Plain _ = Unit

-- A call after which the caller is still on the line, and no summary.
abbrev pub Quiet : Call → Type 0
Quiet hangup = ⊥
Quiet (voicemail _ _ _ _) = ⊥
Quiet (emit (call_summary _ _ _ _)) = ⊥
Quiet _ = Unit

-- From `s` to `s'` only calls with `P` were made, and the record of the path was left alone.
pub record Extends (P : Call → Type 0) (s s' : Machine) : Type 0 where
  pub made : List Call
  pub history : s'.history ≡ made ++ s.history
  pub all : All P made
  pub path : s'.path ≡ s.path
  pub steps : s'.steps ≡ s.steps
  pub last_node : s'.last_node ≡ s.last_node

pub record Only {A : Type 0} (P : Call → Type 0) (m : Exec A) : Type 0 where
  pub at : (s : Machine) → Extends P s (m s).1

module _ {P : Call → Type 0} where
  pub Extends-refl : (s : Machine) → Extends P s s
  Extends-refl s = record {
    made = [];
    history = refl;
    all = tt;
    path = refl;
    steps = refl;
    last_node = refl;
  }

  pub Extends-trans : {s t u : Machine} → Extends P s t → Extends P t u → Extends P s u
  Extends-trans {s} a b = record {
    made = b.made ++ a.made;
    history =
        b.history ∙ ap (λ h. b.made ++ h) a.history ∙ sym (append_assoc b.made a.made s.history);
    all = All-append P b.made a.made b.all a.all;
    path = b.path ∙ a.path;
    steps = b.steps ∙ a.steps;
    last_node = b.last_node ∙ a.last_node;
  }

  pub Only-pure : {A : Type 0} (a : A) → Only P (pure a)
  Only-pure a = record { at = Extends-refl }

  pub Only-raising : {A : Type 0} (e : Exc) → Only P (raising {A = A} e)
  Only-raising e = record { at = Extends-refl }

  pub Only-lift : {A : Type 0} (r : Result A) → Only P (lift r)
  Only-lift r = record { at = Extends-refl }

  pub Only-gets : {A : Type 0} (f : Machine → A) → Only P (gets f)
  Only-gets f = record { at = Extends-refl }

  pub Only-extra : (d : Option Dict) → Only P (modify (λ s. record s { event_extra = d }))
  Only-extra d = record {
    at = λ s. record {
      made = [];
      history = refl;
      all = tt;
      path = refl;
      steps = refl;
      last_node = refl;
    };
  }

  pub Only-variables : (f : Machine → Dict) → Only P (modify (λ s. record s { variables = f s }))
  Only-variables f = record {
    at = λ s. record {
      made = [];
      history = refl;
      all = tt;
      path = refl;
      steps = refl;
      last_node = refl;
    };
  }

  pub Only-extra_of :
      (f : Machine → Option Dict) → Only P (modify (λ s. record s { event_extra = f s }))
  Only-extra_of f = record {
    at = λ s. record {
      made = [];
      history = refl;
      all = tt;
      path = refl;
      steps = refl;
      last_node = refl;
    };
  }

  pub Only-rec_name : Only P rec_name
  Only-rec_name = record {
    at = λ s. record {
      made = [];
      history = refl;
      all = tt;
      path = refl;
      steps = refl;
      last_node = refl;
    };
  }

  pub Only-perform : (w : World) (c : Call) → P c → Only P (perform w c)
  Only-perform w c p = record {
    at = λ s. record {
      made = c ∷ [];
      history = refl;
      all = (p, tt);
      path = refl;
      steps = refl;
      last_node = refl;
    };
  }

  pub Only-ask :
      {A : Type 0} (w : World) (c : Call) (f : History → Result A) → P c → Only P (ask w c f)
  Only-ask w c f p = record {
    at = λ s. record {
      made = c ∷ [];
      history = refl;
      all = (p, tt);
      path = refl;
      steps = refl;
      last_node = refl;
    };
  }

  pub Only-if :
      {A : Type 0} (b : Bool) (m n : Exec A) → Only P m → Only P n → Only P (if b then m else n)
  Only-if true m n km kn = km
  Only-if false m n km kn = kn

  pub Only-else :
      {A : Type 0} (b : Bool) (m n : Exec A) → b ≡ false → Only P n → Only P (if b then m else n)
  Only-else true m n e k = cc
  Only-else false m n e k = k

  pub Only-bind :
      {A B : Type 0} (m : Exec A) (f : A → Exec B)
      → Only P m
      → ((a : A) → Only P (f a))
      → Only P (m >>= f)
  Only-bind {A} m f km kf = record { at = λ s. go s (m s).0 (m s).1 (km.at s) }
    where
      go :
          (s : Machine) (r : Result A) (s' : Machine)
          → Extends P s s'
          → Extends P s (continue r f s').1
      go s (ok a) s' e = Extends-trans e ((kf a).at s')
      go s (raise x) s' e = e

  pub Only-attempt : {A : Type 0} (m h : Exec A) → Only P m → Only P h → Only P (attempt m h)
  Only-attempt {A} m h km kh = record { at = λ s. go s (m s).0 (m s).1 (km.at s) }
    where
      go :
          (s : Machine) (r : Result A) (s' : Machine)
          → Extends P s s'
          → Extends P s (handled r h s').1
      go s (ok a) s' e = e
      go s (raise x) s' e = Extends-trans e (kh.at s')

  pub Only-weaken :
      {A : Type 0} {Q : Call → Type 0} (m : Exec A) → ((c : Call) → P c → Q c) → Only P m → Only Q m
  Only-weaken m f k = record {
    at = λ s.
        let e = k.at s in
        record {
          made = e.made;
          history = e.history;
          all = All-imp f e.made e.all;
          path = e.path;
          steps = e.steps;
          last_node = e.last_node;
        };
  }

pub ruleset only_rules = (
  Only-pure, Only-raising, Only-lift, Only-gets, Only-extra, Only-variables, Only-extra_of,
  Only-rec_name, Only-perform, Only-ask, Only-if, Only-bind, Only-attempt, tt,
)

-- What a returned value satisfies; an exception satisfies anything.
abbrev pub Holds : {A : Type 0} → (A → Type 0) → Result A → Type 0
Holds Q (ok a) = Q a
Holds Q (raise e) = Unit

pub record Returns {A : Type 0} (Q : A → Type 0) (m : Exec A) : Type 0 where
  pub at : (s : Machine) → Holds Q (m s).0

module _ {B : Type 0} {Q : B → Type 0} where
  pub Returns-pure : (b : B) → Q b → Returns Q (pure b)
  Returns-pure b q = record { at = λ s. q }

module _ {A B : Type 0} {Q : B → Type 0} where
  pub Returns-bind :
      (m : Exec A) (f : A → Exec B) → ((a : A) → Returns Q (f a)) → Returns Q (m >>= f)
  Returns-bind m f k = record { at = λ s. go (m s).0 (m s).1 }
    where
      go : (r : Result A) (s' : Machine) → Holds Q (continue r f s').0
      go (ok a) s' = (k a).at s'
      go (raise e) s' = tt

  -- The bound action's own postcondition is at hand in what follows.
  pub Returns-after :
      {R : A → Type 0} (m : Exec A) (f : A → Exec B)
      → Returns R m
      → ((a : A) → R a → Returns Q (f a))
      → Returns Q (m >>= f)
  Returns-after {R} m f h k = record { at = λ s. go (m s).0 (m s).1 (h.at s) }
    where
      go : (r : Result A) (s' : Machine) → Holds R r → Holds Q (continue r f s').0
      go (ok a) s' q = (k a q).at s'
      go (raise e) s' q = tt

module _ {B : Type 0} {Q : B → Type 0} where
  pub Returns-attempt : (m h : Exec B) → Returns Q m → Returns Q h → Returns Q (attempt m h)
  Returns-attempt m h km kh = record { at = λ s. go (m s).0 (m s).1 (km.at s) }
    where
      go : (r : Result B) (s' : Machine) → Holds Q r → Holds Q (handled r h s').0
      go (ok a) s' q = q
      go (raise e) s' q = kh.at s'
