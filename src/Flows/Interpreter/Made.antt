-- ===== src/Flows/Interpreter/Made.antt =====
-- The calls made between two states of a run, and how a run may leave the line.
use owen_main.Common.{
  List, [], ◌∷◌, ◌++◌, ◌≡◌, refl, sym, ap, ◌∙◌, Result, ok, raise, All, All-append, All-imp,
  append_assoc,
}
use owen_main.Flows.Interpreter.Effects.{Call, hangup, Reason, terminal, stood_down, Reason}
use owen_main.Flows.Interpreter.Machine.{Machine, noted}
use owen_main.Flows.Interpreter.Run.{Next, ended, onward}
use owen_main.Flows.Interpreter.Traces.{Quiet, Plain, Extends}
use owen_main.Flows.Interpreter.Quiet.{Plain-of-Quiet}

-- The calls made from `s` to `s'` all have `P`.
pub record Made (P : Call → Type 0) (s s' : Machine) : Type 0 where
  pub made : List Call
  pub history : s'.history ≡ made ++ s.history
  pub all : All P made

pub Made-refl : {P : Call → Type 0} (s : Machine) → Made P s s
Made-refl s = record { made = []; history = refl; all = tt }

pub Made-trans : {P : Call → Type 0} {s t u : Machine} → Made P s t → Made P t u → Made P s u
Made-trans {P} {s} a b = record {
  made = b.made ++ a.made;
  history =
      b.history ∙ ap (λ h. b.made ++ h) a.history ∙ sym (append_assoc b.made a.made s.history);
  all = All-append P b.made a.made b.all a.all;
}

pub Made-noted : {P : Call → Type 0} (c : Call) (s : Machine) → P c → Made P s (noted c s)
Made-noted c s p = record { made = c ∷ []; history = refl; all = (p, tt) }

pub Made-Plain : {s t : Machine} → Made Quiet s t → Made Plain s t
Made-Plain a = record {
  made = a.made;
  history = a.history;
  all = All-imp Plain-of-Quiet a.made a.all;
}

pub Made-of-Extends : {P : Call → Type 0} {s t : Machine} → Extends P s t → Made P s t
Made-of-Extends e = record { made = e.made; history = e.history; all = e.all }

-- The final hangup is the last call.
pub record HungUp (s : Machine) : Type 0 where
  pub before : List Call
  pub history : s.history ≡ hangup ∷ before

-- Who has the call when a run ends for a reason: someone else took it, a node of the graph ended
-- it, or the run itself had to.
pub data Class : Type 0 where
  handed finished dropped : Class

abbrev pub class_of : Reason → Class
class_of (stood_down _) = handed
class_of terminal = finished
class_of _ = dropped

-- With the call handed over nothing was done to the line; a run that has to end the call hangs up.
abbrev pub Fate : Class → Machine → Machine → Type 0
Fate handed s s' = Made Quiet s s'
Fate finished s s' = Made Plain s s'
Fate dropped s s' = Made Plain s s' × HungUp s'

abbrev pub NextFate : Machine → Result Next → Machine → Type 0
NextFate s (ok (onward v f)) s' = Made Quiet s s'
NextFate s (ok (ended reason)) s' = Fate (class_of reason) s s'
NextFate s (raise e) s' = Made Plain s s'
