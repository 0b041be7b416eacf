-- ===== src/Flows/Interpreter/Machine.antt =====
-- The fields of `FlowInterpreter` (backend/app/flows/interpreter.py), and its methods as actions
-- that may raise: what was written before an exception stays written.
use owen_main.Common.{
  ℕ, suc, String, List, ◌∷◌, Option, none, some, Result, ok, raise, Exc, str_eq, take,
  if◌then◌else◌,
}
use owen_main.Common.Json.{Value, null, str, Dict}
use owen_main.Common.Print.{str_of}
use owen_main.Common.Chars.{codes, text_of}
use owen_main.Flows.Interpreter.Effects.{Call, History, World}

-- `history` holds the calls made so far, the latest first.
pub record Machine : Type 0 where
  pub variables : Dict
  pub rec_counter : ℕ
  pub event_extra : Option Dict
  pub path : List String
  pub steps : ℕ
  pub last_node : Option String
  pub history : History

abbrev pub Exec : Type 0 → Type 0
Exec A = Machine → Result A × Machine

abbrev pub continue : {A B : Type 0} → Result A → (A → Exec B) → Exec B
continue (ok a) f s = f a s
continue (raise e) f s = (raise e, s)

infixl 5 ◌>>=◌ ◌>>◌
abbrev pub ◌>>=◌ : {A B : Type 0} → Exec A → (A → Exec B) → Exec B
◌>>=◌ m f s = let (r, s') = m s in continue r f s'

abbrev pub ◌>>◌ : {A B : Type 0} → Exec A → Exec B → Exec B
m >> n = m >>= λ _. n

abbrev pub pure : {A : Type 0} → A → Exec A
pure a s = (ok a, s)

abbrev pub raising : {A : Type 0} → Exc → Exec A
raising e s = (raise e, s)

abbrev pub lift : {A : Type 0} → Result A → Exec A
lift r s = (r, s)

abbrev pub gets : {A : Type 0} → (Machine → A) → Exec A
gets f s = (ok (f s), s)

abbrev pub modify : (Machine → Machine) → Exec (Unit {0})
modify f s = (ok tt, f s)

abbrev pub handled : {A : Type 0} → Result A → Exec A → Exec A
handled (ok a) h s = (ok a, s)
handled (raise e) h s = h s

-- `try: m except Exception: h`
abbrev pub attempt : {A : Type 0} → Exec A → Exec A → Exec A
attempt m h s = let (r, s') = m s in handled r h s'

-- A call of a collaborator is noted whether it returns or raises.
abbrev pub noted : Call → Machine → Machine
noted c s = record s { history = c ∷ s.history }

module _ (w : World) where
  abbrev pub perform : Call → Exec (Unit {0})
  perform c s = (w.act s.history c, noted c s)

  -- A call whose answer the handler uses.
  abbrev pub ask : {A : Type 0} → Call → (History → Result A) → Exec A
  ask c answer s = (answer s.history, noted c s)

  -- `_safe_hangup`
  unfoldable pub safe_hangup : Exec (Unit {0})
  safe_hangup = attempt (perform Call.hangup) (pure tt)

abbrev pub set_extra : Dict → Exec (Unit {0})
set_extra d = modify (λ s. record s { event_extra = some d })

-- `_rec_name`: the number that makes the name unique in the call; the tag is that of the node.
abbrev pub rec_name : Exec ℕ
rec_name s = (ok (suc s.rec_counter), record s { rec_counter = suc s.rec_counter })

-- `_ERROR`: a NUL and `__error__`.
abbrev pub error_port : String
error_port = "\0__error__"

-- `_snap`
unfoldable pub snap : Value → String
snap null = ""
snap v = text_of (take 200 (codes (str_of v)))

-- `_port_label`
unfoldable pub port_label : Option String → Value
port_label none = null
port_label (some p) = if str_eq p error_port then str "error" else str p
