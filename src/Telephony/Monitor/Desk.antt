-- ===== src/Telephony/Monitor/Desk.antt =====
-- What backend/app/telephony/monitor.py acts on: the ARI client, by the calls made to it, and the
-- registry of owned calls. An action may raise, and what was done before stays done.
use owen_main.Common.{String, List, [], ◌∷◌, Bool, Option, Result, ok, raise}
use owen_main.Telephony.Ownership.{Registry}

pub data AriCall : Type 0 where
  originate : String → String → String → AriCall
  hangup : String → AriCall
  snoop : String → AriCall
  create_bridge : AriCall
  add_to_bridge : String → List String → AriCall
  destroy_bridge : String → AriCall

-- The answers of the ARI client, by the calls made before.
pub record Ari : Type 0 where
  pub told : List AriCall → AriCall → Result (Unit {0})
  pub succeeded : List AriCall → AriCall → Result Bool
  pub created : List AriCall → AriCall → Result (Option String)

-- The calls, the latest first, each with the registry at that time.
pub record Desk : Type 0 where
  pub registry : Registry
  pub log : List (AriCall × Registry)

abbrev pub Act : Type 0 → Type 0
Act A = Desk → Result A × Desk

abbrev pub continue : {A B : Type 0} → Result A → (A → Act B) → Act B
continue (ok a) f s = f a s
continue (raise e) f s = (raise e, s)

infixl 5 ◌>>=◌ ◌>>◌
abbrev pub ◌>>=◌ : {A B : Type 0} → Act A → (A → Act B) → Act B
◌>>=◌ m f s = let (r, s') = m s in continue r f s'

abbrev pub ◌>>◌ : {A B : Type 0} → Act A → Act B → Act B
m >> n = m >>= λ _. n

abbrev pub pure : {A : Type 0} → A → Act A
pure a s = (ok a, s)

-- An operation of the registry.
abbrev pub owning : {A : Type 0} → (Registry → A × Registry) → Act A
owning f s = let (a, r) = f s.registry in (ok a, record s { registry = r })

abbrev pub seen : {A : Type 0} → (Registry → A) → Act A
seen f s = (ok (f s.registry), s)

abbrev pub calls_of : List (AriCall × Registry) → List AriCall
calls_of [] = []
calls_of (c ∷ cs) = c.0 ∷ calls_of cs

abbrev pub noted : AriCall → Desk → Desk
noted c s = record s { log = (c, s.registry) ∷ s.log }

module _ (ari : Ari) where
  abbrev pub tell : AriCall → Act (Unit {0})
  tell c s = (ari.told (calls_of s.log) c, noted c s)

  abbrev pub succeeds : AriCall → Act Bool
  succeeds c s = (ari.succeeded (calls_of s.log) c, noted c s)

  abbrev pub made : AriCall → Act (Option String)
  made c s = (ari.created (calls_of s.log) c, noted c s)
