-- ===== src/Flows/Dtmf/Watching.antt =====
-- What is watched is given up again: no queue stays behind in the registry.
use owen_main.Common.{
  ℕ, ◌-◌, ◌<◌, String, List, [], ◌∷◌, ◌++◌, ◌≡◌, ◌≢◌, refl, sym, ap, ◌∙◌, inl, inr, Option, none,
  some, All, All-imp, arith, str_eq, Bool-cases, append-nil,
}
use mathlib.Core.Option.{some_inj}
use owen_main.Common.Assoc.{
  insert, lookup, lookup-insert_hit, lookup-insert_miss, lookup-delete_hit, lookup-delete_miss,
}
use owen_main.Flows.Dtmf.{
  listeners, watch_one, watch_all, remove_first, put_back, unwatch_one, unwatch_all, Registries,
  watch, unwatch,
}
use owen_main.Flows.Dtmf.Listeners.{
  copies, watched_times, given_up_times, watched-le-given_up, listeners-watch_all,
  listeners-unwatch_all,
}

-- No channel stands in the registry with nobody to watch it.
abbrev pub NoEmpty : List (String × List ℕ) → Type 0
NoEmpty ws = (c : String) → lookup c ws ≢ some []

append-some : (q : ℕ) (l : List ℕ) → (l ++ (q ∷ [])) ≢ []
append-some q [] h = cc h
append-some q (x ∷ l) h = cc h

NoEmpty-insert :
    (k : String) (l : List ℕ) (ws : List (String × List ℕ))
    → l ≢ []
    → NoEmpty ws
    → NoEmpty (insert k l ws)
NoEmpty-insert k l ws n e c h = elim (Bool-cases (str_eq k c)) [
  | inl q ↦ n (some_inj.0 (sym (lookup-insert_hit k c l ws q) ∙ h))
  | inr q ↦ e c (sym (lookup-insert_miss k c l ws q) ∙ h)
]

NoEmpty-watch_all :
    (q : ℕ) (cs : List String) (ws : List (String × List ℕ))
    → NoEmpty ws
    → NoEmpty (watch_all q cs ws)
unfolding watch_all watch_one
NoEmpty-watch_all q [] ws e = e
NoEmpty-watch_all q (c ∷ cs) ws e = elim (Bool-cases (str_eq c "")) [
  | inl h ↦ rw h (NoEmpty-watch_all q cs ws e)
  | inr h ↦ rw h (
      NoEmpty-watch_all q cs (watch_one q c ws)
        (NoEmpty-insert c (listeners c ws ++ (q ∷ [])) ws (append-some q (listeners c ws)) e))
]

NoEmpty-put_back :
    (k : String) (l : List ℕ) (ws : List (String × List ℕ)) → NoEmpty ws → NoEmpty (put_back k l ws)
unfolding put_back
NoEmpty-put_back k [] ws e = λ c h. elim (Bool-cases (str_eq k c)) [
  | inl q ↦ cc (sym (lookup-delete_hit k c ws q) ∙ h)
  | inr q ↦ e c (sym (lookup-delete_miss k c ws q) ∙ h)
]
NoEmpty-put_back k (x ∷ l) ws e = NoEmpty-insert k (x ∷ l) ws (λ h. cc h) e

NoEmpty-unwatch_one :
    (q : ℕ) (c : String) (ws : List (String × List ℕ)) → NoEmpty ws → NoEmpty (unwatch_one q c ws)
unfolding unwatch_one
NoEmpty-unwatch_one q c ws e = go (listeners c ws)
  where
    go :
        (l : List ℕ)
        → NoEmpty (elim l as (λ _. List (String × List ℕ)) [
          | [] ↦ ws
          | p ∷ ps ↦ put_back c (remove_first q (p ∷ ps)) ws
        ])
    go [] = e
    go (p ∷ ps) = NoEmpty-put_back c (remove_first q (p ∷ ps)) ws e

NoEmpty-unwatch_all :
    (q : ℕ) (cs : List String) (ws : List (String × List ℕ))
    → NoEmpty ws
    → NoEmpty (unwatch_all q cs ws)
unfolding unwatch_all
NoEmpty-unwatch_all q [] ws e = e
NoEmpty-unwatch_all q (c ∷ cs) ws e =
    NoEmpty-unwatch_all q cs (unwatch_one q c ws) (NoEmpty-unwatch_one q c ws e)

entry_of : List ℕ → Option (List ℕ)
entry_of [] = none
entry_of (q ∷ qs) = some (q ∷ qs)

lookup-entry_of :
    (c : String) (ws : List (String × List ℕ))
    → NoEmpty ws
    → lookup c ws ≡ entry_of (listeners c ws)
unfolding listeners entry_of
lookup-entry_of c ws e = go (lookup c ws) refl
  where
    go :
        (o : Option (List ℕ))
        → lookup c ws ≡ o
        → o ≡ entry_of (elim o as (λ _. List ℕ) [ none ↦ [] | some qs ↦ qs ])
    go none h = refl
    go (some []) h = absurd (e c h)
    go (some (q ∷ qs)) h = refl

listeners-watched :
    (q : ℕ) (c : String) (ds : List String) (ws : List (String × List ℕ))
    → listeners c (watch_all q ds ws) ≡ listeners c ws ++ copies (watched_times c ds) q
listeners-watched q c ds ws =
    listeners-watch_all q 0 c ds ws (listeners c ws) (sym (append-nil (listeners c ws)))
    ∙ ap (λ k. listeners c ws ++ copies k q) (omega arith)

none_left :
    (q : ℕ) (c : String) (ds : List String) (l : List ℕ)
    → l ++ copies (watched_times c ds - given_up_times c ds) q ≡ l
none_left q c ds l =
    ap (λ k. l ++ copies k q) {y = 0} (omega (arith, watched-le-given_up c ds)) ∙ append-nil l

-- A queue that watches channels and then gives them up leaves the registry as it was: each channel
-- has the same watchers as before, and a channel that had none is no longer in it. The numbers of
-- queues in use are below the next one, and no channel is in the registry without watchers.
pub unwatch-watch :
    (channels : List String) (r : Registries) (c : String)
    → NoEmpty r.watchers
    → All (λ p. p < r.next_queue) (listeners c r.watchers)
    → let (q, r') = watch channels r in
      lookup c (unwatch q channels r').watchers ≡ lookup c r.watchers
unfolding watch unwatch
unwatch-watch channels r c e f =
    let q = r.next_queue in
    let ws = r.watchers in
    let l = listeners c ws in
    let watched = listeners-watched q c channels ws in
    let given =
      listeners-unwatch_all q (watched_times c channels) c channels (watch_all q channels ws) l
        (All-imp (λ p h k. omega (arith, h, k)) l f) watched in
    lookup-entry_of c (unwatch_all q channels (watch_all q channels ws))
      (NoEmpty-unwatch_all q channels (watch_all q channels ws) (NoEmpty-watch_all q channels ws e))
    ∙ ap entry_of (given ∙ none_left q c channels l)
    ∙ sym (lookup-entry_of c ws e)
