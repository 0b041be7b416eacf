-- ===== src/Flows/Dtmf/Listeners.antt =====
-- Who listens to a channel while channels are watched and given up.
use owen_main.Common.{
  ℕ, zero, suc, ◌+◌, ◌-◌, ◌≤◌, String, List, [], ◌∷◌, ◌++◌, ◌≡◌, ◌≢◌, refl, ap, ◌∙◌, inl, inr, All,
  arith, str_eq, eq_iff, Bool-cases, append_assoc, if◌then◌else◌,
}
use owen_main.Common.Assoc.{insert, delete, lookup-insert, lookup-delete}
use owen_main.Flows.Dtmf.{
  listeners, watch_one, watch_all, remove_first, put_back, unwatch_one, unwatch_all,
}

listeners-insert :
    (c k : String) (qs : List ℕ) (ws : List (String × List ℕ))
    → listeners c (insert k qs ws) ≡ (if str_eq k c then qs else listeners c ws)
unfolding listeners
listeners-insert c k qs ws = ground (arith, lookup-insert k c qs ws)

listeners-delete :
    (c k : String) (ws : List (String × List ℕ))
    → listeners c (delete k ws) ≡ (if str_eq k c then [] else listeners c ws)
unfolding listeners
listeners-delete c k ws = ground (arith, lookup-delete k c ws)

listeners-watch_one :
    (q : ℕ) (c k : String) (ws : List (String × List ℕ))
    → listeners c (watch_one q k ws)
      ≡ (if str_eq k c then listeners c ws ++ (q ∷ []) else listeners c ws)
unfolding watch_one
listeners-watch_one q c k ws =
    listeners-insert c k (listeners k ws ++ (q ∷ [])) ws ∙ ground (arith, eq_iff k c)

listeners-put_back :
    (c k : String) (qs : List ℕ) (ws : List (String × List ℕ))
    → listeners c (put_back k qs ws) ≡ (if str_eq k c then qs else listeners c ws)
unfolding put_back
listeners-put_back c k [] ws = listeners-delete c k ws
listeners-put_back c k (q ∷ qs) ws = listeners-insert c k (q ∷ qs) ws

-- What the channel had is what decides.
listeners-unwatch_one :
    (q : ℕ) (c k : String) (ws : List (String × List ℕ))
    → listeners c (unwatch_one q k ws)
      ≡ (if str_eq k c then remove_first q (listeners c ws) else listeners c ws)
unfolding unwatch_one remove_first
listeners-unwatch_one q c k ws = go (listeners k ws) refl
  where
    same :
        (qs : List ℕ)
        → listeners k ws ≡ qs
        → (if str_eq k c then remove_first q qs else listeners c ws)
          ≡ (if str_eq k c then remove_first q (listeners c ws) else listeners c ws)
    same qs e = ground (arith, eq_iff k c)

    nothing :
        listeners k ws ≡ []
        → listeners c ws ≡ (if str_eq k c then remove_first q (listeners c ws) else listeners c ws)
    nothing e = ground (arith, eq_iff k c)

    go :
        (qs : List ℕ)
        → listeners k ws ≡ qs
        → listeners c (unwatch_one q k ws)
          ≡ (if str_eq k c then remove_first q (listeners c ws) else listeners c ws)
    go [] e = rw (unwatch_one, e) (nothing e)
    go (p ∷ ps) e =
        rw (unwatch_one, e) (listeners-put_back c k (remove_first q (p ∷ ps)) ws ∙ same (p ∷ ps) e)

-- `n` entries of one queue.
abbrev pub copies : ℕ → ℕ → List ℕ
copies zero q = []
copies (suc n) q = q ∷ copies n q

copies_snoc : (n q : ℕ) → copies n q ++ (q ∷ []) ≡ copies (suc n) q
copies_snoc zero q = refl
copies_snoc (suc n) q = ap (λ x. q ∷ x) (copies_snoc n q)

append-copies : (n q : ℕ) (l : List ℕ) → (l ++ copies n q) ++ (q ∷ []) ≡ l ++ copies (suc n) q
append-copies n q l = append_assoc l (copies n q) (q ∷ []) ∙ ap (λ x. l ++ x) (copies_snoc n q)

-- How often the channel is watched, and how often it is given up: the latter counts empty names too.
pub watched_times : String → List String → ℕ
watched_times c [] = 0
watched_times c (d ∷ ds) =
    if str_eq d ""
    then watched_times c ds
    else if str_eq d c
    then suc (watched_times c ds)
    else watched_times c ds

pub given_up_times : String → List String → ℕ
given_up_times c [] = 0
given_up_times c (d ∷ ds) = if str_eq d c then suc (given_up_times c ds) else given_up_times c ds

pub watched-le-given_up : (c : String) (ds : List String) → watched_times c ds ≤ given_up_times c ds
unfolding watched_times given_up_times
watched-le-given_up c [] = omega arith
watched-le-given_up c (d ∷ ds) = ground (arith, watched-le-given_up c ds)

pub listeners-watch_all :
    (q n : ℕ) (c : String) (ds : List String) (ws : List (String × List ℕ)) (l : List ℕ)
    → listeners c ws ≡ l ++ copies n q
    → listeners c (watch_all q ds ws) ≡ l ++ copies (n + watched_times c ds) q
unfolding watch_all watched_times
listeners-watch_all q n c [] ws l h = h ∙ ap (λ k. l ++ copies k q) (omega arith)
listeners-watch_all q n c (d ∷ ds) ws l h = elim (Bool-cases (str_eq d "")) [
  | inl e ↦ rw e (listeners-watch_all q n c ds ws l h)
  | inr e ↦ elim (Bool-cases (str_eq d c)) [
    | inl k ↦
        rw (e, k)
          (listeners-watch_all q (suc n) c ds (watch_one q d ws) l (
              listeners-watch_one q c d ws ∙ rw k (ap (λ x. x ++ (q ∷ [])) h ∙ append-copies n q l))
            ∙ ap (λ k. l ++ copies k q) (omega arith))
    | inr k ↦
        rw (e, k)
          (listeners-watch_all q n c ds (watch_one q d ws) l
            (listeners-watch_one q c d ws ∙ rw k h))
  ]
]

remove_first-copies :
    (q n : ℕ) (l : List ℕ)
    → All (λ p. p ≢ q) l
    → remove_first q (l ++ copies n q) ≡ l ++ copies (n - 1) q
unfolding remove_first
remove_first-copies q zero [] f = refl
remove_first-copies q (suc n) [] f = ground arith
remove_first-copies q n (p ∷ l) f = ground (arith, f.0, remove_first-copies q n l f.1)

pub listeners-unwatch_all :
    (q n : ℕ) (c : String) (ds : List String) (ws : List (String × List ℕ)) (l : List ℕ)
    → All (λ p. p ≢ q) l
    → listeners c ws ≡ l ++ copies n q
    → listeners c (unwatch_all q ds ws) ≡ l ++ copies (n - given_up_times c ds) q
unfolding unwatch_all given_up_times
listeners-unwatch_all q n c [] ws l f h = h ∙ ap (λ k. l ++ copies k q) (omega arith)
listeners-unwatch_all q n c (d ∷ ds) ws l f h = elim (Bool-cases (str_eq d c)) [
  | inl k ↦ rw k (
      listeners-unwatch_all q (n - 1) c ds (unwatch_one q d ws) l f (
        listeners-unwatch_one q c d ws ∙ rw k (ap (remove_first q) h ∙ remove_first-copies q n l f))
      ∙ ap (λ k. l ++ copies k q) (omega arith))
  | inr k ↦ rw k (
      listeners-unwatch_all q n c ds (unwatch_one q d ws) l f
        (listeners-unwatch_one q c d ws ∙ rw k h))
]
