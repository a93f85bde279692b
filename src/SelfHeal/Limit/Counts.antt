-- ===== src/SelfHeal/Limit/Counts.antt =====
-- How many times of a history, and how many restarts, lie in a stretch of time; and what pruning
-- and assignment make of the count.
use ge360_bridge.Base.{
  ℕ, suc, ◌+◌, ◌≤◌, ◌≡◌, refl, ◌∙◌, inl, inr, Bool, true, false, ◌&&◌, List, [], ◌∷◌, ◌++◌, keep,
  length, is_empty, All, ltb, leb, arith, if◌then◌else◌, Bool-cases,
}
use ge360_bridge.Base.Text.{Text, text_eq, text_eq_iff, text_eq_refl}
use ge360_bridge.SelfHeal.State.{
  History, restart_window, is_recent, insert_time, sort_times, prune_attempts, prune_state,
  attempts_of, set_attempts,
}
use ge360_bridge.SelfHeal.Heal.{Restart}

-- Later than `a`, and not later than `b`.
abbrev pub between : ℕ → ℕ → ℕ → Bool
between a b t = ltb a t && leb t b

abbrev pub count : ℕ → ℕ → List ℕ → ℕ
count a b [] = 0
count a b (t ∷ ts) = if between a b t then suc (count a b ts) else count a b ts

-- The restarts of one resource in a stretch of time.
abbrev pub restarts_between : Text → ℕ → ℕ → List Restart → ℕ
restarts_between name a b [] = 0
restarts_between name a b (r ∷ rs) =
    if text_eq r.resource name && between a b r.issued_at
    then suc (restarts_between name a b rs)
    else restarts_between name a b rs

pub count-length : (a b : ℕ) (ts : List ℕ) → count a b ts ≤ length ts
count-length a b [] = omega arith
count-length a b (t ∷ ts) = ground (arith, count-length a b ts)

pub count-append : (a b : ℕ) (xs ys : List ℕ) → count a b (xs ++ ys) ≡ count a b xs + count a b ys
count-append a b [] ys = omega arith
count-append a b (x ∷ xs) ys = ground (arith, count-append a b xs ys)

count-insert_time : (a b t : ℕ) (ts : List ℕ) → count a b (insert_time t ts) ≡ count a b (t ∷ ts)
unfolding insert_time
count-insert_time a b t [] = refl
count-insert_time a b t (x ∷ xs) = ground (arith, count-insert_time a b t xs)

count-sort_times : (a b : ℕ) (ts : List ℕ) → count a b (sort_times ts) ≡ count a b ts
unfolding sort_times
count-sort_times a b [] = refl
count-sort_times a b (t ∷ ts) =
    ground (arith, count-insert_time a b t (sort_times ts), count-sort_times a b ts)

-- What lies inside the window is not pruned.
pub count-prune_attempts :
    (a b now : ℕ) (ts : List ℕ)
    → now ≤ a + restart_window
    → b ≤ now
    → count a b (prune_attempts ts now) ≡ count a b ts
unfolding prune_attempts
count-prune_attempts a b now ts h k = count-sort_times a b (keep (is_recent now) ts) ∙ kept ts
  where
    kept : (us : List ℕ) → count a b (keep (is_recent now) us) ≡ count a b us
    kept [] = refl
    kept (t ∷ us) = ground (arith, kept us)

pub attempts_of-set_attempts :
    (name other : Text) (ts : List ℕ) (h : History)
    → attempts_of other (set_attempts name ts h)
      ≡ (if text_eq name other then ts else attempts_of other h)
unfolding attempts_of set_attempts
attempts_of-set_attempts name other ts [] = refl
attempts_of-set_attempts name other ts ((n, old) ∷ h) = elim (Bool-cases (text_eq n name)) [
  | inl e ↦ rw e (let same : n ≡ name = (text_eq_iff n name).0 e in rw (← same) (ground arith))
  | inr e ↦ rw e (elim (Bool-cases (text_eq n other)) [
    | inl f ↦
        let same : n ≡ other = (text_eq_iff n other).0 f in
        let apart : text_eq name other ≡ false = ground (arith, text_eq_iff name other) in
        rw (f, apart) refl
    | inr f ↦ rw f (attempts_of-set_attempts name other ts h)
  ])
]

pub attempts_of-set_attempts_same :
    (name : Text) (ts : List ℕ) (h : History) → attempts_of name (set_attempts name ts h) ≡ ts
attempts_of-set_attempts_same name ts h =
    rw (attempts_of-set_attempts name name ts h, text_eq_refl name) refl

-- Pruning the dictionary loses nothing inside the window.
pub count-prune_state :
    (a b now : ℕ) (name : Text) (h : History)
    → now ≤ a + restart_window
    → b ≤ now
    → count a b (attempts_of name h) ≤ count a b (attempts_of name (prune_state h now))
unfolding prune_state attempts_of
count-prune_state a b now name [] p q = omega arith
count-prune_state a b now name ((n, ts) ∷ h) p q =
    elim (Bool-cases (is_empty (prune_attempts ts now))) [
      | inl e ↦ rw e (
          ground (
            arith,
            count-prune_attempts a b now ts p q,
            count-prune_state a b now name h p q,
            no_count (prune_attempts ts now),
          ))
      | inr e ↦ rw e (
          ground (arith, count-prune_attempts a b now ts p q, count-prune_state a b now name h p q))
    ]
  where
    no_count : (us : List ℕ) → is_empty us ≡ true → count a b us ≡ 0
    no_count [] e = refl
    no_count (u ∷ us) e = absurd (ground arith)

-- Where no restart is later than `b`, a stretch that ends later holds no more of them.
pub restarts_between_past :
    (name : Text) (a b c : ℕ) (rs : List Restart)
    → All (λ (r : Restart). r.issued_at ≤ b) rs
    → restarts_between name a c rs ≤ restarts_between name a b rs
restarts_between_past name a b c [] h = omega arith
restarts_between_past name a b c (r ∷ rs) h =
    ground (arith, restarts_between_past name a b c rs h.1)
