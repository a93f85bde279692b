-- ===== src/SelfHeal/Limit/Covered.antt =====
-- The restarts inside the window are among the attempts that the dictionary holds, and they stay
-- so when the dictionary is pruned and when a restart is noted in it.
use ge360_bridge.Base.{
  ℕ, ◌+◌, ◌≤◌, ◌<◌, ◌≡◌, ap, inl, inr, ◌&&◌, List, [], ◌∷◌, ◌++◌, length, All, ltb, leb, arith,
  Bool-cases,
}
use ge360_bridge.Base.Text.{Text, text_eq, text_eq_iff}
use ge360_bridge.SelfHeal.State.{
  History, restart_window, restart_limit, prune_attempts, prune_state, attempts_of, set_attempts,
}
use ge360_bridge.SelfHeal.Heal.{Restart}
use ge360_bridge.SelfHeal.Limit.Counts.{
  count, restarts_between, count-length, count-append, count-prune_attempts, count-prune_state,
  attempts_of-set_attempts, restarts_between_past,
}

abbrev pub IsCovered : ℕ → History → List Restart → Type 0
IsCovered now h rs =
    (name : Text) (a : ℕ)
    → now ≤ a + restart_window
    → restarts_between name a now rs ≤ count a now (attempts_of name h)

abbrev pub IsPast : ℕ → List Restart → Type 0
IsPast now rs = All (λ (r : Restart). r.issued_at ≤ now) rs

-- No stretch as long as the window holds more restarts of one resource than the limit.
abbrev pub IsLimited : List Restart → Type 0
IsLimited rs =
    (name : Text) (a : ℕ) → restarts_between name a (a + restart_window) rs ≤ restart_limit

module _ (now : ℕ) (rs : List Restart) where
  -- Assigning attempts that miss nothing inside the window.
  pub set_attempts-IsCovered :
      (name : Text) (ts : List ℕ) (h : History)
      → IsCovered now h rs
      → ((a : ℕ) → now ≤ a + restart_window → count a now (attempts_of name h) ≤ count a now ts)
      → IsCovered now (set_attempts name ts h) rs
  set_attempts-IsCovered name ts h c more other a w =
      rw (attempts_of-set_attempts name other ts h) (elim (Bool-cases (text_eq name other)) [
        | inl e ↦
            let same : name ≡ other = (text_eq_iff name other).0 e in
            rw e (rw (← same) (omega (arith, c name a w, more a w)))
        | inr e ↦ rw e (c other a w)
      ])

  pub prune_state-IsCovered :
      (h : History) → IsCovered now h rs → IsCovered now (prune_state h now) rs
  prune_state-IsCovered h c name a w =
      omega (arith, c name a w, count-prune_state a now now name h w (omega arith))

-- The clock went on, and nothing happened.
pub IsCovered-later :
    (now later : ℕ) (h : History) (rs : List Restart)
    → now ≤ later
    → IsPast now rs
    → IsCovered now h rs
    → IsCovered later h rs
IsCovered-later now later h rs le past c name a w = omega (
  arith,
  restarts_between_past name a now later rs past,
  c name a (omega arith),
  longer (attempts_of name h),
)
  where
    longer : (ts : List ℕ) → count a now ts ≤ count a later ts
    longer [] = omega arith
    longer (t ∷ ts) = ground (arith, longer ts)

pub IsPast-later :
    (now later : ℕ) (rs : List Restart) → now ≤ later → IsPast now rs → IsPast later rs
IsPast-later now later [] le past = tt
IsPast-later now later (r ∷ rs) le past =
    (omega (arith, past.0), IsPast-later now later rs le past.1)

module _ (now : ℕ) (name : Text) (rs : List Restart) where
  abbrev noted : List Restart
  noted = (record { resource = name; issued_at = now }) ∷ rs

  -- A restart that the dictionary notes.
  pub restart-IsCovered :
      (ts : List ℕ) (h : History)
      → IsCovered now h rs
      → ((a : ℕ) → now ≤ a + restart_window → count a now (attempts_of name h) ≤ count a now ts)
      → IsCovered now (set_attempts name (ts ++ now ∷ []) h) noted
  restart-IsCovered ts h c more other a w =
      rw (attempts_of-set_attempts name other (ts ++ now ∷ []) h)
        (elim (Bool-cases (text_eq name other)) [
          | inl e ↦
              let same : name ≡ other = (text_eq_iff name other).0 e in
              let moved = ap (λ n. restarts_between n a now rs) same in
              rw e (ground (arith, c name a w, more a w, moved, count-append a now ts (now ∷ [])))
          | inr e ↦ rw e (c other a w)
        ])

  -- A restart below the limit.
  pub restart-IsLimited :
      (h : History)
      → IsPast now rs
      → IsCovered now h rs
      → length (prune_attempts (attempts_of name h) now) < restart_limit
      → IsLimited rs
      → IsLimited noted
  restart-IsLimited h past c below limited other a =
      elim (Bool-cases (text_eq name other && (ltb a now && leb now (a + restart_window)))) [
        | inl e ↦
            let same : name ≡ other = (text_eq_iff name other).0 (ground arith) in
            let w : now ≤ a + restart_window = ground arith in
            let moved = ap (λ n. restarts_between n a (a + restart_window) rs) same in
            rw e (
              omega (
                arith,
                moved,
                restarts_between_past name a now (a + restart_window) rs past,
                c name a w,
                count-prune_attempts a now now (attempts_of name h) w (omega arith),
                count-length a now (prune_attempts (attempts_of name h) now),
              ))
        | inr e ↦ rw e (limited other a)
      ]
