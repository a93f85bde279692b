-- ===== src/SelfHeal/Limit/Moves.antt =====
-- What one call of `heal_resource` does to the dictionary, the file and the restarts.
use ge360_bridge.Base.{
  ℕ, zero, suc, ◌<◌, ◌≡◌, refl, sym, ap, ◌∙◌, is_empty, ◌⊎◌, inl, inr, Bool, true, false, not, some,
  List, [], ◌∷◌, ◌++◌, length, leb, arith, Bool-cases, both_branches,
}
use ge360_bridge.Base.Text.{Text, text, text_eq, upper, contains, or_else}
use ge360_bridge.Core.Data.{Resource, Result, Result-cases}
use ge360_bridge.Core.Validate.{validate_systemd_unit}
use ge360_bridge.SelfHeal.State.{
  restart_limit, prune_attempts, prune_state, attempts_of, set_attempts,
}
use ge360_bridge.SelfHeal.Heal.{
  Machine, Health, Outcome, restart_failed, recovered, still_unhealthy, Healer, message,
  trigger_states, recovery_check_attempts, audit, unit_is_loaded, restart_unit, health_state,
  await_recovery, restart_and_check, heal_unit, heal_resource,
}

-- The outcomes that come after a restart.
abbrev pub is_restart : Outcome → Bool
is_restart (restart_failed _ _ _ _) = true
is_restart (recovered _ _ _ _) = true
is_restart (still_unhealthy _ _ _ _ _) = true
is_restart _ = false

module _ {W : Type 0} where
  -- The world and the audit trail alone changed.
  pub record IsSame (s s' : Healer W) : Type 0 where
    pub history : s'.history ≡ s.history
    pub saved : s'.saved ≡ s.saved
    pub restarts : s'.restarts ≡ s.restarts

  -- The attempts of the resource were pruned, and nothing was restarted.
  pub record IsPruned (now : ℕ) (name : Text) (s s' : Healer W) : Type 0 where
    pub history :
        s'.history ≡ set_attempts name (prune_attempts (attempts_of name s.history) now) s.history
    pub saved : s'.saved ≡ s.saved
    pub restarts : s'.restarts ≡ s.restarts

  abbrev pub pruned : ℕ → Text → Healer W → List ℕ
  pruned now name s = prune_attempts (attempts_of name s.history) now

  -- One restart was issued below the limit, and noted before in the dictionary and in the file.
  pub record IsRestart (now : ℕ) (name : Text) (s s' : Healer W) : Type 0 where
    pub history :
        s'.history
        ≡ set_attempts name
            (pruned now name s ++ now ∷ [])
            (set_attempts name (pruned now name s) s.history)
    pub saved : s'.saved ≡ some (prune_state s'.history now)
    pub restarts : s'.restarts ≡ (record { resource = name; issued_at = now }) ∷ s.restarts
    pub below : length (pruned now name s) < restart_limit

  abbrev pub Move : ℕ → Text → Healer W → Healer W → Type 0
  Move now name s s' = IsSame s s' ⊎ (IsPruned now name s s' ⊎ IsRestart now name s s')

  module _ (m : Machine W) where
    await_recovery-IsSame :
        (n : ℕ) (r : Resource) (last : Health) (s : Healer W)
        → IsSame s (await_recovery m n r last s).1
    unfolding await_recovery health_state
    await_recovery-IsSame zero r last s = record { history = refl; saved = refl; restarts = refl }
    await_recovery-IsSame (suc n) r last s =
        let (h, s') = health_state m r (record s { world = m.sleep 1000 s.world }) in
        elim (Bool-cases (text_eq (upper h.state) (text "ONLINE"))) [
          | inl e ↦ rw e (record { history = refl; saved = refl; restarts = refl })
          | inr e ↦
              let same = await_recovery-IsSame n r h s' in
              rw e (record { history = same.history; saved = same.saved; restarts = same.restarts })
        ]

    abbrev pub Restarted : ℕ → Text → List ℕ → Healer W → Outcome × Healer W → Type 0
    Restarted now name attempts s (o, s') =
        (is_restart o ≡ true)
        × (s'.history ≡ set_attempts name attempts s.history)
        × (s'.saved ≡ some (prune_state (set_attempts name attempts s.history) now))
        × (s'.restarts ≡ (record { resource = name; issued_at = now }) ∷ s.restarts)

    pub restart_and_check-Restarted :
        (r : Resource) (unit before : Text) (health : Health) (attempts : List ℕ) (now : ℕ)
        (s : Healer W)
        → Restarted now r.name attempts s (restart_and_check m r unit before health attempts now s)
    unfolding restart_and_check restart_unit audit
    restart_and_check-Restarted r unit before health attempts now s =
        let goal = λ (x : Outcome × Healer W). Restarted now r.name attempts s x in
        let history' = set_attempts r.name attempts s.history in
        let noted =
          audit (text "SELF_HEAL_RESTART") r.name (text "restart") (text "ATTEMPT")
            (some (message (text "unit=" ++ unit)))
            (record s { history = history'; saved = some (prune_state history' now) }) in
        let ((done, error), s1) = restart_unit m unit r.name now noted in
        let same = await_recovery-IsSame recovery_check_attempts r health s1 in
        both_branches goal (not done) (λ _. (refl, refl, refl, refl))
          (λ _.
            both_branches goal (await_recovery m recovery_check_attempts r health s1).0.0
              (λ _. (refl, same.history, same.saved, same.restarts))
              (λ _. (refl, same.history, same.saved, same.restarts)))

    unit_is_loaded-IsSame : (unit : Text) (s : Healer W) → IsSame s (unit_is_loaded m unit s).1
    unfolding unit_is_loaded
    unit_is_loaded-IsSame unit s = record { history = refl; saved = refl; restarts = refl }

    heal_unit-Move :
        (dry_run : Bool) (now : ℕ) (r : Resource) (unit : Text) (s : Healer W)
        → Move now r.name s (heal_unit m dry_run now r unit s).1
    unfolding heal_unit health_state audit unit_is_loaded
    heal_unit-Move dry_run now r unit s =
        let goal = λ (x : Outcome × Healer W). Move now r.name s x.1 in
        let (h, s1) = health_state m r s in
        let before = upper (or_else h.state (text "OFFLINE")) in
        let attempts = pruned now r.name s in
        let s2 = record s1 { history = set_attempts r.name attempts s.history } in
        let ((loaded, error), s3) = unit_is_loaded m unit s2 in
        let after = restart_and_check-Restarted r unit before h (attempts ++ now ∷ []) now s3 in
        both_branches goal (not (contains trigger_states before))
          (λ _. inl (record { history = refl; saved = refl; restarts = refl }))
          (λ _.
            both_branches goal (leb restart_limit (length attempts))
              (λ _. inr (inl (record { history = refl; saved = refl; restarts = refl })))
              (λ few.
                both_branches goal (not loaded)
                  (λ _. inr (inl (record { history = refl; saved = refl; restarts = refl })))
                  (λ _.
                    both_branches goal dry_run
                      (λ _. inr (inl (record { history = refl; saved = refl; restarts = refl })))
                      (λ _. inr (
                        inr (record {
                          history = after.1;
                          saved = after.2 ∙ ap (λ h'. some (prune_state h' now)) (sym after.1);
                          restarts = after.3;
                          below = ground arith;
                        }))))))

    -- A call of `heal_resource` makes one of the three moves, whatever it returns.
    pub heal_resource-Move :
        (dry_run : Bool) (now : ℕ) (r : Resource) (s : Healer W)
        → Move now r.name s (heal_resource m dry_run now r s).1
    unfolding heal_resource
    heal_resource-Move dry_run now r s =
        let goal = λ (x : Result Outcome × Healer W). Move now r.name s x.1 in
        let idle : IsSame s s = record { history = refl; saved = refl; restarts = refl } in
        both_branches goal (not r.enabled) (λ _. inl idle)
          (λ _.
            both_branches goal (not r.self_heal_enabled) (λ _. inl idle)
              (λ _. elim (Result-cases (validate_systemd_unit r.systemd_unit)) [
                | inl (unit, e) ↦ rw e (
                    both_branches goal (is_empty unit) (λ _. inl idle)
                      (λ _. heal_unit-Move dry_run now r unit s))
                | inr (why, e) ↦ rw e (inl idle)
              ]))
