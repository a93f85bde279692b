-- ===== src/SelfHeal/Outcomes.antt =====
-- self_healing.py: when `heal_resource` restarts a unit, and how what it returns tells.
use ge360_bridge.Base.{
  ℕ, ◌≡◌, refl, Bool, true, false, not, ◌&&◌, [], ◌∷◌, ◌++◌, length, is_empty, ltb, leb, arith,
  both_branches, if◌then◌else◌,
}
use ge360_bridge.Base.Text.{Text, text, upper, contains, or_else}
use ge360_bridge.Core.Data.{Resource, Result, both_results, ok, err, or_default}
use ge360_bridge.Core.Validate.{validate_systemd_unit}
use ge360_bridge.SelfHeal.State.{restart_limit, set_attempts}
use ge360_bridge.SelfHeal.Heal.{
  Machine, Healer, Outcome, trigger_states, audit, unit_is_loaded, health_state, heal_unit,
  heal_resource,
}
use ge360_bridge.SelfHeal.Limit.Moves.{is_restart, pruned, restart_and_check-Restarted}

module _ {W : Type 0} (m : Machine W) where
  -- The unit is restarted: the resource is down, its attempts are below the limit, `systemctl`
  -- knows the unit, and this is no dry run.
  abbrev pub unit_needs_restart : Bool → ℕ → Resource → Text → Healer W → Bool
  unit_needs_restart dry_run now r unit s =
      let (h, s1) = health_state m r s in
      let s2 = record s1 { history = set_attempts r.name (pruned now r.name s) s.history } in
      contains trigger_states (upper (or_else h.state (text "OFFLINE")))
      && (ltb (length (pruned now r.name s)) restart_limit
          && ((unit_is_loaded m unit s2).0.0 && not dry_run))

  -- Both switches of the resource are on, it names a unit that may be restarted, and the unit
  -- needs it.
  abbrev pub needs_restart : Bool → ℕ → Resource → Healer W → Bool
  needs_restart dry_run now r s =
      let unit = or_default (validate_systemd_unit r.systemd_unit) [] in
      r.enabled
      && (r.self_heal_enabled && (not (is_empty unit) && unit_needs_restart dry_run now r unit s))

  abbrev Tells : ℕ → Text → Bool → Healer W → Outcome × Healer W → Type 0
  Tells now name needed s x =
      (is_restart x.0 ≡ needed)
      × (x.1.restarts ≡ (
          if needed
          then (record { resource = name; issued_at = now }) ∷ s.restarts
          else s.restarts))

  -- Nothing was restarted, and nothing needed to be.
  stays :
      (now : ℕ) (name : Text) (needed : Bool) (s : Healer W)
      → needed ≡ false
      → (false ≡ needed)
        × (s.restarts ≡ (
            if needed
            then (record { resource = name; issued_at = now }) ∷ s.restarts
            else s.restarts))
  stays now name needed s n = rw n (refl, refl)

  heal_unit-Tells :
      (dry_run : Bool) (now : ℕ) (r : Resource) (unit : Text) (s : Healer W)
      → Tells now r.name
          (unit_needs_restart dry_run now r unit s)
          s
          (heal_unit m dry_run now r unit s)
  unfolding heal_unit audit health_state unit_is_loaded
  heal_unit-Tells dry_run now r unit s =
      let needed = unit_needs_restart dry_run now r unit s in
      let goal = Tells now r.name needed s in
      let (h, s1) = health_state m r s in
      let before = upper (or_else h.state (text "OFFLINE")) in
      let attempts = pruned now r.name s in
      let s2 = record s1 { history = set_attempts r.name attempts s.history } in
      let ((loaded, error), s3) = unit_is_loaded m unit s2 in
      both_branches goal (not (contains trigger_states before))
        (λ e. stays now r.name needed s (ground arith))
        (λ e.
          both_branches goal (leb restart_limit (length attempts))
            (λ f. stays now r.name needed s (ground arith))
            (λ f.
              both_branches goal (not loaded) (λ g. stays now r.name needed s (ground arith))
                (λ g.
                  both_branches goal dry_run (λ d. stays now r.name needed s (ground arith))
                    (λ d.
                      let after =
                        restart_and_check-Restarted m r unit before h (attempts ++ now ∷ []) now
                          s3 in
                      let all_met : needed ≡ true = ground arith in
                      rw all_met (after.0, after.3)))))

  abbrev IfReturns : (Outcome × Healer W → Type 0) → Result Outcome × Healer W → Type 0
  IfReturns P (ok o, s') = P (o, s')
  IfReturns P (err why, s') = Unit

  returned :
      (P : Outcome × Healer W → Type 0) (x : Result Outcome) (s' : Healer W) {o : Outcome}
      → x ≡ ok o
      → IfReturns P (x, s')
      → P (o, s')
  returned P (ok o') s' {o = o} e p = let same : o' ≡ o = cc in rw (← same) p
  returned P (err why) s' e p = absurd (ground arith)

  heal_resource-Tells :
      (dry_run : Bool) (now : ℕ) (r : Resource) (s : Healer W)
      → IfReturns
          (Tells now r.name (needs_restart dry_run now r s) s)
          (heal_resource m dry_run now r s)
  unfolding heal_resource
  heal_resource-Tells dry_run now r s =
      let needed = needs_restart dry_run now r s in
      let goal = IfReturns (Tells now r.name needed s) in
      both_branches goal (not r.enabled) (λ e. stays now r.name needed s (ground arith))
        (λ e.
          both_branches goal (not r.self_heal_enabled)
            (λ f. stays now r.name needed s (ground arith))
            (λ f.
              both_results goal (validate_systemd_unit r.systemd_unit)
                (λ unit v.
                  both_branches goal (is_empty unit) (λ g. stays now r.name needed s (ground arith))
                    (λ g.
                      let all_met : needed ≡ unit_needs_restart dry_run now r unit s =
                        rw v (ground arith) in
                      rw all_met (heal_unit-Tells dry_run now r unit s)))
                (λ why v. tt)))

  -- A call that returns an outcome has restarted the unit, once, if the resource needs it, and
  -- has restarted nothing otherwise; the outcome says which.
  pub heal_resource_restarts :
      (dry_run : Bool) (now : ℕ) (r : Resource) (s : Healer W) {o : Outcome}
      → (heal_resource m dry_run now r s).0 ≡ ok o
      → let needed = needs_restart dry_run now r s in
        (is_restart o ≡ needed)
        × ((heal_resource m dry_run now r s).1.restarts ≡ (
            if needed
            then (record { resource = r.name; issued_at = now }) ∷ s.restarts
            else s.restarts))
  heal_resource_restarts dry_run now r s h =
      returned (Tells now r.name (needs_restart dry_run now r s) s)
        (heal_resource m dry_run now r s).0 (heal_resource m dry_run now r s).1 h
        (heal_resource-Tells dry_run now r s)
