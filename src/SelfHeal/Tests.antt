-- ===== src/SelfHeal/Tests.antt =====
-- Runs of self_healing.py on small inputs, and the theorems at concrete inputs.
use ge360_bridge.Base.{
  ℕ, ◌+◌, ◌*◌, ◌≤◌, ◌≡◌, refl, true, false, none, some, List, [], ◌∷◌, arith, length, if◌then◌else◌,
}
use ge360_bridge.Base.Text.{
  text, text_eq, contains, upper, lower, strip, lstrip, rstrip, is_space, starts_with, ends_with,
}
use ge360_bridge.Core.Data.{Resource}
use ge360_bridge.Core.Sample.{survey, files}
use ge360_bridge.Core.Store.{Store, list_resources}
use ge360_bridge.Core.Normalize.{raw_resource, normalize_resource}
use ge360_bridge.Core.Validate.{validate_systemd_unit, check_unit, is_safe_unit, is_protected_unit}
use ge360_bridge.SelfHeal.Heal.{
  Outcome, still_unhealthy, Machine, answered, Healer, heal_resource, heal_unit, health_state,
  unit_is_loaded, restart_and_check, restart_unit, await_recovery, audit,
}
use ge360_bridge.SelfHeal.State.{
  retry_after, prune_state, prune_attempts, sort_times, insert_time, attempts_of, set_attempts,
  load_state,
}
use ge360_bridge.SelfHeal.Run.{run_self_heal, selected, heal_all}
use ge360_bridge.SelfHeal.Limit.Counts.{restarts_between}
use ge360_bridge.SelfHeal.Limit.Moves.{is_restart}
use ge360_bridge.SelfHeal.Outcomes.{needs_restart, heal_resource_restarts}
use ge360_bridge.SelfHeal.Limit.{Trigger, run_all, self_heal_limit}

-- A unit that is loaded and restarts, and a resource that stays down.
abbrev down : Machine (Unit {0})
down = record {
  check = λ r w. (answered (record { state = text "OFFLINE"; latency_ms = none; error = none }), w);
  systemctl = λ args w. (record { returncode = 0; stdout = text "loaded"; stderr = [] }, w);
  sleep = λ n w. w;
}

abbrev healing : Resource
healing = record survey { systemd_unit = text "rilievi.service"; self_heal_enabled = true }

abbrev healing_files : Store
healing_files = record files { resources_file = some (raw_resource healing ∷ []) }

abbrev idle : Healer (Unit {0})
idle = record { history = []; saved = none; events = []; restarts = []; world = tt }

abbrev run_at : ℕ → Trigger
run_at now = record { resource_name = none; dry_run = false; now = now; files = healing_files }

abbrev triggers : List Trigger
triggers = run_at 1000000 ∷ run_at 1060000 ∷ run_at 1120000 ∷ run_at 1180000 ∷ []

self_heal_limit_example :
    restarts_between
      (text "rilievi")
      900000
      (900000 + 10 * 60 * 1000)
      (run_all down triggers idle).restarts
    ≤ 3
self_heal_limit_example =
    self_heal_limit down triggers idle refl
      (omega arith, (omega arith, (omega arith, (omega arith, tt)))) (text "rilievi") 900000

-- The fourth run finds the limit reached.
three_restarts : length (run_all down triggers idle).restarts ≡ 3
unfolding run_self_heal selected list_resources normalize_resource heal_all heal_resource heal_unit
    health_state unit_is_loaded restart_and_check restart_unit await_recovery audit retry_after
    prune_state prune_attempts sort_times insert_time attempts_of set_attempts load_state
    validate_systemd_unit check_unit is_safe_unit is_protected_unit text_eq contains upper lower
    strip lstrip rstrip is_space starts_with ends_with
three_restarts = refl

-- One call, on a resource that is down.
abbrev restarted : Outcome
restarted = still_unhealthy (text "OFFLINE") (text "OFFLINE") (text "rilievi.service") 1 none

heal_resource_restarts_example :
    let needed = needs_restart down false 1000000 healing idle in
    (is_restart restarted ≡ needed)
    × ((heal_resource down false 1000000 healing idle).1.restarts
        ≡ (if needed then (record { resource = text "rilievi"; issued_at = 1000000 }) ∷ [] else []))
unfolding heal_resource heal_unit health_state unit_is_loaded restart_and_check restart_unit
    await_recovery audit retry_after prune_state prune_attempts sort_times insert_time attempts_of
    set_attempts validate_systemd_unit check_unit is_safe_unit is_protected_unit text_eq contains
    upper lower strip lstrip rstrip is_space starts_with ends_with
heal_resource_restarts_example =
    heal_resource_restarts down false 1000000 healing idle {o = restarted} refl
