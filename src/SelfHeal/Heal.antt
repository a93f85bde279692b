-- ===== src/SelfHeal/Heal.antt =====
-- self_healing.py: one resource. What lies outside the program is a `Machine`: the health check,
-- `systemctl` and the clock's sleep, each of which may change the world.
use ge360_bridge.Base.{
  ℕ, zero, suc, Bool, true, false, not, Option, none, some, List, [], ◌∷◌, ◌++◌, length, take,
  is_empty, ◌==◌, leb, if◌then◌else◌,
}
use ge360_bridge.Base.Text.{Text, text, text_eq, contains, strip, lower, upper, or_else}
use ge360_bridge.Core.Data.{Result, ok, err, Resource}
use ge360_bridge.Core.Validate.{validate_systemd_unit}
use ge360_bridge.SelfHeal.State.{
  History, restart_limit, prune_attempts, prune_state, attempts_of, set_attempts, retry_after,
}

-- What a health check answers, and the name of the exception where it raises.
pub record Health : Type 0 where
  pub state : Text
  pub latency_ms : Option ℕ
  pub error : Option Text

pub data Probe : Type 0 where
  answered : Health → Probe
  raised : Text → Probe

-- `subprocess.CompletedProcess`
pub record Completed : Type 0 where
  pub returncode : ℕ
  pub stdout : Text
  pub stderr : Text

pub record Machine (W : Type 0) : Type 0 where
  pub check : Resource → W → Probe × W
  pub systemctl : List Text → W → Completed × W
  pub sleep : ℕ → W → W

-- The error of an audit row: a text, or "retry_after_seconds=" with the number.
pub data Detail : Type 0 where
  message : Text → Detail
  retry_in : ℕ → Detail

-- The row that `_audit` writes.
pub record Event : Type 0 where
  pub event : Text
  pub resource : Text
  pub action : Text
  pub result : Text
  pub error : Option Detail

pub record Restart : Type 0 where
  pub resource : Text
  pub issued_at : ℕ

-- The dictionary of a run, the file, the audit rows and the world. `restarts` is kept for the
-- theorems alone: every `systemctl restart` issued, with the latest first.
pub record Healer (W : Type 0) : Type 0 where
  pub history : History
  pub saved : Option History
  pub events : List Event
  pub restarts : List Restart
  pub world : W

-- The dictionary that the program returns, by its "result".
pub data Outcome : Type 0 where
  skipped : (reason : Text) → Outcome
  config_error : Outcome
  no_action : (health_before : Text) → Outcome
  rate_limited : (health_before : Text) → (attempts retry_after_seconds : ℕ) → Outcome
  unit_not_loaded : (health_before unit error : Text) → Outcome
  would_restart : (health_before unit : Text) → (attempts : ℕ) → Outcome
  restart_failed : (health_before unit : Text) → (attempts : ℕ) → (error : Text) → Outcome
  recovered : (health_before unit : Text) → (attempts : ℕ) → (latency_ms : Option ℕ) → Outcome
  still_unhealthy :
      (health_before health_after unit : Text) → (attempts : ℕ) → (error : Option Text) → Outcome

abbrev pub trigger_states : List Text
trigger_states = text "OFFLINE" ∷ text "TIMEOUT" ∷ []

abbrev pub recovery_check_attempts : ℕ
recovery_check_attempts = 10

abbrev pub recovery_check_interval : ℕ
recovery_check_interval = 1000

module _ {W : Type 0} where
  unfoldable pub audit : Text → Text → Text → Text → Option Detail → Healer W → Healer W
  audit event resource action result error s = record s {
    events =
        s.events
        ++ record {
          event = event;
          resource = resource;
          action = action;
          result = result;
          error = error;
        }
          ∷ [];
  }

  module _ (m : Machine W) where
    unfoldable pub unit_is_loaded : Text → Healer W → (Bool × Text) × Healer W
    unit_is_loaded unit s =
        let (proc, w) =
          m.systemctl (text "show" ∷ unit ∷ text "--property=LoadState" ∷ text "--value" ∷ [])
            s.world in
        let value = lower (strip proc.stdout) in
        (
          if not (proc.returncode == 0)
              then (false, take 300 (strip (or_else proc.stderr (text "systemctl_show_failed"))))
              else if not (text_eq value (text "loaded"))
              then (false, or_else value (text "not_loaded"))
              else (true, []),
          record s { world = w },
        )

    -- The command, which the record of restarts takes note of.
    unfoldable pub restart_unit : Text → Text → ℕ → Healer W → (Bool × Text) × Healer W
    restart_unit unit name now s =
        let (proc, w) = m.systemctl (text "restart" ∷ unit ∷ []) s.world in
        (
          if proc.returncode == 0 then (true, []) else (
            false,
            take 300 (
                strip
                  (or_else proc.stderr (or_else proc.stdout (text "systemctl_restart_failed")))),
          ),
          record s {
            world = w;
            restarts = (record { resource = name; issued_at = now }) ∷ s.restarts;
          },
        )

    unfoldable pub health_state : Resource → Healer W → Health × Healer W
    health_state r s =
        let (p, w) = m.check r s.world in
        (
          elim p [
            | answered h ↦ h
            | raised e ↦ record {
              state = text "OFFLINE";
              latency_ms = none;
              error = some (text "health_exception:" ++ e);
            }
          ],
          record s { world = w },
        )

    -- The checks after a restart: the health that ended them, and whether it was "ONLINE".
    unfoldable pub await_recovery : ℕ → Resource → Health → Healer W → (Bool × Health) × Healer W
    await_recovery zero r last s = ((false, last), s)
    await_recovery (suc n) r last s =
        let (h, s') =
          health_state r (record s { world = m.sleep recovery_check_interval s.world }) in
        let rest = await_recovery n r h s' in
        if text_eq (upper h.state) (text "ONLINE") then ((true, h), s') else rest

    -- From the restart on.
    unfoldable pub restart_and_check :
        Resource → Text → Text → Health → List ℕ → ℕ → Healer W → Outcome × Healer W
    restart_and_check r unit before health_before attempts now s =
        let history' = set_attempts r.name attempts s.history in
        let noted =
          audit (text "SELF_HEAL_RESTART") r.name (text "restart") (text "ATTEMPT")
            (some (message (text "unit=" ++ unit)))
            (record s { history = history'; saved = some (prune_state history' now) }) in
        let ((done, error), s1) = restart_unit unit r.name now noted in
        let ((online, last), s2) = await_recovery recovery_check_attempts r health_before s1 in
        let after = upper (or_else last.state (text "OFFLINE")) in
        if not done
        then (
          restart_failed before unit (length attempts) error,
          audit (text "SELF_HEAL_RESTART") r.name (text "restart") (text "FAILED")
              (some (message error)) s1,
        )
        else if online
        then (
          recovered before unit (length attempts) last.latency_ms,
          audit (text "SELF_HEAL_RECOVERED") r.name (text "restart") (text "ONLINE") none s2,
        )
        else (
          still_unhealthy before after unit (length attempts) last.error,
          audit (text "SELF_HEAL_RESTART") r.name (text "post_restart_health")
              (text "STILL_UNHEALTHY") (some (message after)) s2,
        )

    -- From the first health check on.
    unfoldable pub heal_unit : Bool → ℕ → Resource → Text → Healer W → Outcome × Healer W
    heal_unit dry_run now r unit s0 =
        let (health_before, s1) = health_state r s0 in
        let before = upper (or_else health_before.state (text "OFFLINE")) in
        let attempts = prune_attempts (attempts_of r.name s1.history) now in
        let s2 = record s1 { history = set_attempts r.name attempts s1.history } in
        let wait = retry_after attempts now in
        let ((loaded, unit_error), s3) = unit_is_loaded unit s2 in
        if not (contains trigger_states before)
        then (no_action before, s1)
        else if leb restart_limit (length attempts)
        then (
          rate_limited before (length attempts) wait,
          audit (text "SELF_HEAL_BLOCKED") r.name (text "restart") (text "RATE_LIMITED")
              (some (retry_in wait)) s2,
        )
        else if not loaded
        then (
          unit_not_loaded before unit unit_error,
          audit (text "SELF_HEAL_BLOCKED") r.name (text "unit_validation") (text "UNIT_NOT_LOADED")
              (some (message unit_error)) s3,
        )
        else if dry_run
        then (would_restart before unit (length attempts), s3)
        else restart_and_check r unit before health_before (attempts ++ now ∷ []) now s3

    unfoldable pub heal_resource : Bool → ℕ → Resource → Healer W → Result Outcome × Healer W
    heal_resource dry_run now r s =
        if not r.enabled
        then (ok (skipped (text "resource_disabled")), s)
        else if not r.self_heal_enabled
        then (ok (skipped (text "self_heal_disabled")), s)
        else elim (validate_systemd_unit r.systemd_unit) [
          | err e ↦ (err e, s)
          | ok unit ↦
              if is_empty unit
              then (ok config_error, s)
              else let (o, s') = heal_unit dry_run now r unit s in (ok o, s')
        ]
