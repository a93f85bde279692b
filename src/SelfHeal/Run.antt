-- ===== src/SelfHeal/Run.antt =====
-- self_healing.py: a run over the registry, and the report of `self_heal_status`. The lock on
-- `self_heal.lock` makes the runs follow one another, so a run is a function of the state.
use ge360_bridge.Base.{
  ℕ, suc, Bool, Option, none, some, List, [], ◌∷◌, map, keep, length, is_empty, leb, if◌then◌else◌,
}
use ge360_bridge.Base.Text.{Text, text, text_eq}
use ge360_bridge.Core.Data.{Result, ok, err, resource_not_found, Resource}
use ge360_bridge.Core.Store.{Store, list_resources}
use ge360_bridge.SelfHeal.State.{
  History, restart_limit, load_state, prune_state, attempts_of, retry_after,
}
use ge360_bridge.SelfHeal.Heal.{
  Machine, Healer, Outcome, skipped, config_error, no_action, rate_limited, unit_not_loaded,
  would_restart, restart_failed, recovered, still_unhealthy, heal_resource,
}

-- The "result" of an outcome.
abbrev pub result_of : Outcome → Text
result_of (skipped _) = text "SKIPPED"
result_of config_error = text "CONFIG_ERROR"
result_of (no_action _) = text "NO_ACTION"
result_of (rate_limited _ _ _) = text "RATE_LIMITED"
result_of (unit_not_loaded _ _ _) = text "UNIT_NOT_LOADED"
result_of (would_restart _ _ _) = text "WOULD_RESTART"
result_of (restart_failed _ _ _ _) = text "RESTART_FAILED"
result_of (recovered _ _ _ _) = text "RECOVERED"
result_of (still_unhealthy _ _ _ _ _) = text "STILL_UNHEALTHY"

-- `summary[key] = summary.get(key, 0) + 1`
unfoldable pub count_result : Text → List (Text × ℕ) → List (Text × ℕ)
count_result key [] = (key, 1) ∷ []
count_result key ((k, n) ∷ rest) =
    if text_eq k key then (k, suc n) ∷ rest else (k, n) ∷ count_result key rest

unfoldable pub summarize : List Outcome → List (Text × ℕ) → List (Text × ℕ)
summarize [] summary = summary
summarize (o ∷ os) summary = summarize os (count_result (result_of o) summary)

pub record Report : Type 0 where
  pub dry_run : Bool
  pub summary : List (Text × ℕ)
  pub results : List Outcome

-- `list_resources`, or the resource that was asked for.
unfoldable pub selected : Option Text → Store → List Resource
selected none files = list_resources files
selected (some name) files = keep (λ (r : Resource). text_eq r.name name) (list_resources files)

module _ {W : Type 0} (m : Machine W) where
  unfoldable pub heal_all : Bool → ℕ → List Resource → Healer W → Result (List Outcome) × Healer W
  heal_all dry_run now [] s = (ok [], s)
  heal_all dry_run now (r ∷ rs) s =
      let (first, s1) = heal_resource m dry_run now r s in
      let (rest, s2) = heal_all dry_run now rs s1 in
      elim first [
        | err e ↦ (err e, s1)
        | ok o ↦ elim rest [ err e ↦ (err e, s2) | ok os ↦ (ok (o ∷ os), s2) ]
      ]

  -- A run starts from the file; what an error interrupts is not saved.
  unfoldable pub run_self_heal :
      Option Text → Bool → ℕ → Store → Healer W → Result Report × Healer W
  run_self_heal resource_name dry_run now files s0 =
      let resources = selected resource_name files in
      let started = record s0 { history = prune_state (load_state s0.saved) now } in
      let (results, s1) = heal_all dry_run now resources started in
      let done = record s1 { saved = some (prune_state s1.history now) } in
      elim resource_name [
        | none ↦ elim results [ err e ↦ (err e, s1) | ok os ↦ (ok (report os), done) ]
        | some name ↦
            if is_empty resources
            then (err resource_not_found, s0)
            else elim results [ err e ↦ (err e, s1) | ok os ↦ (ok (report os), done) ]
      ]
    where
      report : List Outcome → Report
      report os = record { dry_run = dry_run; summary = summarize os []; results = os }

pub record StatusRow : Type 0 where
  pub resource : Text
  pub self_heal_enabled : Bool
  pub systemd_unit : Text
  pub attempts_in_window : ℕ
  pub rate_limited : Bool
  pub retry_after_seconds : ℕ

unfoldable pub status_row : History → ℕ → Resource → StatusRow
status_row state now r =
    let attempts = attempts_of r.name state in
    record {
      resource = r.name;
      self_heal_enabled = r.self_heal_enabled;
      systemd_unit = r.systemd_unit;
      attempts_in_window = length attempts;
      rate_limited = leb restart_limit (length attempts);
      retry_after_seconds =
          if leb restart_limit (length attempts) then retry_after attempts now else 0;
    }

unfoldable pub self_heal_status : ℕ → Store → Option History → List StatusRow
self_heal_status now files saved =
    map (status_row (prune_state (load_state saved) now) now) (list_resources files)
