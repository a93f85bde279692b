-- ===== src/Health/Summary/Totals.antt =====
-- health.py: the counts of a summary and its total.
use ge360_bridge.Base.{ℕ, ◌+◌, Bool}
use ge360_bridge.Health.Check.{
  State, online, degraded, offline, timeout, unauthorized, bad_response, HealthResult,
}
use ge360_bridge.Health.Summary.{same_state}

-- The result has the state.
abbrev pub has_state : State → HealthResult → Bool
has_state state h = same_state h.state state

abbrev pub sum : (State → ℕ) → ℕ
sum counts =
    counts online
    + counts degraded
    + counts offline
    + counts timeout
    + counts unauthorized
    + counts bad_response
