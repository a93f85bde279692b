-- ===== src/Health/Summary.antt =====
-- health.py: `health_summary`. Every result has a state of `HEALTH_STATES`, so no count_state is redirected.
pub mod Totals
use ge360_bridge.Base.{ℕ, suc, ◌==◌, Bool, List, [], ◌∷◌, length, if◌then◌else◌}
use ge360_bridge.Health.Check.{
  State, online, degraded, offline, timeout, unauthorized, bad_response, HealthResult,
}

-- The names of the states differ; this numbers them.
abbrev pub rank : State → ℕ
rank online = 0
rank degraded = 1
rank offline = 2
rank timeout = 3
rank unauthorized = 4
rank bad_response = 5

abbrev pub same_state : State → State → Bool
same_state a b = rank a == rank b

-- The dictionary of the counts, and its key TOTAL.
pub record Summary : Type 0 where
  pub counts : State → ℕ
  pub total : ℕ

-- `counts[state] += 1`
unfoldable pub count_state : State → (State → ℕ) → State → ℕ
count_state state counts x = if same_state state x then suc (counts x) else counts x

-- The loop over the results.
unfoldable pub count_all : List HealthResult → (State → ℕ) → State → ℕ
unfolding count_state
count_all [] counts = counts
count_all (h ∷ hs) counts = count_all hs (count_state h.state counts)

unfoldable pub health_summary : List HealthResult → Summary
unfolding count_all
health_summary results = record { counts = count_all results (λ x. 0); total = length results }
