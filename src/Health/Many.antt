-- ===== src/Health/Many.antt =====
-- health.py: `check_resources`. The pool is the list of the ended checks, in the order in which they
-- end; a check that ends in an exception gives `none`.
pub mod Order
use ge360_bridge.Base.{ℕ, zero, suc, Bool, Option, none, some, List, [], ◌∷◌, map, if◌then◌else◌}
use ge360_bridge.Base.Text.{Text, text_eq}
use ge360_bridge.Core.Data.{Resource}
use ge360_bridge.Health.Check.{
  HealthResult, bad_response, health_engine_error, no_checks, finish_check,
}

-- `indexed[name]`: a later resource of the name replaces an earlier one.
unfoldable pub index_from : ℕ → Text → List Resource → Option ℕ
unfolding text_eq
index_from i name [] = none
index_from i name (r ∷ rs) = elim (index_from (suc i) name rs) [
  | some j ↦ some j
  | none ↦ if text_eq r.name name then some i else none
]

-- `out[i] = x`
unfoldable pub set_at {ℓ} : {A : Type ℓ} → ℕ → A → List A → List A
set_at n x [] = []
set_at zero x (y ∷ ys) = x ∷ ys
set_at (suc n) x (y ∷ ys) = y ∷ set_at n x ys

-- The result of an ended check.
abbrev pub settle : Resource → Option HealthResult → HealthResult
settle r none = record {
  name = r.name;
  state = bad_response;
  problem = some health_engine_error;
  checks = no_checks;
}
settle r (some h) = h

abbrev pub Out : Type 0
Out = List (Option HealthResult)

-- One turn of the loop over the ended checks. The name of a resource is always in `indexed`.
unfoldable pub place : List Resource → Resource → Option HealthResult → Out → Out
unfolding index_from set_at
place resources r ended out = elim (index_from 0 r.name resources) [
  | none ↦ out
  | some i ↦ set_at i (some (settle r ended)) out
]

unfoldable pub place_all : List Resource → List (Resource × Option HealthResult) → Out → Out
unfolding place
place_all resources [] out = out
place_all resources ((r, ended) ∷ rest) out = place_all resources rest (place resources r ended out)

-- `[x for x in out if x is not None]`
unfoldable pub present : Out → List HealthResult
present [] = []
present (none ∷ out) = present out
present (some h ∷ out) = h ∷ present out

unfoldable pub check_resources :
    List Resource → List (Resource × Option HealthResult) → List HealthResult
unfolding place_all present
check_resources resources ended = present (place_all resources ended (map (λ r. none) resources))
