-- ===== src/Core/Validate/Units.antt =====
-- core.py `validate_systemd_unit`: which units it lets through.
use ge360_bridge.Base.{◌≡◌, refl, ap, ◌∙◌, inl, inr, [], ◌∷◌, arith}
use ge360_bridge.Base.Text.{Text, strip}
use ge360_bridge.Base.Text.Normal.{strip_idem}
use ge360_bridge.Core.Data.{ok, or_default, Result-cases}
use ge360_bridge.Core.Validate.{check_unit, validate_systemd_unit}

check_unit_lem : (u v : Text) → check_unit u ≡ ok v → v ≡ u
unfolding check_unit
check_unit_lem [] v h = ground arith
check_unit_lem (c ∷ s) v h = ground arith

-- A unit that is accepted is accepted again, unchanged.
pub validate_systemd_unit_stable :
    (u v : Text) → validate_systemd_unit u ≡ ok v → validate_systemd_unit v ≡ ok v
unfolding validate_systemd_unit
validate_systemd_unit_stable u v h =
    let e = check_unit_lem (strip u) v h in
    ap (λ t. check_unit (strip t)) e ∙ ap check_unit (strip_idem u) ∙ h

pub validate_systemd_unit-nil : validate_systemd_unit [] ≡ ok []
unfolding validate_systemd_unit
validate_systemd_unit-nil = refl

-- The unit that a normalised resource holds is its own normalisation.
pub unit_stable :
    (u : Text)
    → or_default (validate_systemd_unit (or_default (validate_systemd_unit u) [])) []
      ≡ or_default (validate_systemd_unit u) []
unit_stable u = elim (Result-cases (validate_systemd_unit u)) [
  | inl (v, e) ↦ rw e (rw (validate_systemd_unit_stable u v e))
  | inr (x, e) ↦ rw e (rw validate_systemd_unit-nil)
]
