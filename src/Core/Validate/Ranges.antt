-- ===== src/Core/Validate/Ranges.antt =====
-- core.py `validate_port` and `validate_target_host`: what they let through.
use ge360_bridge.Base.{ℕ, ◌≤◌, ◌≡◌, true, arith}
use ge360_bridge.Base.Text.{Text, contains}
use ge360_bridge.Core.Data.{ok}
use ge360_bridge.Core.Validate.{loopback_targets, validate_port, validate_target_host}

pub validate_port_range : (p : ℕ) {q : ℕ} → validate_port p ≡ ok q → (1 ≤ p) × (p ≤ 65535)
unfolding validate_port
validate_port_range p h = ground arith

pub validate_target_host_local :
    (host : Text) {v : Text} → validate_target_host host ≡ ok v → contains loopback_targets v ≡ true
unfolding validate_target_host
validate_target_host_local host h = ground arith
