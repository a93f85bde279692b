-- ===== src/Core/Resources/Checks/Laws.antt =====
-- What the checks of `register_resource` and `update_resource` let through.
use ge360_bridge.Base.{
  ◌≤◌, ◌≡◌, inl, inr, true, false, ◌&&◌, List, find, any, all, map, keep, is_empty, arith,
  Option-cases, find-holds,
}
use ge360_bridge.Base.Text.{Text, text_eq_iff, contains}
use ge360_bridge.Core.Data.{ok, Stdlib, Resource, Device}
use ge360_bridge.Core.Validate.{loopback_targets}
use ge360_bridge.Core.Resources.Checks.{
  NewResource, ResourceChanges, has_name, uses_port, is_reserved, checked_changes,
}

module _ (lib : Stdlib) (name : Text) (c : ResourceChanges) (items : List Resource) {r : Resource}
    (h : checked_changes lib name c items ≡ ok r) where
  pub checked_changes_name : r.name ≡ name
  unfolding checked_changes
  checked_changes_name = elim (Option-cases (find (has_name name) items)) [
    | inl missing ↦ absurd (ground arith)
    | inr (x, e) ↦ ground (arith, find-holds (has_name name) items e, text_eq_iff x.name name)
  ]

abbrev enabled_names : List Device → List Text
enabled_names devices = map (λ (d : Device). d.name) (keep (λ (d : Device). d.enabled) devices)

-- A new resource has the name and ports that were asked for, which are free, in range and not
-- reserved; its target is this machine; it allows known, enabled devices only; and it has a unit
-- if it heals itself.
abbrev pub IsRegistrable : NewResource → List Resource → List Device → Resource → Type 0
IsRegistrable a items devices r =
    (r.name ≡ a.name)
    × (r.bridge_port ≡ a.bridge_port)
    × (1 ≤ r.bridge_port)
    × (r.bridge_port ≤ 65535)
    × (is_reserved r.bridge_port ≡ false)
    × (contains loopback_targets r.target_host ≡ true)
    × (any (has_name r.name) items ≡ false)
    × (any (uses_port r.bridge_port) items ≡ false)
    × (all (contains (enabled_names devices)) r.allowed_devices ≡ true)
    × ((r.self_heal_enabled && is_empty r.systemd_unit) ≡ false)
