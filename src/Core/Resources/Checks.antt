-- ===== src/Core/Resources/Checks.antt =====
-- core.py: the checks that `register_resource` and `update_resource` make before they write, and
-- the resource that they come to.
pub mod Laws
use ge360_bridge.Base.{
  ℕ, Bool, true, false, not, ◌&&◌, ◌||◌, Option, none, some, List, [], ◌∷◌, ◌++◌, map, keep, find,
  any, all, take, is_empty, ◌==◌,
}
use ge360_bridge.Base.Text.{Text, text, text_eq, contains, strip}
use ge360_bridge.Base.Sorted.{sort_set}
use ge360_bridge.Core.Data.{
  Error, Result, ok, err, ◌>>=◌, ◌>>◌, raise_if, Stdlib, Resource, Device, self_heal_without_unit,
  reserved_port, resource_exists, port_in_use, unknown_devices, resource_not_found,
}
use ge360_bridge.Core.Validate.{
  reserved_bridge_ports, validate_name, validate_port, validate_target_host,
  validate_resource_protocol, validate_resource_icon, validate_timeout, validate_health_url,
  validate_systemd_unit,
}
use ge360_bridge.Core.Normalize.{get_or}

-- The arguments of `register_resource`.
pub record NewResource : Type 0 where
  pub name : Text
  pub bridge_port : ℕ
  pub target_host : Text
  pub target_port : ℕ
  pub allowed_devices : List Text
  pub icon : Text
  pub description : Text
  pub protocol : Text
  pub health_url : Text
  pub timeout_ms : ℕ
  pub systemd_unit : Text
  pub self_heal_enabled : Bool

-- The arguments of `update_resource`: `none` keeps what the resource has.
pub record ResourceChanges : Type 0 where
  pub icon : Option Text
  pub description : Option Text
  pub protocol : Option Text
  pub bridge_port : Option ℕ
  pub target_host : Option Text
  pub target_port : Option ℕ
  pub health_url : Option Text
  pub timeout_ms : Option ℕ
  pub enabled : Option Bool
  pub systemd_unit : Option Text
  pub self_heal_enabled : Option Bool

abbrev pub is_reserved : ℕ → Bool
is_reserved port = any (λ p. p == port) reserved_bridge_ports

abbrev pub has_name : Text → Resource → Bool
has_name name r = text_eq r.name name

abbrev pub uses_port : ℕ → Resource → Bool
uses_port port r = r.bridge_port == port

-- `Resource(...)`, once every argument is validated.
abbrev pub new_resource : NewResource → Text → Text → Text → ℕ → Text → Text → List Text → Resource
new_resource a host protocol icon timeout_ms health_url unit requested = record {
  name = a.name;
  bridge_port = a.bridge_port;
  target_host = host;
  target_port = a.target_port;
  allowed_devices = requested;
  icon = icon;
  description = take 500 (strip a.description);
  protocol = protocol;
  health_url = health_url;
  timeout_ms = timeout_ms;
  systemd_unit = unit;
  self_heal_enabled = a.self_heal_enabled;
  denied_devices = [];
  enabled = true;
}

-- The validated changes, written over the fields of the resource.
changed :
    ResourceChanges → ℕ → Text → ℕ → Text → Text → ℕ → Text → Text → Bool → Resource → Resource
changed c port host target_port protocol icon timeout_ms health_url unit heal target =
    record target {
      bridge_port = port;
      target_host = host;
      target_port = target_port;
      protocol = protocol;
      icon = icon;
      description = take 500 (strip (get_or c.description target.description));
      health_url = health_url;
      timeout_ms = timeout_ms;
      systemd_unit = unit;
      self_heal_enabled = heal;
      enabled = get_or c.enabled target.enabled;
    }

-- `next(..., None)`, and the error where there is none
abbrev pub found_or {ℓ} : {A : Type ℓ} → Option A → Error → Result A
found_or none e = err e
found_or (some a) e = ok a

module _ (lib : Stdlib) where
  -- The checks of `register_resource`, against the resources and devices listed, up to the
  -- resource that it appends.
  unfoldable pub checked_resource : NewResource → List Resource → List Device → Result Resource
  checked_resource a items devices = do
    validate_name a.name
    validate_port a.bridge_port
    validate_port a.target_port
    host ← validate_target_host a.target_host
    protocol ← validate_resource_protocol a.protocol
    icon ← validate_resource_icon a.icon
    timeout_ms ← validate_timeout a.timeout_ms
    health_url ← validate_health_url lib a.health_url a.target_port
    unit ← validate_systemd_unit a.systemd_unit
    raise_if (a.self_heal_enabled && is_empty unit) self_heal_without_unit
    raise_if (is_reserved a.bridge_port) reserved_port
    raise_if (any (has_name a.name) items) resource_exists
    raise_if (any (uses_port a.bridge_port) items) port_in_use
    let known = map (λ (d : Device). d.name) (keep (λ (d : Device). d.enabled) devices)
    let requested = sort_set a.allowed_devices
    raise_if (not (all (contains known) requested)) unknown_devices
    ok (new_resource a host protocol icon timeout_ms health_url unit requested)

  -- The checks of `update_resource`, up to the resource with its changes.
  unfoldable pub checked_changes : Text → ResourceChanges → List Resource → Result Resource
  unfolding changed
  checked_changes name c items = do
    target ← found_or (find (has_name name) items) resource_not_found
    port ← validate_port (get_or c.bridge_port target.bridge_port)
    raise_if (is_reserved port) reserved_port
    raise_if (any (λ r. not (has_name name r) && uses_port port r) items) port_in_use
    host ← validate_target_host (get_or c.target_host target.target_host)
    target_port ← validate_port (get_or c.target_port target.target_port)
    protocol ← validate_resource_protocol (get_or c.protocol target.protocol)
    health_url ← validate_health_url lib (get_or c.health_url target.health_url) target_port
    unit ← validate_systemd_unit (get_or c.systemd_unit target.systemd_unit)
    let heal = get_or c.self_heal_enabled target.self_heal_enabled
    raise_if (heal && is_empty unit) self_heal_without_unit
    icon ← validate_resource_icon (get_or c.icon target.icon)
    timeout_ms ← validate_timeout (get_or c.timeout_ms target.timeout_ms)
    ok (changed c port host target_port protocol icon timeout_ms health_url unit heal target)
