-- ===== src/Core/Normalize.antt =====
-- core.py: `_normalize_device`, `_normalize_resource` and `_normalize_group`, which give every
-- record read from or written to the JSON files its defaults and its bounds.
pub mod Stable
pub mod Groups
use ge360_bridge.Base.{
  ℕ, Bool, true, false, ◌&&◌, not, Option, none, some, List, [], ◌∷◌, ◌++◌, is_empty, take, keep,
  if◌then◌else◌,
}
use ge360_bridge.Base.Text.{Text, text, contains, lower, or_else}
use ge360_bridge.Base.Sorted.{sort_set}
use ge360_bridge.Core.Data.{
  Stdlib, Resource, RawResource, Device, RawDevice, Group, RawGroup, or_default,
}
use ge360_bridge.Core.Validate.{
  device_types, resource_protocols, validate_timeout, validate_systemd_unit, normalize_tags,
}

-- `d.get(k) or default`, and `d.get(k, default)`
abbrev pub text_or : Option Text → Text → Text
text_or none d = d
text_or (some t) d = or_else t d

abbrev pub get_or {ℓ} : {A : Type ℓ} → Option A → A → A
get_or none d = d
get_or (some a) d = a

abbrev pub non_empty : Option Text → Option Text
non_empty none = none
non_empty (some []) = none
non_empty (some (c ∷ s)) = some (c ∷ s)

-- `set(str(x) for x in xs if x)`, sorted
abbrev pub clean_set : List Text → List Text
clean_set xs = sort_set (keep (λ x. not (is_empty x)) xs)

-- `a or b or []`
abbrev pub list_or : Option (List Text) → Option (List Text) → List Text
list_or none b = get_or b []
list_or (some []) b = get_or b []
list_or (some (x ∷ xs)) b = x ∷ xs

-- `value if value in allowed else default`
abbrev pub one_of : List Text → Text → Text → Text
one_of allowed default value = if contains allowed value then value else default

unfoldable pub legacy_device_id : Stdlib → RawDevice → Text
legacy_device_id lib d =
    text "dev_"
    ++ take 12 (
        lib.sha256_hex (d.public_key ++ (text "|" ++ (d.vpn_ip ++ (text "|" ++ get_or d.name [])))))

unfoldable pub normalize_device : Stdlib → Text → RawDevice → Device
unfolding legacy_device_id contains lower normalize_tags
normalize_device lib created_at_default d = record {
  device_id = text_or d.device_id (legacy_device_id lib d);
  name = text_or d.name [];
  device_type =
      one_of device_types (text "unknown") (lower (text_or d.device_type (text "unknown")));
  owner = text_or d.owner [];
  vpn_ip = d.vpn_ip;
  public_key = d.public_key;
  preshared_key = d.preshared_key;
  token = d.token;
  created_at = text_or d.created_at created_at_default;
  expires_at = non_empty d.expires_at;
  notes = text_or d.notes [];
  tags = or_default (normalize_tags (get_or d.tags [])) [];
  enabled = get_or d.enabled true;
}

unfoldable pub normalize_resource : RawResource → Resource
unfolding contains lower validate_timeout validate_systemd_unit sort_set
normalize_resource r =
    let unit = or_default (validate_systemd_unit (get_or r.systemd_unit [])) [] in
    record {
      name = text_or r.name [];
      bridge_port = get_or r.bridge_port (get_or r.listen_port 0);
      target_host = lower (text_or r.target_host (text "127.0.0.1"));
      target_port = get_or r.target_port 0;
      allowed_devices = sort_set (get_or r.allowed_devices []);
      icon = take 64 (text_or r.icon (text "server"));
      description = take 500 (text_or r.description []);
      protocol = one_of resource_protocols (text "tcp") (lower (text_or r.protocol (text "tcp")));
      health_url = take 500 (text_or r.health_url []);
      timeout_ms = or_default (validate_timeout (get_or r.timeout_ms 2000)) 2000;
      systemd_unit = unit;
      self_heal_enabled = get_or r.self_heal_enabled false && not (is_empty unit);
      denied_devices = sort_set (get_or r.denied_devices []);
      enabled = get_or r.enabled true;
    }

unfoldable pub normalize_group : RawGroup → Group
unfolding sort_set
normalize_group g = record {
  name = text_or g.name [];
  description = take 500 (text_or g.description []);
  device_ids = clean_set (get_or g.device_ids []);
  allowed_services = clean_set (list_or g.allowed_services g.allowed_resources);
  enabled = get_or g.enabled true;
}

-- A normalised record as the JSON files hold it.
abbrev pub raw_resource : Resource → RawResource
raw_resource r = record {
  name = some r.name;
  bridge_port = some r.bridge_port;
  listen_port = some r.bridge_port;
  target_host = some r.target_host;
  target_port = some r.target_port;
  allowed_devices = some r.allowed_devices;
  icon = some r.icon;
  description = some r.description;
  protocol = some r.protocol;
  health_url = some r.health_url;
  timeout_ms = some r.timeout_ms;
  systemd_unit = some r.systemd_unit;
  self_heal_enabled = some r.self_heal_enabled;
  denied_devices = some r.denied_devices;
  enabled = some r.enabled;
}

abbrev pub raw_device : Device → RawDevice
raw_device d = record {
  device_id = some d.device_id;
  name = some d.name;
  device_type = some d.device_type;
  owner = some d.owner;
  vpn_ip = d.vpn_ip;
  public_key = d.public_key;
  preshared_key = d.preshared_key;
  token = d.token;
  created_at = some d.created_at;
  expires_at = d.expires_at;
  notes = some d.notes;
  tags = some d.tags;
  enabled = some d.enabled;
}

abbrev pub raw_group : Group → RawGroup
raw_group g = record {
  name = some g.name;
  description = some g.description;
  device_ids = some g.device_ids;
  allowed_services = some g.allowed_services;
  allowed_resources = some g.allowed_services;
  enabled = some g.enabled;
}
