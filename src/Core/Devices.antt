-- ===== src/Core/Devices.antt =====
-- core.py: `set_device_enabled`, `rename_device`, `update_device_metadata` and `next_device_ip`.
use ge360_bridge.Base.{
  ℕ, zero, suc, ◌+◌, ◌/◌, ◌%◌, Bool, false, ◌||◌, Option, none, some, List, [], ◌∷◌, ◌++◌, map,
  find, any, take, update_first, ltb, if◌then◌else◌,
}
use ge360_bridge.Base.Text.{Text, text, text_eq, contains, strip}
use ge360_bridge.Base.Sorted.{sort_set}
use ge360_bridge.Core.Data.{
  Result, ok, err, Stdlib, Resource, Device, device_not_found, device_name_in_use, no_free_ip,
}
use ge360_bridge.Core.Validate.{
  validate_name, validate_device_type, validate_expiry, normalize_tags,
}
use ge360_bridge.Core.Store.{
  Store, Action, ◌>>=◌, ◌>>◌, pure, gets, lift, or_raise, raise_if, is_device, list_resources,
  save_resources, list_devices, save_devices, audit_acl,
}

-- `sorted({new if x == old else x for x in values})`, where the old name is in `values`.
abbrev pub renamed : Text → Text → List Text → List Text
renamed old new values =
    if contains values old
    then sort_set (map (λ x. if text_eq x old then new else x) values)
    else values

abbrev pub rename_in_resource : Text → Text → Resource → Resource
rename_in_resource old new r = record r {
  allowed_devices = renamed old new r.allowed_devices;
  denied_devices = renamed old new r.denied_devices;
}

abbrev pub mentions : Text → Resource → Bool
mentions name r = contains r.allowed_devices name || contains r.denied_devices name

-- The devices from the first match on: `any(d.name == new for d in items if d is not target)`.
unfoldable pub name_taken : (Device → Bool) → Text → List Device → Bool
name_taken is_target new [] = false
name_taken is_target new (d ∷ ds) =
    let rest = name_taken is_target new ds in
    if is_target d then any (λ (x : Device). text_eq x.name new) ds else text_eq d.name new || rest

-- The arguments of `update_device_metadata`; `expires_at` is `none` for `_UNSET`.
pub record DeviceChanges : Type 0 where
  pub device_type : Option Text
  pub owner : Option Text
  pub expires_at : Option (Option Text)
  pub notes : Option Text
  pub tags : Option (List Text)

-- `value.strip()[:n]`, where a value is given
abbrev pub change_text : Option Text → ℕ → Text → Text
change_text none n old = old
change_text (some t) n old = take n (strip t)

-- `if value is not None: target[...] = f(value)`
abbrev pub change_by {ℓ κ} : {A : Type ℓ} {B : Type κ} → Option A → (A → Result B) → B → Result B
change_by none f old = ok old
change_by (some a) f old = f a

abbrev pub with_metadata : DeviceChanges → Text → Option Text → List Text → Device → Device
with_metadata c device_type expires_at tags d = record d {
  device_type = device_type;
  owner = change_text c.owner 120 d.owner;
  expires_at = expires_at;
  notes = change_text c.notes 1000 d.notes;
  tags = tags;
}

abbrev decimal : ℕ → Text
decimal n =
    if ltb n 10
    then (48 + n) ∷ []
    else if ltb n 100
    then (48 + n / 10) ∷ (48 + n % 10) ∷ []
    else (48 + n / 100) ∷ (48 + n / 10 % 10) ∷ (48 + n % 10) ∷ []

-- The hosts of 10.88.0.0/24 from `n` on, of which there are `count`.
unfoldable pub hosts_from : ℕ → ℕ → List Text
hosts_from zero n = []
hosts_from (suc count) n = (text "10.88.0." ++ decimal n) ∷ hosts_from count (n + 1)

abbrev pub server_ip : Text
server_ip = text "10.88.0.1"

-- `network.hosts()` of the default network
unfoldable pub network_hosts : List Text
unfolding hosts_from
network_hosts = hosts_from 254 1

unfoldable pub first_free_ip : List Text → List Text → Result Text
first_free_ip used [] = err no_free_ip
first_free_ip used (ip ∷ ips) =
    let rest = first_free_ip used ips in
    if text_eq ip server_ip || contains used ip then rest else ok ip

abbrev pub enable : Bool → Device → Device
enable enabled d = record d { enabled = enabled }

abbrev pub set_name : Text → Device → Device
set_name new_name d = record d { name = new_name }

-- The second part of `rename_device`: the resources follow the name.
unfoldable pub rename_in_resources : Text → Text → Device → Action Device
rename_in_resources old_name new_name answer = do
  resources ← gets list_resources
  if any (mentions old_name) resources
      then save_resources (map (rename_in_resource old_name new_name) resources) >> pure answer
      else pure answer

module _ (lib : Stdlib) (now : Text) where
  -- The device found by `find`, or none: only then is anything written.
  unfoldable pub set_enabled_at : Text → Bool → List Device → Option Device → Action (Option Device)
  set_enabled_at identifier enabled items none = pure none
  set_enabled_at identifier enabled items (some d) = do
    save_devices lib now (update_first (is_device identifier) (enable enabled) items)
    audit_acl (if enabled then text "device_enable" else text "device_disable")
        (some (enable enabled d)) none (if enabled then text "enabled" else text "disabled")
    pure (some (enable enabled d))

  unfoldable pub set_device_enabled : Text → Bool → Action (Option Device)
  unfolding set_enabled_at
  set_device_enabled identifier enabled = do
    items ← gets (list_devices lib)
    set_enabled_at identifier enabled items (find (is_device identifier) items)

  unfoldable pub rename_device : Text → Text → Action Device
  unfolding name_taken rename_in_resources
  rename_device identifier new_name = do
    lift (validate_name new_name)
    items ← gets (list_devices lib)
    target ← or_raise (find (is_device identifier) items) device_not_found
    if text_eq new_name target.name then pure target else do
      raise_if (name_taken (is_device identifier) new_name items) device_name_in_use
      save_devices lib now (update_first (is_device identifier) (set_name new_name) items)
      rename_in_resources target.name new_name (set_name new_name target)

  unfoldable pub update_device_metadata : Text → DeviceChanges → Action Device
  update_device_metadata identifier c = do
    items ← gets (list_devices lib)
    target ← or_raise (find (is_device identifier) items) device_not_found
    device_type ← lift (change_by c.device_type validate_device_type target.device_type)
    expires_at ← lift (change_by c.expires_at validate_expiry target.expires_at)
    tags ← lift (change_by c.tags normalize_tags target.tags)
    let set = with_metadata c device_type expires_at tags
    save_devices lib now (update_first (is_device identifier) set items)
    pure (set target)

module _ (lib : Stdlib) where
  unfoldable pub next_device_ip : Store → Result Text
  next_device_ip s =
      first_free_ip (map (λ (d : Device). d.vpn_ip) (list_devices lib s)) network_hosts
