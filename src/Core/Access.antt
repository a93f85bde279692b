-- ===== src/Core/Access.antt =====
-- core.py: which device may reach which resource, and the overrides of one device.
pub mod Semantics
pub mod Override
use ge360_bridge.Base.{
  ℕ, Bool, true, false, not, ◌&&◌, ◌||◌, Option, none, some, List, [], ◌∷◌, ◌++◌, map, keep, find,
  any, update_first, ltb, if◌then◌else◌,
}
use ge360_bridge.Base.Text.{Text, text, text_eq, contains, starts_with}
use ge360_bridge.Base.Sorted.{sort_set}
use ge360_bridge.Core.Data.{Stdlib, Resource, Device, Group, device_not_found, resource_not_found}
use ge360_bridge.Core.Date.{from_iso_format}
use ge360_bridge.Core.Store.{
  Store, Action, ◌>>=◌, ◌>>◌, pure, gets, or_raise, list_resources, save_resources, find_device,
  audit_acl,
}

-- `expiry_date < today`; a date that does not parse never expires.
unfoldable pub device_is_expired : ℕ → Device → Bool
device_is_expired today d = elim d.expires_at [
  | none ↦ false
  | some e ↦ elim (from_iso_format e) [ none ↦ false | some day ↦ ltb day today ]
]

unfoldable pub device_is_active : ℕ → Device → Bool
device_is_active today d = d.enabled && not (device_is_expired today d)

unfoldable pub groups_for_device : Device → List Group → List Group
groups_for_device d groups =
    keep (λ (g : Group). g.enabled && contains g.device_ids d.device_id) groups

-- The first of the device's groups that allows the resource, or "none".
unfoldable pub group_source : Text → List Group → Text
group_source name [] = text "none"
group_source name (g ∷ gs) =
    let rest = group_source name gs in
    if contains g.allowed_services name then text "group:" ++ g.name else rest

unfoldable pub resource_access_source : ℕ → Resource → Device → List Group → Text
resource_access_source today r d groups =
    if not (device_is_active today d)
    then text "inactive"
    else if contains r.denied_devices d.name
    then text "deny_override"
    else if contains r.allowed_devices d.name
    then text "allow_override"
    else group_source r.name (groups_for_device d groups)

unfoldable pub resource_allows_device : ℕ → Resource → Device → List Group → Bool
resource_allows_device today r d groups =
    let source = resource_access_source today r d groups in
    text_eq source (text "allow_override") || starts_with source (text "group:")

-- The set of addresses, as the list of its elements.
unfoldable pub allowed_ips_for_resource : ℕ → Resource → List Device → List Group → List Text
allowed_ips_for_resource today r devices groups =
    map (λ (d : Device). d.vpn_ip) (keep (λ d. resource_allows_device today r d groups) devices)

unfoldable pub effective_resources_for_device :
    ℕ → Device → List Resource → List Group → List Resource
effective_resources_for_device today d resources groups =
    keep (λ (r : Resource). r.enabled && resource_allows_device today r d groups) resources

-- The decision of `set_device_access_override`; any other text is refused by the program.
pub data Decision : Type 0 where
  allow deny inherit : Decision

abbrev pub decision_text : Decision → Text
decision_text allow = text "allow"
decision_text deny = text "deny"
decision_text inherit = text "inherit"

abbrev discard : Text → List Text → List Text
discard name xs = keep (λ y. not (text_eq y name)) xs

abbrev pub override : Decision → Text → Resource → Resource
override allow name r = record r {
  allowed_devices = sort_set (name ∷ discard name r.allowed_devices);
  denied_devices = sort_set (discard name r.denied_devices);
}
override deny name r = record r {
  allowed_devices = sort_set (discard name r.allowed_devices);
  denied_devices = sort_set (name ∷ discard name r.denied_devices);
}
override inherit name r = record r {
  allowed_devices = sort_set (discard name r.allowed_devices);
  denied_devices = sort_set (discard name r.denied_devices);
}

module _ (lib : Stdlib) where
  unfoldable pub set_device_access_override : Text → Text → Decision → Action Resource
  set_device_access_override resource_name device_identifier decision = do
    found ← gets (find_device lib device_identifier)
    device ← or_raise found device_not_found
    resources ← gets list_resources
    let is_target = λ (r : Resource). text_eq r.name resource_name
    let set = override decision device.name
    resource ← or_raise (find is_target resources) resource_not_found
    save_resources (update_first is_target set resources)
    audit_acl (text "device_override_" ++ decision_text decision) (some device) (some resource_name)
        (decision_text decision)
    pure (set resource)

  unfoldable pub grant_device : Text → Text → Bool → Action Resource
  unfolding set_device_access_override
  grant_device service_name device_name grant =
      set_device_access_override service_name device_name (if grant then allow else deny)
