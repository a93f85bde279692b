-- ===== src/Core/Groups.antt =====
-- core.py: the operations on groups.
use ge360_bridge.Base.{
  Bool, true, false, not, Option, none, some, List, [], ◌∷◌, ◌++◌, keep, find, any, take, length,
  update_first, ◌==◌, if◌then◌else◌,
}
use ge360_bridge.Base.Text.{Text, text, text_eq, strip}
use ge360_bridge.Base.Sorted.{sort_set}
use ge360_bridge.Core.Data.{
  Stdlib, Resource, Device, Group, group_exists, group_not_found, device_not_found,
  resource_not_found,
}
use ge360_bridge.Core.Validate.{validate_name}
use ge360_bridge.Core.Store.{
  Action, ◌>>=◌, ◌>>◌, pure, gets, lift, or_raise, raise_if, list_resources, list_groups,
  save_groups, find_device, audit_acl,
}

abbrev pub is_group : Text → Group → Bool
is_group name g = text_eq g.name name

-- `s.add(x)` or `s.discard(x)` on a set, written back sorted.
abbrev pub set_member : Text → Bool → List Text → List Text
set_member x true xs = sort_set (x ∷ xs)
set_member x false xs = sort_set (keep (λ y. not (text_eq y x)) xs)

abbrev pub assign_device : Text → Bool → Group → Group
assign_device device_id assigned g = record g {
  device_ids = set_member device_id assigned g.device_ids;
}

abbrev pub assign_resource : Text → Bool → Group → Group
assign_resource name allowed g = record g {
  allowed_services = set_member name allowed g.allowed_services;
}

abbrev pub new_group : Text → Text → Group
new_group name description = record {
  name = name;
  description = take 500 (strip description);
  device_ids = [];
  allowed_services = [];
  enabled = true;
}

module _ (lib : Stdlib) where
  unfoldable pub create_group : Text → Text → Action Group
  create_group name description = do
    lift (validate_name name)
    groups ← gets list_groups
    raise_if (any (is_group name) groups) group_exists
    let group = new_group name description
    save_groups lib (groups ++ group ∷ [])
    pure group

  unfoldable pub remove_group : Text → Action Bool
  remove_group name = do
    groups ← gets list_groups
    let kept = keep (λ g. not (is_group name g)) groups
    if length kept == length groups
        then pure false
        else save_groups lib kept >> (audit_acl (text "group_remove") none none name >> pure true)

  -- The loop that changes the group of this name, saves, and notes the change in the audit trail.
  unfoldable pub change_group :
      Text → (Group → Group) → Text → Option Device → Option Text → Action Group
  change_group name f action device resource = do
    groups ← gets list_groups
    group ← or_raise (find (is_group name) groups) group_not_found
    save_groups lib (update_first (is_group name) f groups)
    audit_acl action device resource name
    pure (f group)

  unfoldable pub set_group_enabled : Text → Bool → Action Group
  unfolding change_group
  set_group_enabled name enabled =
      change_group name (λ g. record g { enabled = enabled })
        (if enabled then text "group_enable" else text "group_disable") none none

  unfoldable pub set_group_device : Text → Text → Bool → Action Group
  unfolding change_group
  set_group_device group_name device_identifier assigned = do
    found ← gets (find_device lib device_identifier)
    device ← or_raise found device_not_found
    change_group group_name (assign_device device.device_id assigned)
        (if assigned then text "group_device_add" else text "group_device_remove") (some device)
        none

  unfoldable pub set_group_resource : Text → Text → Bool → Action Group
  unfolding change_group
  set_group_resource group_name resource_name allowed = do
    resources ← gets list_resources
    raise_if (not (any (λ (r : Resource). text_eq r.name resource_name) resources))
        resource_not_found
    change_group group_name (assign_resource resource_name allowed)
        (if allowed then text "group_resource_grant" else text "group_resource_revoke") none
        (some resource_name)
