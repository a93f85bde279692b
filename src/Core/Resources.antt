-- ===== src/Core/Resources.antt =====
-- core.py: `register_resource`, `update_resource` and `remove_resource`.
pub mod Checks
use ge360_bridge.Base.{
  ℕ, Bool, true, false, not, List, [], ◌∷◌, ◌++◌, map, keep, any, length, update_first, ◌==◌,
  if◌then◌else◌,
}
use ge360_bridge.Base.Text.{Text, text_eq, contains}
use ge360_bridge.Core.Data.{Stdlib, Resource, Group}
use ge360_bridge.Core.Normalize.{get_or}
use ge360_bridge.Core.Store.{
  Store, Action, ◌>>=◌, ◌>>◌, pure, gets, lift, list_resources, save_resources, list_devices,
  list_groups, save_groups, find_resource,
}
use ge360_bridge.Core.Resources.Checks.{
  NewResource, ResourceChanges, has_name, checked_resource, checked_changes,
}

abbrev pub without_resource : Text → Group → Group
without_resource name g = record g {
  allowed_services = keep (λ x. not (text_eq x name)) g.allowed_services;
}

module _ (lib : Stdlib) where
  unfoldable pub register_resource : NewResource → Action Resource
  register_resource a = do
    items ← gets list_resources
    devices ← gets (list_devices lib)
    resource ← lift (checked_resource lib a items devices)
    save_resources (items ++ resource ∷ [])
    pure resource

  unfoldable pub update_resource : Text → ResourceChanges → Action Resource
  update_resource name c = do
    items ← gets list_resources
    target ← lift (checked_changes lib name c items)
    save_resources (update_first (has_name name) (λ r. target) items)
    found ← gets (find_resource name)
    pure (get_or found target)

  -- The groups are written only where one of them named the resource.
  unfoldable pub remove_resource : Text → Action Bool
  remove_resource name = do
    items ← gets list_resources
    let kept = keep (λ r. not (has_name name r)) items
    if length kept == length items then pure false else do
      save_resources kept
      groups ← gets list_groups
      if any (λ (g : Group). contains g.allowed_services name) groups
          then save_groups lib (map (without_resource name) groups) >> pure true
          else pure true
