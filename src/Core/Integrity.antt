-- ===== src/Core/Integrity.antt =====
-- The registries refer to one another by name and id. A store is consistent when no name, id or
-- port is repeated and every group names known devices and resources only; every operation of
-- core.py keeps it so.
pub mod Resources
pub mod Removal
pub mod Groups
pub mod Devices
pub mod Rename
pub mod Steps
use ge360_bridge.Base.{
  ◌≡◌, refl, sym, ap, ◌∙◌, ◌⊎◌, inl, inr, true, false, Option, List, [], ◌∷◌, map, All, arith,
  if◌then◌else◌,
}
use ge360_bridge.Base.Text.{Text, contains}
use ge360_bridge.Core.Data.{Result, ok, Stdlib, Resource, Device, Group}
use ge360_bridge.Core.Store.{
  Store, has_duplicates, has_duplicate_ports, list_resources, list_devices, list_groups,
  check_groups, save_resources, save_groups, audit_acl,
}
use ge360_bridge.Core.Store.ResourceFile.{
  IsNormal, names, ports, with_resources, list_resources-with,
}
use ge360_bridge.Core.Store.Checks.{
  ids, device_names, group_names, renormalized, renormalized_groups, renormalized-IsNormal,
  save_resources_cases, save_groups_cases, with_groups, list_groups-with, check_groups_mono,
}

pub record IsConsistent (lib : Stdlib) (s : Store) : Type 0 where
  pub resource_names : has_duplicates (names (list_resources s)) ≡ false
  pub resource_ports : has_duplicate_ports (ports (list_resources s)) ≡ false
  pub device_ids : has_duplicates (ids (list_devices lib s)) ≡ false
  pub devices : has_duplicates (device_names (list_devices lib s)) ≡ false
  pub groups : has_duplicates (group_names (list_groups s)) ≡ false
  pub references :
      check_groups (ids (list_devices lib s)) (names (list_resources s)) (list_groups s) ≡ ok tt

module _ (lib : Stdlib) (s : Store) (c : IsConsistent lib s) where
  -- A save of resources that loses no name.
  pub save_resources-IsConsistent :
      (rs : List Resource)
      → ((a : Text)
          → contains (names (list_resources s)) a ≡ true
          → contains (names (renormalized rs)) a ≡ true)
      → IsConsistent lib (save_resources rs s).1
  unfolding list_devices list_groups
  save_resources-IsConsistent rs more = elim (save_resources_cases rs s) [
    | inl same ↦ rw same c
    | inr (n, p, e) ↦ rw e (
        let listed = list_resources-with (renormalized rs) s (renormalized-IsNormal rs) in
        record {
          resource_names = ap (λ l. has_duplicates (names l)) listed ∙ n;
          resource_ports = ap (λ l. has_duplicate_ports (ports l)) listed ∙ p;
          device_ids = c.device_ids;
          devices = c.devices;
          groups = c.groups;
          references = rw listed (
              check_groups_mono (ids (list_devices lib s)) (ids (list_devices lib s))
                (names (list_resources s)) (names (renormalized rs)) (λ a h. h) more (list_groups s)
                c.references);
        })
  ]

  -- A save of groups checks them against the devices and resources there are.
  pub save_groups-IsConsistent : (gs : List Group) → IsConsistent lib (save_groups lib gs s).1
  unfolding list_devices list_resources
  save_groups-IsConsistent gs = elim (save_groups_cases lib gs s) [
    | inl same ↦ rw same c
    | inr (n, k, e) ↦ rw e (
        let listed = list_groups-with gs s in
        record {
          resource_names = c.resource_names;
          resource_ports = c.resource_ports;
          device_ids = c.device_ids;
          devices = c.devices;
          groups = ap (λ l. has_duplicates (group_names l)) listed ∙ n;
          references = rw listed k;
        })
  ]

-- The audit trail is no part of the registries.
pub audit_acl-IsConsistent :
    (lib : Stdlib) (action : Text) (d : Option Device) (r : Option Text) (result : Text) (s : Store)
    → IsConsistent lib s
    → IsConsistent lib (audit_acl action d r result s).1
unfolding audit_acl list_resources list_devices list_groups
audit_acl-IsConsistent lib action d r result s c = record {
  resource_names = c.resource_names;
  resource_ports = c.resource_ports;
  device_ids = c.device_ids;
  devices = c.devices;
  groups = c.groups;
  references = c.references;
}
