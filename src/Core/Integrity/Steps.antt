-- ===== src/Core/Integrity/Steps.antt =====
-- Every sequence of registry operations keeps the registries consistent.
use ge360_bridge.Base.{
  ap, ◌∙◌, inl, inr, Bool, List, [], ◌∷◌, Option-cases, find, update_first, some, ◌++◌,
}
use ge360_bridge.Base.Text.{Text, text, contains}
use ge360_bridge.Core.Data.{Stdlib, Resource}
use ge360_bridge.Core.Store.{
  Store, ◌>>=◌, pure, audit_acl, list_resources, save_resources, find_device,
}
use ge360_bridge.Core.Store.ResourceFile.{map-update_first}
use ge360_bridge.Core.Store.Checks.{keeps-bind}
use ge360_bridge.Core.Resources.Checks.{NewResource, ResourceChanges}
use ge360_bridge.Core.Resources.{register_resource, update_resource, remove_resource}
use ge360_bridge.Core.Devices.{
  DeviceChanges, set_device_enabled, rename_device, update_device_metadata,
}
use ge360_bridge.Core.Groups.{
  create_group, remove_group, set_group_enabled, set_group_device, set_group_resource,
}
use ge360_bridge.Core.Access.{Decision, decision_text, override, set_device_access_override}
use ge360_bridge.Core.Access.Override.{override-name, override_target}
use ge360_bridge.Core.Integrity.{IsConsistent, save_resources-IsConsistent, audit_acl-IsConsistent}
use ge360_bridge.Core.Integrity.Resources.{
  names-renormalized, register_resource-IsConsistent, update_resource-IsConsistent,
}
use ge360_bridge.Core.Integrity.Removal.{remove_resource-IsConsistent}
use ge360_bridge.Core.Integrity.Rename.{rename_device-IsConsistent}
use ge360_bridge.Core.Integrity.Devices.{
  set_device_enabled-IsConsistent, update_device_metadata-IsConsistent,
}
use ge360_bridge.Core.Integrity.Groups.{
  create_group-IsConsistent, remove_group-IsConsistent, set_group_enabled-IsConsistent,
  set_group_device-IsConsistent, set_group_resource-IsConsistent,
}

-- One call of core.py that changes the registries, with its arguments. `now` is the time of it.
pub data Call : Type 0 where
  register : NewResource → Call
  update : Text → ResourceChanges → Call
  remove : Text → Call
  override_access : Text → Text → Decision → Call
  enable_device : (now : Text) → Text → Bool → Call
  rename : (now : Text) → Text → Text → Call
  change_metadata : (now : Text) → Text → DeviceChanges → Call
  add_group : Text → Text → Call
  drop_group : Text → Call
  enable_group : Text → Bool → Call
  assign : Text → Text → Bool → Call
  grant : Text → Text → Bool → Call

module _ (lib : Stdlib) where
  -- The store after the call, whether it returned or raised.
  unfoldable pub perform : Call → Store → Store
  perform (register a) s = (register_resource lib a s).1
  perform (update name c) s = (update_resource lib name c s).1
  perform (remove name) s = (remove_resource lib name s).1
  perform (override_access resource device dec) s =
      (set_device_access_override lib resource device dec s).1
  perform (enable_device now device on) s = (set_device_enabled lib now device on s).1
  perform (rename now device name) s = (rename_device lib now device name s).1
  perform (change_metadata now device c) s = (update_device_metadata lib now device c s).1
  perform (add_group name description) s = (create_group lib name description s).1
  perform (drop_group name) s = (remove_group lib name s).1
  perform (enable_group name on) s = (set_group_enabled lib name on s).1
  perform (assign name device on) s = (set_group_device lib name device on s).1
  perform (grant name resource on) s = (set_group_resource lib name resource on s).1

  unfoldable pub perform_all : List Call → Store → Store
  perform_all [] s = s
  perform_all (call ∷ calls) s = perform_all calls (perform call s)

  override-IsConsistent :
      (resource device : Text) (dec : Decision) (s : Store)
      → IsConsistent lib s
      → IsConsistent lib (set_device_access_override lib resource device dec s).1
  unfolding set_device_access_override audit_acl
  override-IsConsistent resource device dec s c = elim (Option-cases (find_device lib device s)) [
    | inl e ↦ rw e c
    | inr (d, e) ↦ rw e (elim (Option-cases (find (override_target resource) (list_resources s))) [
      | inl k ↦ rw k c
      | inr (r, k) ↦
          let rs =
            update_first (override_target resource) (override dec d.name) (list_resources s) in
          let noted =
            audit_acl (text "device_override_" ++ decision_text dec) (some d) (some resource)
              (decision_text dec) in
          rw k (
            keeps-bind (IsConsistent lib) (save_resources rs)
              (λ u. noted >>= λ v. pure (override dec d.name r)) s
              (save_resources-IsConsistent lib s c rs (λ a h.
                ap (λ l. contains l a)
                  (names-renormalized rs
                    ∙ map-update_first (λ (x : Resource). x.name) (override_target resource)
                        (override dec d.name) (list_resources s) (override-name dec d.name))
                ∙ h))
              (λ u t h.
                audit_acl-IsConsistent lib (text "device_override_" ++ decision_text dec) (some d)
                  (some resource) (decision_text dec) t h))
    ])
  ]

  perform-IsConsistent :
      (call : Call) (s : Store) → IsConsistent lib s → IsConsistent lib (perform call s)
  unfolding perform
  perform-IsConsistent (register a) s c = register_resource-IsConsistent lib s c a
  perform-IsConsistent (update name x) s c = update_resource-IsConsistent lib s c name x
  perform-IsConsistent (remove name) s c = remove_resource-IsConsistent lib name s c
  perform-IsConsistent (override_access r d dec) s c = override-IsConsistent r d dec s c
  perform-IsConsistent (enable_device now d on) s c =
      set_device_enabled-IsConsistent lib now s c d on
  perform-IsConsistent (rename now d name) s c = rename_device-IsConsistent lib now s c d name
  perform-IsConsistent (change_metadata now d x) s c =
      update_device_metadata-IsConsistent lib now s c d x
  perform-IsConsistent (add_group name text) s c = create_group-IsConsistent lib name text s c
  perform-IsConsistent (drop_group name) s c = remove_group-IsConsistent lib name s c
  perform-IsConsistent (enable_group name on) s c = set_group_enabled-IsConsistent lib name on s c
  perform-IsConsistent (assign name d on) s c = set_group_device-IsConsistent lib name d on s c
  perform-IsConsistent (grant name r on) s c = set_group_resource-IsConsistent lib name r on s c

-- From a consistent store, any sequence of calls with any arguments, the ones that raise included,
-- ends in a consistent store: no name, id or port repeated, and no group that names a device or a
-- resource that is not there.
pub perform_all-IsConsistent :
    (lib : Stdlib) (calls : List Call) (s : Store)
    → IsConsistent lib s
    → IsConsistent lib (perform_all lib calls s)
unfolding perform_all
perform_all-IsConsistent lib [] s c = c
perform_all-IsConsistent lib (call ∷ calls) s c =
    perform_all-IsConsistent lib calls (perform lib call s) (perform-IsConsistent lib call s c)
