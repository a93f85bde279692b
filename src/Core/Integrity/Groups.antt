-- ===== src/Core/Integrity/Groups.antt =====
-- The operations on groups keep the registries consistent, and say so on every branch.
use ge360_bridge.Base.{
  inl, inr, Bool, true, not, List, [], ◌∷◌, ◌++◌, if◌then◌else◌, Bool-cases, Option-cases,
  update_first, keep, find, any, length, ◌==◌, some, none, Option,
}
use ge360_bridge.Base.Text.{Text, text, text_eq}
use ge360_bridge.Core.Data.{Stdlib, Resource, Device, Group, Result-cases}
use ge360_bridge.Core.Validate.{validate_name}
use ge360_bridge.Core.Store.{
  Store, ◌>>◌, pure, audit_acl, list_resources, list_groups, save_groups, find_device,
}
use ge360_bridge.Core.Store.Checks.{keeps-bind}
use ge360_bridge.Core.Groups.{
  is_group, new_group, create_group, remove_group, change_group, set_group_enabled, assign_device,
  assign_resource, set_group_device, set_group_resource,
}
use ge360_bridge.Core.Integrity.{IsConsistent, save_groups-IsConsistent, audit_acl-IsConsistent}

module _ (lib : Stdlib) where
  -- A save of groups followed by a note in the audit trail and an answer.
  saved-IsConsistent :
      {A : Type 0} (gs : List Group) (action : Text) (d : Option Device) (r : Option Text)
      (result : Text) (x : A) (s : Store)
      → IsConsistent lib s
      → IsConsistent lib ((save_groups lib gs >> (audit_acl action d r result >> pure x)) s).1
  unfolding audit_acl
  saved-IsConsistent gs action d r result x s c =
      keeps-bind (IsConsistent lib) (save_groups lib gs)
        (λ u. audit_acl action d r result >> pure x) s (save_groups-IsConsistent lib s c gs)
        (λ u t h. audit_acl-IsConsistent lib action d r result t h)

  change_group-IsConsistent :
      (name : Text) (f : Group → Group) (action : Text) (d : Option Device) (r : Option Text)
      (s : Store)
      → IsConsistent lib s
      → IsConsistent lib (change_group lib name f action d r s).1
  unfolding change_group
  change_group-IsConsistent name f action d r s c =
      elim (Option-cases (find (is_group name) (list_groups s))) [
        | inl e ↦ rw e c
        | inr (g, e) ↦ rw e (
            saved-IsConsistent (update_first (is_group name) f (list_groups s)) action d r name
              (f g) s c)
      ]

  pub create_group-IsConsistent :
      (name description : Text) (s : Store)
      → IsConsistent lib s
      → IsConsistent lib (create_group lib name description s).1
  unfolding create_group
  create_group-IsConsistent name description s c = elim (Result-cases (validate_name name)) [
    | inr (x, e) ↦ rw e c
    | inl (v, e) ↦ rw e (elim (Bool-cases (any (is_group name) (list_groups s))) [
      | inl old ↦ rw old c
      | inr new ↦ rw new (
          keeps-bind (IsConsistent lib)
            (save_groups lib (list_groups s ++ new_group name description ∷ []))
            (λ u. pure (new_group name description)) s
            (save_groups-IsConsistent lib s c (list_groups s ++ new_group name description ∷ []))
            (λ u t h. h))
    ])
  ]

  pub remove_group-IsConsistent :
      (name : Text) (s : Store) → IsConsistent lib s → IsConsistent lib (remove_group lib name s).1
  unfolding remove_group
  remove_group-IsConsistent name s c =
      let kept = keep (λ g. not (is_group name g)) (list_groups s) in
      elim (Bool-cases (length kept == length (list_groups s))) [
        | inl same ↦ rw same c
        | inr gone ↦ rw gone (saved-IsConsistent kept (text "group_remove") none none name true s c)
      ]

  pub set_group_enabled-IsConsistent :
      (name : Text) (enabled : Bool) (s : Store)
      → IsConsistent lib s
      → IsConsistent lib (set_group_enabled lib name enabled s).1
  unfolding set_group_enabled
  set_group_enabled-IsConsistent name enabled s c =
      change_group-IsConsistent name (λ g. record g { enabled = enabled })
        (if enabled then text "group_enable" else text "group_disable") none none s c

  pub set_group_device-IsConsistent :
      (name identifier : Text) (assigned : Bool) (s : Store)
      → IsConsistent lib s
      → IsConsistent lib (set_group_device lib name identifier assigned s).1
  unfolding set_group_device
  set_group_device-IsConsistent name identifier assigned s c =
      elim (Option-cases (find_device lib identifier s)) [
        | inl e ↦ rw e c
        | inr (d, e) ↦ rw e (
            change_group-IsConsistent name (assign_device d.device_id assigned)
              (if assigned then text "group_device_add" else text "group_device_remove") (some d)
              none s c)
      ]

  pub set_group_resource-IsConsistent :
      (name resource_name : Text) (allowed : Bool) (s : Store)
      → IsConsistent lib s
      → IsConsistent lib (set_group_resource lib name resource_name allowed s).1
  unfolding set_group_resource
  set_group_resource-IsConsistent name resource_name allowed s c =
      elim (Bool-cases (any (λ (r : Resource). text_eq r.name resource_name) (list_resources s))) [
        | inr e ↦ rw e c
        | inl e ↦ rw e (
            change_group-IsConsistent name (assign_resource resource_name allowed)
              (if allowed then text "group_resource_grant" else text "group_resource_revoke") none
              (some resource_name) s c)
      ]
