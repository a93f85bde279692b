-- ===== src/Core/Integrity/Rename.antt =====
-- The renaming of a device, which also goes into the resources, keeps the registries consistent.
use ge360_bridge.Base.{
  ◌≡◌, refl, ap, ◌∙◌, inl, inr, List, [], ◌∷◌, map, Bool-cases, Option-cases, update_first, find,
  any,
}
use ge360_bridge.Base.Text.{Text, text_eq, contains}
use ge360_bridge.Core.Data.{Stdlib, Resource, Device, Result-cases}
use ge360_bridge.Core.Validate.{validate_name}
use ge360_bridge.Core.Store.{
  Store, pure, is_device, list_resources, list_devices, save_devices, save_resources,
}
use ge360_bridge.Core.Store.ResourceFile.{names}
use ge360_bridge.Core.Store.Checks.{keeps-bind}
use ge360_bridge.Core.Devices.{
  set_name, mentions, rename_in_resource, rename_in_resources, name_taken, rename_device,
}
use ge360_bridge.Core.Integrity.Resources.{names-renormalized}
use ge360_bridge.Core.Integrity.{IsConsistent, save_resources-IsConsistent}
use ge360_bridge.Core.Integrity.Devices.{save-updated-IsConsistent}

names-renamed :
    (old new : Text) (rs : List Resource) → names (map (rename_in_resource old new) rs) ≡ names rs
names-renamed old new [] = refl
names-renamed old new (r ∷ rs) = ap (λ l. r.name ∷ l) (names-renamed old new rs)

rename_in_resources-IsConsistent :
    (lib : Stdlib) (old new : Text) (d : Device) (s : Store)
    → IsConsistent lib s
    → IsConsistent lib (rename_in_resources old new d s).1
unfolding rename_in_resources
rename_in_resources-IsConsistent lib old new d s c =
    elim (Bool-cases (any (mentions old) (list_resources s))) [
      | inr e ↦ rw e c
      | inl e ↦ rw e (
          keeps-bind (IsConsistent lib)
            (save_resources (map (rename_in_resource old new) (list_resources s))) (λ u. pure d) s
            (save_resources-IsConsistent lib s c
              (map (rename_in_resource old new) (list_resources s))
              (λ a h.
                ap (λ l. contains l a)
                  (names-renormalized (map (rename_in_resource old new) (list_resources s))
                    ∙ names-renamed old new (list_resources s))
                ∙ h))
            (λ u t h. h))
    ]

module _ (lib : Stdlib) (now : Text) (s : Store) (c : IsConsistent lib s) where
  pub rename_device-IsConsistent :
      (identifier new_name : Text)
      → IsConsistent lib (rename_device lib now identifier new_name s).1
  unfolding rename_device
  rename_device-IsConsistent identifier new_name = elim (Result-cases (validate_name new_name)) [
    | inr (x, e) ↦ rw e c
    | inl (v, e) ↦ rw e (elim (Option-cases (find (is_device identifier) (list_devices lib s))) [
      | inl k ↦ rw k c
      | inr (d, k) ↦ rw k (elim (Bool-cases (text_eq new_name d.name)) [
        | inl l ↦ rw l c
        | inr l ↦
            rw l
              (elim (Bool-cases (name_taken (is_device identifier) new_name (list_devices lib s))) [
                | inl m ↦ rw m c
                | inr m ↦ rw m (
                    keeps-bind (IsConsistent lib)
                      (save_devices lib now (
                        update_first (is_device identifier) (set_name new_name)
                          (list_devices lib s)))
                      (λ u. rename_in_resources d.name new_name (set_name new_name d)) s
                      (save-updated-IsConsistent lib now s c identifier (set_name new_name)
                        (λ x. refl))
                      (λ u t h.
                        rename_in_resources-IsConsistent lib d.name new_name (set_name new_name d) t
                          h))
              ])
      ])
    ])
  ]
