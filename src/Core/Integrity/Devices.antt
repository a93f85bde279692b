-- ===== src/Core/Integrity/Devices.antt =====
-- The operations on devices keep the registries consistent.
use ge360_bridge.Base.{
  ◌≡◌, refl, ap, ◌∙◌, inl, inr, Bool, true, false, List, [], ◌∷◌, map, All, arith, if◌then◌else◌,
  Option-cases, update_first, find, is_empty, some, none, Option,
}
use ge360_bridge.Base.Text.{Text, text, contains, or_else}
use ge360_bridge.Core.Data.{Stdlib, Device, RawDevice, Result-cases}
use ge360_bridge.Core.Validate.{validate_device_type, validate_expiry, normalize_tags}
use ge360_bridge.Core.Normalize.{normalize_device, raw_device, legacy_device_id, get_or, text_or}
use ge360_bridge.Core.Normalize.Stable.{or_else-nil}
use ge360_bridge.Core.Store.{
  Store, ◌>>=◌, pure, audit_acl, is_device, has_duplicates, list_resources, list_devices,
  list_groups, save_devices,
}
use ge360_bridge.Core.Store.ResourceFile.{names, All-update_first, map-update_first}
use ge360_bridge.Core.Store.Checks.{
  ids, device_names, renormalized_devices, with_devices, save_devices_cases, keeps-bind,
  check_groups_mono,
}
use ge360_bridge.Core.Devices.{
  enable, with_metadata, change_by, set_device_enabled, update_device_metadata, DeviceChanges,
}
use ge360_bridge.Core.Integrity.{IsConsistent, audit_acl-IsConsistent}

-- Every listed device has an id: its own, or one made from its key.
abbrev pub HasId : Device → Type 0
HasId d = is_empty d.device_id ≡ false

module _ (lib : Stdlib) where
  normalize_device-HasId : (now : Text) (d : RawDevice) → HasId (normalize_device lib now d)
  unfolding normalize_device legacy_device_id
  normalize_device-HasId now d = has_id d.device_id
    where
      has_id : (o : Option Text) → is_empty (text_or o (legacy_device_id lib d)) ≡ false
      has_id none = refl
      has_id (some []) = refl
      has_id (some (c ∷ s)) = refl

  map-normalize_device-HasId :
      (now : Text) (ds : List RawDevice) → All HasId (map (normalize_device lib now) ds)
  map-normalize_device-HasId now [] = tt
  map-normalize_device-HasId now (d ∷ ds) =
      (normalize_device-HasId now d, map-normalize_device-HasId now ds)

  pub list_devices-HasId : (s : Store) → All HasId (list_devices lib s)
  unfolding list_devices
  list_devices-HasId s = map-normalize_device-HasId [] (get_or s.devices_file [])

  or_else_of_HasId : (t d : Text) → is_empty t ≡ false → or_else t d ≡ t
  or_else_of_HasId [] d h = absurd (ground arith)
  or_else_of_HasId (c ∷ s) d h = refl

  ids-normalized :
      (now : Text) (ds : List Device)
      → All HasId ds
      → ids (renormalized_devices lib now ds) ≡ ids ds
  unfolding normalize_device
  ids-normalized now [] h = refl
  ids-normalized now (d ∷ ds) h = cc (
    or_else_of_HasId d.device_id (legacy_device_id lib (raw_device d)) h.0,
    ids-normalized now ds h.1,
  )

  names-normalized :
      (now : Text) (ds : List Device)
      → device_names (renormalized_devices lib now ds) ≡ device_names ds
  unfolding normalize_device
  names-normalized now [] = refl
  names-normalized now (d ∷ ds) = cc (or_else-nil d.name, names-normalized now ds)

  renormalized-HasId : (now : Text) (ds : List Device) → All HasId (renormalized_devices lib now ds)
  renormalized-HasId now [] = tt
  renormalized-HasId now (d ∷ ds) =
      (normalize_device-HasId now (raw_device d), renormalized-HasId now ds)

  list_devices-with :
      (ds : List Device) (s : Store)
      → list_devices lib (with_devices ds s) ≡ renormalized_devices lib [] ds
  unfolding list_devices
  list_devices-with [] s = refl
  list_devices-with (d ∷ ds) s =
      ap (λ l. normalize_device lib [] (raw_device d) ∷ l) (list_devices-with ds s)

module _ (lib : Stdlib) (now : Text) (s : Store) (c : IsConsistent lib s) where
  -- A save of devices that loses no id.
  pub save_devices-IsConsistent :
      (ds : List Device)
      → All HasId ds
      → ((a : Text) → contains (ids (list_devices lib s)) a ≡ true → contains (ids ds) a ≡ true)
      → IsConsistent lib (save_devices lib now ds s).1
  unfolding list_resources list_groups
  save_devices-IsConsistent ds has more = elim (save_devices_cases lib now ds s) [
    | inl same ↦ rw same c
    | inr (n, p, e) ↦ rw e (
        let new = renormalized_devices lib now ds in
        let listed = list_devices-with lib new s in
        let same_ids = ap ids listed ∙ ids-normalized lib [] new (renormalized-HasId lib now ds) in
        record {
          resource_names = c.resource_names;
          resource_ports = c.resource_ports;
          device_ids = ap has_duplicates same_ids ∙ n;
          devices = ap has_duplicates (ap device_names listed ∙ names-normalized lib [] new) ∙ p;
          groups = c.groups;
          references =
              check_groups_mono (ids (list_devices lib s))
                (ids (list_devices lib (with_devices new s))) (names (list_resources s))
                (names (list_resources s))
                (λ a h.
                  ap (λ l. contains l a) (same_ids ∙ ids-normalized lib now ds has) ∙ more a h)
                (λ a h. h) (list_groups s) c.references;
        })
  ]

  -- A change of the first device of an identifier that keeps its id.
  pub save-updated-IsConsistent :
      (identifier : Text) (f : Device → Device)
      → ((d : Device) → (f d).device_id ≡ d.device_id)
      → IsConsistent lib
          (save_devices lib now (update_first (is_device identifier) f (list_devices lib s)) s).1
  save-updated-IsConsistent identifier f same =
      save_devices-IsConsistent (update_first (is_device identifier) f (list_devices lib s))
        (All-update_first HasId (is_device identifier) f (list_devices lib s)
          (λ d h. ap is_empty (same d) ∙ h) (list_devices-HasId lib s))
        (λ a h.
          ap (λ l. contains l a)
            (map-update_first (λ (d : Device). d.device_id) (is_device identifier) f
              (list_devices lib s) same)
          ∙ h)

  -- The same, followed by a note in the audit trail and an answer.
  noted-IsConsistent :
      {A : Type 0} (identifier : Text) (f : Device → Device) (action : Text) (d : Option Device)
      (r : Option Text) (result : Text) (x : A)
      → ((d : Device) → (f d).device_id ≡ d.device_id)
      → IsConsistent lib
          ((save_devices lib now (update_first (is_device identifier) f (list_devices lib s))
              >>= λ u. audit_acl action d r result >>= λ v. pure x)
            s).1
  unfolding audit_acl
  noted-IsConsistent identifier f action d r result x same =
      keeps-bind (IsConsistent lib)
        (save_devices lib now (update_first (is_device identifier) f (list_devices lib s)))
        (λ u. audit_acl action d r result >>= λ v. pure x) s
        (save-updated-IsConsistent identifier f same)
        (λ u t h. audit_acl-IsConsistent lib action d r result t h)

  pub set_device_enabled-IsConsistent :
      (identifier : Text) (enabled : Bool)
      → IsConsistent lib (set_device_enabled lib now identifier enabled s).1
  unfolding set_device_enabled
  set_device_enabled-IsConsistent identifier enabled =
      elim (Option-cases (find (is_device identifier) (list_devices lib s))) [
        | inl e ↦ rw e c
        | inr (d, e) ↦ rw e (
            noted-IsConsistent identifier (enable enabled)
              (if enabled then text "device_enable" else text "device_disable")
              (some (enable enabled d)) none (if enabled then text "enabled" else text "disabled")
              (some (enable enabled d)) (λ x. refl))
      ]

  pub update_device_metadata-IsConsistent :
      (identifier : Text) (changes : DeviceChanges)
      → IsConsistent lib (update_device_metadata lib now identifier changes s).1
  unfolding update_device_metadata
  update_device_metadata-IsConsistent identifier changes =
      elim (Option-cases (find (is_device identifier) (list_devices lib s))) [
        | inl e ↦ rw e c
        | inr (d, e) ↦
            rw e
              (elim (Result-cases
                (change_by changes.device_type validate_device_type d.device_type)) [
                  | inr (x, k) ↦ rw k c
                  | inl (kind, k) ↦
                      rw k
                        (elim (Result-cases
                          (change_by changes.expires_at validate_expiry d.expires_at)) [
                            | inr (x, l) ↦ rw l c
                            | inl (expiry, l) ↦
                                rw l
                                  (elim (Result-cases
                                    (change_by changes.tags normalize_tags d.tags)) [
                                      | inr (x, m) ↦ rw m c
                                      | inl (tags, m) ↦
                                          let set = with_metadata changes kind expiry tags in
                                          rw m (
                                            keeps-bind (IsConsistent lib)
                                              (save_devices lib now (
                                                update_first (is_device identifier) set
                                                  (list_devices lib s)))
                                              (λ u. pure (set d)) s
                                              (save-updated-IsConsistent identifier set (λ x. refl))
                                              (λ u t h. h))
                                    ])
                          ])
                ])
      ]
