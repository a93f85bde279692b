-- ===== src/Core/Store.antt =====
-- core.py: the JSON files of the state directory, the audit trail that an ACL change writes to,
-- and the readers and writers of the registries. An `Action` is a call that reads and changes the
-- files and may raise: the files come back after a raise too, since what was written stays.
pub mod ResourceFile
pub mod Checks
pub mod Keeps
use ge360_bridge.Base.{
  ℕ, ◌≡◌, ◌⊎◌, inl, inr, Bool, true, false, not, ◌&&◌, ◌||◌, Option, none, some, List, [], ◌∷◌,
  ◌++◌, map, keep, find, any, all, length, is_empty, ◌==◌, if◌then◌else◌,
}
use ge360_bridge.Base.Text.{Text, text, text_eq, contains}
use ge360_bridge.Core.Data.{
  Error, duplicate_name, duplicate_port, duplicate_device_id, unknown_devices, unknown_resources,
  Result, ok, err, Stdlib, Resource, RawResource, Device, RawDevice, Group, RawGroup,
}
use ge360_bridge.Core.Validate.{validate_name}
use ge360_bridge.Core.Normalize.{
  get_or, normalize_resource, normalize_device, normalize_group, raw_resource, raw_device,
  raw_group,
}

-- One row of `audit_events`, as `_audit_acl` writes it.
pub record AuditEntry : Type 0 where
  pub action : Text
  pub device : Option Device
  pub resource : Option Text
  pub result : Text

-- `none` is a file that does not exist. `audit_writable` says whether the audit database accepts
-- a row; where it does not, the program goes on without one.
pub record Store : Type 0 where
  pub resources_file : Option (List RawResource)
  pub services_file : Option (List RawResource)
  pub devices_file : Option (List RawDevice)
  pub groups_file : Option (List RawGroup)
  pub audit_writable : Bool
  pub audit : List AuditEntry

-- A call over files of the type `S`.
abbrev pub Act {ℓ} : Type 0 → Type ℓ → Type ℓ
Act S A = S → Result A × S

abbrev pub Action {ℓ} : Type ℓ → Type ℓ
Action A = Act Store A

module _ {ℓ} {S : Type 0} {A : Type ℓ} where
  abbrev pub pure : A → Act S A
  pure a s = (ok a, s)

  abbrev pub raise : Error → Act S A
  raise e s = (err e, s)

  abbrev pub gets : (S → A) → Act S A
  gets f s = (ok (f s), s)

  -- A computation that reads no file.
  abbrev pub lift : Result A → Act S A
  lift r s = (r, s)

  -- `if o is None: raise e`
  abbrev pub or_raise : Option A → Error → Act S A
  or_raise none e = raise e
  or_raise (some a) e = pure a

infixl 5 ◌>>=◌ ◌>>◌
abbrev pub ◌>>=◌ {ℓ κ} : {S : Type 0} {A : Type ℓ} {B : Type κ} → Act S A → (A → Act S B) → Act S B
◌>>=◌ m f s = let (r, s') = m s in elim r [ ok a ↦ f a s' | err e ↦ (err e, s') ]

abbrev pub ◌>>◌ {ℓ κ} : {S : Type 0} {A : Type ℓ} {B : Type κ} → Act S A → Act S B → Act S B
m >> k = m >>= λ _. k

-- `if b: raise e`
abbrev pub raise_if : {S : Type 0} → Bool → Error → Act S (Unit {0})
raise_if true e = raise e
raise_if false e = pure tt

-- `len(xs) != len(set(xs))`, of texts and of numbers
unfoldable pub has_duplicates : List Text → Bool
unfolding contains
has_duplicates [] = false
has_duplicates (x ∷ xs) = contains xs x || has_duplicates xs

unfoldable pub has_duplicate_ports : List ℕ → Bool
has_duplicate_ports [] = false
has_duplicate_ports (x ∷ xs) = any (λ y. y == x) xs || has_duplicate_ports xs

-- `raw_resources if raw_resources else legacy_services`
abbrev pub resource_source : List RawResource → List RawResource → List RawResource
resource_source [] legacy = legacy
resource_source (r ∷ rs) legacy = r ∷ rs

unfoldable pub list_resources : Store → List Resource
list_resources s =
    map normalize_resource
      (resource_source (get_or s.resources_file []) (get_or s.services_file []))

-- Both files are written: the second is the mirror for older versions.
unfoldable pub save_resources : List Resource → Action (Unit {0})
save_resources items =
    let normalized = map (λ r. normalize_resource (raw_resource r)) items in
    do
      raise_if (has_duplicates (map (λ (r : Resource). r.name) normalized)) duplicate_name
      raise_if (has_duplicate_ports (map (λ (r : Resource). r.bridge_port) normalized))
          duplicate_port
      λ s. (
        ok tt,
        record s {
          resources_file = some (map raw_resource normalized);
          services_file = some (map raw_resource normalized);
        },
      )

unfoldable pub audit_acl : Text → Option Device → Option Text → Text → Action (Unit {0})
audit_acl action device resource result s =
    let entry : AuditEntry = record {
      action = action;
      device = device;
      resource = resource;
      result = result;
    } in
    (ok tt, record s { audit = if s.audit_writable then s.audit ++ entry ∷ [] else s.audit })

module _ (lib : Stdlib) where
  unfoldable pub list_devices : Store → List Device
  list_devices s = map (normalize_device lib []) (get_or s.devices_file [])

  unfoldable pub save_devices : Text → List Device → Action (Unit {0})
  save_devices now items =
      let normalized = map (λ d. normalize_device lib now (raw_device d)) items in
      do
        raise_if (has_duplicates (map (λ (d : Device). d.device_id) normalized)) duplicate_device_id
        raise_if (has_duplicates (map (λ (d : Device). d.name) normalized)) duplicate_name
        λ s. (ok tt, record s { devices_file = some (map raw_device normalized) })

-- The test of `find_device`: the device has this id or this name.
abbrev pub is_device : Text → Device → Bool
is_device identifier d = text_eq d.device_id identifier || text_eq d.name identifier

unfoldable pub list_groups : Store → List Group
list_groups s = map normalize_group (get_or s.groups_file [])

-- The checks of one group against the known devices and resources.
unfoldable pub check_group : List Text → List Text → Group → Result (Unit {0})
check_group known_devices known_resources g = elim (validate_name g.name) [
  | err e ↦ err e
  | ok n ↦
      if not (all (contains known_devices) g.device_ids)
      then err unknown_devices
      else if not (all (contains known_resources) g.allowed_services)
      then err unknown_resources
      else ok tt
]

unfoldable pub check_groups : List Text → List Text → List Group → Result (Unit {0})
check_groups known_devices known_resources [] = ok tt
check_groups known_devices known_resources (g ∷ gs) =
    let rest = check_groups known_devices known_resources gs in
    elim (check_group known_devices known_resources g) [ err e ↦ err e | ok u ↦ rest ]

module _ (lib : Stdlib) where
  unfoldable pub save_groups : List Group → Action (Unit {0})
  save_groups items =
      let normalized = map (λ g. normalize_group (raw_group g)) items in
      do
        raise_if (has_duplicates (map (λ (g : Group). g.name) normalized)) duplicate_name
        known_devices ← gets (λ s. map (λ (d : Device). d.device_id) (list_devices lib s))
        known_resources ← gets (λ s. map (λ (r : Resource). r.name) (list_resources s))
        lift (check_groups known_devices known_resources normalized)
        λ s. (ok tt, record s { groups_file = some (map raw_group normalized) })

  unfoldable pub find_device : Text → Store → Option Device
  find_device identifier s = find (is_device identifier) (list_devices lib s)

unfoldable pub find_group : Text → Store → Option Group
find_group name s = find (λ (g : Group). text_eq g.name name) (list_groups s)

unfoldable pub find_resource : Text → Store → Option Resource
find_resource name s = find (λ (r : Resource). text_eq r.name name) (list_resources s)
