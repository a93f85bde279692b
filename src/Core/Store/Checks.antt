-- ===== src/Core/Store/Checks.antt =====
-- What each save checks and writes, and rules for the store that an action leaves behind.
use ge360_bridge.Base.{
  ◌≡◌, refl, ◌⊎◌, inl, inr, Bool, true, false, some, List, [], ◌∷◌, map, all, All, arith,
}
use ge360_bridge.Base.Text.{Text, contains}
use ge360_bridge.Core.Data.{Error, Result, ok, err, Stdlib, Resource, Device, Group}
use ge360_bridge.Core.Normalize.{
  normalize_resource, normalize_group, normalize_device, raw_resource, raw_group, raw_device,
}
use ge360_bridge.Core.Normalize.Stable.{normalize_resource_idem}
use ge360_bridge.Core.Normalize.Groups.{normalize_group_idem}
use ge360_bridge.Core.Store.{
  Store, Act, ◌>>=◌, has_duplicates, has_duplicate_ports, list_resources, list_devices, list_groups,
  save_resources, save_groups, save_devices, check_group, check_groups,
}
use ge360_bridge.Core.Store.ResourceFile.{IsNormal, names, ports, with_resources}

abbrev pub ids : List Device → List Text
ids = map (λ (d : Device). d.device_id)

abbrev pub device_names : List Device → List Text
device_names = map (λ (d : Device). d.name)

abbrev pub group_names : List Group → List Text
group_names = map (λ (g : Group). g.name)

-- What comes after an action and writes nothing leaves the store that the action left.
module _ {S A B : Type 0} (m : Act S A) (f : A → Act S B) (s : S) where
  pub store-bind : ((a : A) (t : S) → (f a t).1 ≡ t) → ((m >>= f) s).1 ≡ (m s).1
  store-bind quiet = go (m s)
    where
      go :
          (r : Result A × S)
          → let x : Result B × S = elim (r.0) [ ok a ↦ f a r.1 | err e ↦ (err e, r.1) ] in x.1 ≡ r.1
      go (ok a, t) = quiet a t
      go (err e, t) = refl

-- A chain that returned went through its first part.
module _ {S A B : Type 0} (m : Act S A) (f : A → Act S B) (s : S) {b : B} where
  pub bind-eq-ok : ((m >>= f) s).0 ≡ ok b → (a : A) × ((m s).0 ≡ ok a) × ((m >>= f) s ≡ f a (m s).1)
  bind-eq-ok = go (m s)
    where
      go :
          (r : Result A × S)
          → let x : Result B × S = elim (r.0) [ ok a ↦ f a r.1 | err e ↦ (err e, r.1) ] in
            x.0 ≡ ok b → (a : A) × (r.0 ≡ ok a) × (x ≡ f a r.1)
      go (ok a, t) h = (a, refl, refl)
      go (err e, t) h = absurd (ground arith)

-- A property of the store that both parts of a chain keep.
module _ {S A B : Type 0} (P : S → Type 0) (m : Act S A) (f : A → Act S B) (s : S) where
  pub keeps-bind : P (m s).1 → ((a : A) (t : S) → P t → P (f a t).1) → P ((m >>= f) s).1
  keeps-bind = go (m s)
    where
      go :
          (r : Result A × S)
          → P r.1
          → ((a : A) (t : S) → P t → P (f a t).1)
          → let x : Result B × S = elim (r.0) [ ok a ↦ f a r.1 | err e ↦ (err e, r.1) ] in P x.1
      go (ok a, t) h k = k a t h
      go (err e, t) h k = h

abbrev pub renormalized : List Resource → List Resource
renormalized = map (λ r. normalize_resource (raw_resource r))

abbrev pub renormalized_groups : List Group → List Group
renormalized_groups = map (λ g. normalize_group (raw_group g))

abbrev pub renormalized_devices : Stdlib → Text → List Device → List Device
renormalized_devices lib now = map (λ d. normalize_device lib now (raw_device d))

pub renormalized-IsNormal : (rs : List Resource) → All IsNormal (renormalized rs)
renormalized-IsNormal [] = tt
renormalized-IsNormal (r ∷ rs) =
    (normalize_resource_idem (raw_resource r), renormalized-IsNormal rs)

-- Either nothing is written, or the names and the ports are all different and both files are.
pub save_resources_cases :
    (rs : List Resource) (s : Store)
    → ((save_resources rs s).1 ≡ s)
      ⊎ ((has_duplicates (names (renormalized rs)) ≡ false)
          × (has_duplicate_ports (ports (renormalized rs)) ≡ false)
          × ((save_resources rs s).1 ≡ with_resources (renormalized rs) s))
unfolding save_resources
save_resources_cases rs s = ground arith

-- A check that passes returns the one value of `Unit`.
check_unit_value : (r : Result (Unit {0})) → (r ≡ ok tt) ⊎ ((e : Error) × (r ≡ err e))
check_unit_value (ok tt) = inl refl
check_unit_value (err e) = inr (e, refl)

abbrev pub with_groups : List Group → Store → Store
with_groups gs s = record s { groups_file = some (map raw_group gs) }

pub list_groups-with :
    (gs : List Group) (s : Store)
    → list_groups (with_groups (renormalized_groups gs) s) ≡ renormalized_groups gs
unfolding list_groups
list_groups-with [] s = refl
list_groups-with (g ∷ gs) s = cc (normalize_group_idem (raw_group g), list_groups-with gs s)

-- Either nothing is written, or the group names are all different, every group names known
-- devices and resources only, and the file is written.
pub save_groups_cases :
    (lib : Stdlib) (gs : List Group) (s : Store)
    → ((save_groups lib gs s).1 ≡ s)
      ⊎ ((has_duplicates (group_names (renormalized_groups gs)) ≡ false)
          × (check_groups
                (ids (list_devices lib s))
                (names (list_resources s))
                (renormalized_groups gs)
              ≡ ok tt)
          × ((save_groups lib gs s).1 ≡ with_groups (renormalized_groups gs) s))
unfolding save_groups
save_groups_cases lib gs s = ground (
  arith,
  check_unit_value
      (check_groups (ids (list_devices lib s)) (names (list_resources s)) (renormalized_groups gs)),
)

pub save_groups_ok :
    (lib : Stdlib) (gs : List Group) (s : Store)
    → has_duplicates (group_names (renormalized_groups gs)) ≡ false
    → check_groups (ids (list_devices lib s)) (names (list_resources s)) (renormalized_groups gs)
      ≡ ok tt
    → save_groups lib gs s ≡ (ok tt, with_groups (renormalized_groups gs) s)
unfolding save_groups
save_groups_ok lib gs s n k = ground arith

abbrev pub with_devices : List Device → Store → Store
with_devices ds s = record s { devices_file = some (map raw_device ds) }

pub save_devices_cases :
    (lib : Stdlib) (now : Text) (ds : List Device) (s : Store)
    → ((save_devices lib now ds s).1 ≡ s)
      ⊎ ((has_duplicates (ids (renormalized_devices lib now ds)) ≡ false)
          × (has_duplicates (device_names (renormalized_devices lib now ds)) ≡ false)
          × ((save_devices lib now ds s).1 ≡ with_devices (renormalized_devices lib now ds) s))
unfolding save_devices
save_devices_cases lib now ds s = ground arith

all_mono :
    (p q : Text → Bool) (xs : List Text)
    → ((a : Text) → p a ≡ true → q a ≡ true)
    → all p xs ≡ true
    → all q xs ≡ true
all_mono p q [] f h = refl
all_mono p q (x ∷ xs) f h = ground (arith, f x, all_mono p q xs f)

-- More known devices and resources make no group wrong.
module _ (devices devices' resources resources' : List Text)
    (more_devices : (a : Text) → contains devices a ≡ true → contains devices' a ≡ true)
    (more_resources : (a : Text) → contains resources a ≡ true → contains resources' a ≡ true) where
  check_group_mono :
      (g : Group)
      → check_group devices resources g ≡ ok tt
      → check_group devices' resources' g ≡ ok tt
  unfolding check_group
  check_group_mono g h = ground (
    arith,
    all_mono (contains devices) (contains devices') g.device_ids more_devices,
    all_mono (contains resources) (contains resources') g.allowed_services more_resources,
  )

  pub check_groups_mono :
      (gs : List Group)
      → check_groups devices resources gs ≡ ok tt
      → check_groups devices' resources' gs ≡ ok tt
  unfolding check_groups
  check_groups_mono [] h = refl
  check_groups_mono (g ∷ gs) h = ground (arith, check_group_mono g, check_groups_mono gs)
