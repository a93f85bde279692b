-- ===== src/Core/Integrity/Removal.antt =====
-- `remove_resource`: it never fails half-way in a consistent store, and no group still names what
-- it removed.
mod Lists
use ge360_bridge.Base.{
  ℕ, All-keep, ◌≢◌, ◌<◌, length-keep, ◌≡◌, refl, sym, ap, ◌∙◌, ◌⊎◌, inl, inr, Bool, true, false,
  not, ◌&&◌, ◌||◌, List, [], ◌∷◌, ◌++◌, map, All, arith, if◌then◌else◌, Bool-cases, keep, all, any,
  is_empty, length, ◌==◌, keep-all, some, none, Option,
}
use ge360_bridge.Base.Text.{Text, text_eq, text_eq_iff, contains}
use ge360_bridge.Base.Sorted.{sort_set}
use ge360_bridge.Base.Sorted.Members.{all-sort_set, all-keep, all-keep_self}
use ge360_bridge.Core.Data.{Result, ok, err, Stdlib, Resource, Device, Group}
use ge360_bridge.Core.Normalize.{normalize_group, raw_group, list_or, clean_set}
use ge360_bridge.Core.Normalize.Stable.{or_else-nil}
use ge360_bridge.Core.Store.{
  Store, ◌>>=◌, ◌>>◌, pure, gets, list_resources, list_devices, list_groups, save_resources,
  save_groups, check_group, check_groups, has_duplicates, has_duplicate_ports,
}
use ge360_bridge.Core.Store.ResourceFile.{
  IsNormal, names, ports, with_resources, list_resources-IsNormal, list_resources-with,
  save_resources_ok,
}
use ge360_bridge.Core.Store.Checks.{
  ids, group_names, renormalized_groups, with_groups, list_groups-with, save_groups_ok,
}
use ge360_bridge.Core.Resources.Checks.{has_name}
use ge360_bridge.Core.Resources.{without_resource, remove_resource}
use ge360_bridge.Core.Integrity.{IsConsistent}
use Lists.{
  without_names, stripped, is_granted, check_groups-without, check_groups-unnamed,
  group_names-stripped, stripped_unnamed, keep_unnamed, length-keep_named, names-keep_unique,
  ports-keep_unique,
}

module _ (lib : Stdlib) (name : Text) (s : Store) (c : IsConsistent lib s) where
  kept : List Resource
  kept = keep (λ r. not (has_name name r)) (list_resources s)

  kept-IsNormal : All IsNormal kept
  unfolding kept
  kept-IsNormal =
      All-keep IsNormal (λ r. not (has_name name r)) (list_resources s) (list_resources-IsNormal s)

  removed : Store
  removed = with_resources kept s

  save_kept : save_resources kept s ≡ (ok tt, removed)
  unfolding kept removed
  save_kept =
      save_resources_ok kept s kept-IsNormal
        (names-keep_unique (λ r. not (has_name name r)) (list_resources s) c.resource_names)
        (ports-keep_unique (λ r. not (has_name name r)) (list_resources s) c.resource_ports)

  list_kept : list_resources removed ≡ kept
  unfolding removed
  list_kept = list_resources-with kept s kept-IsNormal

  save_stripped :
      save_groups lib (map (without_resource name) (list_groups s)) removed
      ≡ (ok tt, with_groups (stripped name (list_groups s)) removed)
  unfolding stripped removed list_devices kept without_names
  save_stripped =
      save_groups_ok lib (map (without_resource name) (list_groups s)) removed
        (ap has_duplicates (group_names-stripped name (list_groups s)) ∙ c.groups)
        (ap (λ l. check_groups (ids (list_devices lib s)) (names l) (stripped name (list_groups s)))
            list_kept
          ∙ check_groups-without name (ids (list_devices lib s)) (list_resources s) (list_groups s)
              c.references)

  list_groups-removed : list_groups removed ≡ list_groups s
  unfolding list_groups removed
  list_groups-removed = refl

  -- The store after a removal: the resource goes, and then the groups' mentions of it, if any.
  after_removal : Store
  after_removal =
      if any (is_granted name) (list_groups s)
      then with_groups (stripped name (list_groups s)) removed
      else removed

  remove_resource_run :
      contains (names (list_resources s)) name ≡ true
      → remove_resource lib name s ≡ (ok true, after_removal)
  unfolding remove_resource after_removal kept
  remove_resource_run known = ground (
    arith,
    save_kept,
    save_stripped,
    list_groups-removed,
    length-keep_named name (list_resources s),
  )

  removed-IsConsistent : any (is_granted name) (list_groups s) ≡ false → IsConsistent lib removed
  unfolding kept without_names
  removed-IsConsistent free = record {
    resource_names =
        ap (λ l. has_duplicates (names l)) list_kept
        ∙ names-keep_unique (λ r. not (has_name name r)) (list_resources s) c.resource_names;
    resource_ports =
        ap (λ l. has_duplicate_ports (ports l)) list_kept
        ∙ ports-keep_unique (λ r. not (has_name name r)) (list_resources s) c.resource_ports;
    device_ids = unfold removed list_devices in c.device_ids;
    devices = unfold removed list_devices in c.devices;
    groups = ap (λ l. has_duplicates (group_names l)) list_groups-removed ∙ c.groups;
    references =
        rw (list_kept, list_groups-removed)
          (unfold removed list_devices in
            check_groups-unnamed name (ids (list_devices lib s)) (list_resources s) (list_groups s)
              free c.references);
  }

  stripped_store : Store
  stripped_store = with_groups (stripped name (list_groups s)) removed

  list_groups-stripped : list_groups stripped_store ≡ stripped name (list_groups s)
  unfolding stripped_store stripped
  list_groups-stripped = list_groups-with (map (without_resource name) (list_groups s)) removed

  list_resources-stripped : list_resources stripped_store ≡ kept
  unfolding stripped_store removed kept
  list_resources-stripped = unfold list_resources in list_kept

  stripped-IsConsistent : IsConsistent lib stripped_store
  unfolding kept without_names
  stripped-IsConsistent = record {
    resource_names =
        ap (λ l. has_duplicates (names l)) list_resources-stripped
        ∙ names-keep_unique (λ r. not (has_name name r)) (list_resources s) c.resource_names;
    resource_ports =
        ap (λ l. has_duplicate_ports (ports l)) list_resources-stripped
        ∙ ports-keep_unique (λ r. not (has_name name r)) (list_resources s) c.resource_ports;
    device_ids = unfold stripped_store removed list_devices in c.device_ids;
    devices = unfold stripped_store removed list_devices in c.devices;
    groups =
        ap (λ l. has_duplicates (group_names l)) list_groups-stripped
        ∙ ap has_duplicates (group_names-stripped name (list_groups s))
        ∙ c.groups;
    references =
        rw (list_resources-stripped, list_groups-stripped)
          (unfold stripped_store removed list_devices in
            check_groups-without name (ids (list_devices lib s)) (list_resources s) (list_groups s)
              c.references);
  }

  after_removal_lem :
      IsConsistent lib after_removal
      × (list_resources after_removal ≡ kept)
      × (any (is_granted name) (list_groups after_removal) ≡ false)
  unfolding after_removal stripped_store
  after_removal_lem = elim (Bool-cases (any (is_granted name) (list_groups s))) [
    | inl granted ↦ rw granted (
      stripped-IsConsistent,
      list_resources-stripped,
      ap (any (is_granted name)) list_groups-stripped ∙ stripped_unnamed name (list_groups s),
    )
    | inr free ↦ rw free (
      removed-IsConsistent free,
      list_kept,
      ap (any (is_granted name)) list_groups-removed ∙ free,
    )
  ]

-- Removing what is not there changes nothing and says so.
pub remove_resource_missing :
    (lib : Stdlib) (name : Text) (s : Store)
    → contains (names (list_resources s)) name ≡ false
    → remove_resource lib name s ≡ (ok false, s)
unfolding remove_resource
remove_resource_missing lib name s missing =
    ground (arith, ap length (keep_unnamed name (list_resources s) missing))

-- In a consistent store the removal of a registered resource succeeds, leaves every other resource
-- in place and no group that names it, and the store is consistent again.
pub remove_resource_lem :
    (lib : Stdlib) (name : Text) (s : Store)
    → IsConsistent lib s
    → contains (names (list_resources s)) name ≡ true
    → let (result, s') = remove_resource lib name s in
      (result ≡ ok true)
      × IsConsistent lib s'
      × (list_resources s' ≡ keep (λ r. not (has_name name r)) (list_resources s))
      × (any (λ (g : Group). contains g.allowed_services name) (list_groups s') ≡ false)
unfolding kept
remove_resource_lem lib name s c known = rw (remove_resource_run lib name s c known) (
  refl,
  (after_removal_lem lib name s c).0,
  (after_removal_lem lib name s c).1,
  (after_removal_lem lib name s c).2,
)

pub remove_resource-IsConsistent :
    (lib : Stdlib) (name : Text) (s : Store)
    → IsConsistent lib s
    → IsConsistent lib (remove_resource lib name s).1
remove_resource-IsConsistent lib name s c =
    elim (Bool-cases (contains (names (list_resources s)) name)) [
      | inl known ↦ (remove_resource_lem lib name s c known).1
      | inr missing ↦ rw (remove_resource_missing lib name s missing) c
    ]
