-- ===== src/Core/Access/Override.antt =====
-- What an override of one device changes, in the decision and in the files.
use ge360_bridge.Base.{
  ℕ, ◌≡◌, refl, ap, ◌∙◌, Bool, false, not, ◌&&◌, ◌||◌, some, List, ◌∷◌, ◌++◌, any, find,
  update_first, All, arith, if◌then◌else◌,
}
use ge360_bridge.Base.Text.{Text, text, text_eq, text_eq_iff, contains}
use ge360_bridge.Base.Text.Members.{contains-discard}
use ge360_bridge.Base.Sorted.{sort_set, sort_set_idem, contains-sort_set}
use ge360_bridge.Core.Data.{Stdlib, Resource, Device, Group, ok}
use ge360_bridge.Core.Normalize.{normalize_resource}
use ge360_bridge.Core.Store.{
  Store, has_duplicates, has_duplicate_ports, list_resources, list_devices, list_groups,
  save_resources, find_device, audit_acl,
}
use ge360_bridge.Core.Store.ResourceFile.{
  IsNormal, names, ports, with_resources, list_resources-IsNormal, list_resources-with,
  save_resources_ok, All-update_first, map-update_first,
}
use ge360_bridge.Core.Access.{
  Decision, decision_text, allow, deny, inherit, override, device_is_active, resource_allows_device,
  set_device_access_override, discard,
}
use ge360_bridge.Core.Access.Semantics.{grants, resource_allows_device_lem}

-- What the decision says of a device that the override names.
abbrev pub decided : Decision → Bool → Bool → Bool
decided allow active by_group = active
decided deny active by_group = false
decided inherit active by_group = active && by_group

module _ (name a : Text) (xs : List Text) where
  contains-taken_out :
      contains (sort_set (discard name xs)) a ≡ (contains xs a && not (text_eq a name))
  contains-taken_out = contains-sort_set a (discard name xs) ∙ contains-discard a name xs

  contains-put_in :
      contains (sort_set (name ∷ discard name xs)) a ≡ (text_eq a name || contains xs a)
  unfolding contains
  contains-put_in =
      contains-sort_set a (name ∷ discard name xs)
      ∙ ground (arith, contains-discard a name xs, text_eq_iff a name, text_eq_iff name a)

-- After an override the named device's access is the decision: `allow` gives it to an active
-- device, `deny` to none, and `inherit` leaves it to the groups. Other names see no change.
pub override_access :
    (today : ℕ) (dec : Decision) (name : Text) (r : Resource) (d : Device) (groups : List Group)
    → resource_allows_device today (override dec name r) d groups ≡ (
        if text_eq d.name name
        then decided dec (device_is_active today d) (any (grants d.device_id r.name) groups)
        else resource_allows_device today r d groups)
override_access today allow name r d groups =
    rw
      (
        resource_allows_device_lem today (override allow name r) d groups,
        resource_allows_device_lem today r d groups,
      )
      (ground (
        arith,
        contains-taken_out name d.name r.denied_devices,
        contains-put_in name d.name r.allowed_devices,
      ))
override_access today deny name r d groups =
    rw
      (
        resource_allows_device_lem today (override deny name r) d groups,
        resource_allows_device_lem today r d groups,
      )
      (ground (
        arith,
        contains-put_in name d.name r.denied_devices,
        contains-taken_out name d.name r.allowed_devices,
      ))
override_access today inherit name r d groups =
    rw
      (
        resource_allows_device_lem today (override inherit name r) d groups,
        resource_allows_device_lem today r d groups,
      )
      (ground (
        arith,
        contains-taken_out name d.name r.denied_devices,
        contains-taken_out name d.name r.allowed_devices,
      ))

override-IsNormal :
    (dec : Decision) (name : Text) (r : Resource) → IsNormal r → IsNormal (override dec name r)
unfolding normalize_resource
override-IsNormal allow name r h = λ i. record (h i) {
  allowed_devices = sort_set_idem (name ∷ discard name r.allowed_devices) i;
  denied_devices = sort_set_idem (discard name r.denied_devices) i;
}
override-IsNormal deny name r h = λ i. record (h i) {
  allowed_devices = sort_set_idem (discard name r.allowed_devices) i;
  denied_devices = sort_set_idem (name ∷ discard name r.denied_devices) i;
}
override-IsNormal inherit name r h = λ i. record (h i) {
  allowed_devices = sort_set_idem (discard name r.allowed_devices) i;
  denied_devices = sort_set_idem (discard name r.denied_devices) i;
}

pub override-name :
    (dec : Decision) (name : Text) (r : Resource) → (override dec name r).name ≡ r.name
override-name allow name r = refl
override-name deny name r = refl
override-name inherit name r = refl

override-port :
    (dec : Decision) (name : Text) (r : Resource)
    → (override dec name r).bridge_port ≡ r.bridge_port
override-port allow name r = refl
override-port deny name r = refl
override-port inherit name r = refl

-- A change of one resource that keeps its name and port can be saved.
pub save-update_first :
    (p : Resource → Bool) (f : Resource → Resource) (s : Store)
    → ((r : Resource) → IsNormal r → IsNormal (f r))
    → ((r : Resource) → (f r).name ≡ r.name)
    → ((r : Resource) → (f r).bridge_port ≡ r.bridge_port)
    → has_duplicates (names (list_resources s)) ≡ false
    → has_duplicate_ports (ports (list_resources s)) ≡ false
    → let rs = update_first p f (list_resources s) in
      (save_resources rs s ≡ (ok tt, with_resources rs s))
      × (list_resources (with_resources rs s) ≡ rs)
save-update_first p f s normal same_name same_port n q =
    let rs = update_first p f (list_resources s) in
    let h : All IsNormal rs =
      All-update_first IsNormal p f (list_resources s) normal (list_resources-IsNormal s) in
    (
      save_resources_ok rs s h
          (ap has_duplicates
              (map-update_first (λ (r : Resource). r.name) p f (list_resources s) same_name)
            ∙ n)
          (ap has_duplicate_ports
              (map-update_first (λ (r : Resource). r.bridge_port) p f (list_resources s) same_port)
            ∙ q),
      list_resources-with rs s h,
    )

abbrev pub override_target : Text → Resource → Bool
override_target resource_name r = text_eq r.name resource_name

module _ (lib : Stdlib) (resource_name device_identifier : Text) (dec : Decision) (s : Store)
    {d : Device} {r : Resource} (fd : find_device lib device_identifier s ≡ some d)
    (fr : find (override_target resource_name) (list_resources s) ≡ some r)
    (n : has_duplicates (names (list_resources s)) ≡ false)
    (q : has_duplicate_ports (ports (list_resources s)) ≡ false) where
  overridden : List Resource
  overridden = update_first (override_target resource_name) (override dec d.name) (list_resources s)

  override_run : set_device_access_override lib resource_name device_identifier dec s ≡ (
    ok (override dec d.name r),
    (audit_acl
        (text "device_override_" ++ decision_text dec)
        (some d)
        (some resource_name)
        (decision_text dec)
        (with_resources overridden s)).1,
  )
  unfolding set_device_access_override audit_acl overridden
  override_run = ground (
    arith,
    save-update_first (override_target resource_name) (override dec d.name) s
        (override-IsNormal dec d.name) (override-name dec d.name) (override-port dec d.name) n q,
  )

  -- The override of a known device on a known resource, in files whose names and ports are unique:
  -- it succeeds and returns the resource with the override, exactly the first resource of that
  -- name is changed, and the devices and groups that are listed stay as they were.
  pub set_device_access_override_lem :
      let (result, s') = set_device_access_override lib resource_name device_identifier dec s in
      (result ≡ ok (override dec d.name r))
      × (list_resources s'
          ≡ update_first (override_target resource_name) (override dec d.name) (list_resources s))
      × (list_devices lib s' ≡ list_devices lib s)
      × (list_groups s' ≡ list_groups s)
  unfolding audit_acl overridden list_devices list_groups list_resources
  set_device_access_override_lem = rw override_run (
    refl,
    (save-update_first (override_target resource_name) (override dec d.name) s
        (override-IsNormal dec d.name) (override-name dec d.name) (override-port dec d.name) n q).1,
    refl,
    refl,
  )
