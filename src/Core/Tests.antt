-- ===== src/Core/Tests.antt =====
-- Runs of core.py on small inputs, and the theorems at concrete inputs.
use ge360_bridge.Base.{ℕ, ◌≡◌, refl, ◌↔◌, true, false, List, [], ◌∷◌, keep, any, update_first, not}
use ge360_bridge.Base.Text.{Text, text, text_eq, contains, starts_with}
use ge360_bridge.Core.Data.{ok, Resource, Group}
use ge360_bridge.Core.Normalize.{
  raw_resource, raw_group, normalize_resource, normalize_device, normalize_group,
}
use ge360_bridge.Core.Store.{
  list_resources, list_groups, list_devices, find_device, has_duplicates, has_duplicate_ports,
  check_group, check_groups,
}
use ge360_bridge.Core.Resources.Checks.{has_name}
use ge360_bridge.Core.Resources.{remove_resource}
use ge360_bridge.Core.Validate.{validate_name, matches_name}
use ge360_bridge.Core.Access.{
  deny, override, device_is_active, device_is_expired, groups_for_device, group_source,
  resource_access_source, resource_allows_device, set_device_access_override,
}
use ge360_bridge.Core.Access.Semantics.{MayReach, resource_allows_device_iff}
use ge360_bridge.Core.Access.Override.{
  override_target, override_access, set_device_access_override_lem,
}
use ge360_bridge.Core.Integrity.Steps.{
  Call, remove, rename, add_group, assign, drop_group, perform_all, perform_all-IsConsistent,
}
use ge360_bridge.Core.Integrity.{IsConsistent}
use ge360_bridge.Core.Integrity.Removal.{remove_resource_lem}
use ge360_bridge.Core.Normalize.Stable.{normalize_resource_idem}
use ge360_bridge.Core.Normalize.Groups.{normalize_group_idem}
use ge360_bridge.Core.Resources.Checks.{NewResource}
use ge360_bridge.Base.{◌++◌}
use ge360_bridge.Core.Data.{is_ok}
use ge360_bridge.Core.Validate.Names.{is_name, validate_name_accepts}
use ge360_bridge.Core.Sample.{plain, phone, survey, field_team, files}

files_resources : list_resources files ≡ survey ∷ []
unfolding list_resources normalize_resource text_eq
files_resources = refl

files_devices : list_devices plain files ≡ phone ∷ []
unfolding list_devices normalize_device text_eq
files_devices = refl

files_groups : list_groups files ≡ field_team ∷ []
unfolding list_groups normalize_group
files_groups = refl

files-IsConsistent : IsConsistent plain files
unfolding has_duplicates has_duplicate_ports check_groups check_group validate_name matches_name
    text_eq
files-IsConsistent = record {
  resource_names = rw files_resources refl;
  resource_ports = rw files_resources refl;
  device_ids = rw files_devices refl;
  devices = rw files_devices refl;
  groups = rw files_groups refl;
  references = rw (files_resources, files_devices, files_groups) refl;
}

abbrev rilievi : Text
rilievi = text "rilievi"

remove_resource_lem_example :
    let (result, s') = remove_resource plain rilievi files in
    (result ≡ ok true)
    × IsConsistent plain s'
    × (list_resources s' ≡ keep (λ r. not (has_name rilievi r)) (list_resources files))
    × (any (λ (g : Group). contains g.allowed_services rilievi) (list_groups s') ≡ false)
unfolding contains text_eq
remove_resource_lem_example =
    remove_resource_lem plain rilievi files files-IsConsistent (rw files_resources refl)

abbrev calls : List Call
calls =
    remove rilievi
    ∷ rename [] (text "dev_1") (text "tablet")
    ∷ add_group (text "office") []
    ∷ assign (text "office") (text "tablet") true
    ∷ drop_group (text "field")
    ∷ []

perform_all-IsConsistent_example : IsConsistent plain (perform_all plain calls files)
perform_all-IsConsistent_example = perform_all-IsConsistent plain calls files files-IsConsistent

-- Access on the sample: by the group, and after a denial.
abbrev today : ℕ
today = 20260601

resource_allows_device_iff_example :
    (resource_allows_device today survey phone (field_team ∷ []) ≡ true)
    ↔ MayReach today survey phone (field_team ∷ [])
resource_allows_device_iff_example = resource_allows_device_iff today survey phone (field_team ∷ [])

by_group : resource_allows_device today survey phone (field_team ∷ []) ≡ true
unfolding resource_allows_device resource_access_source group_source groups_for_device
    device_is_active device_is_expired contains starts_with text_eq
by_group = refl

override_access_example :
    resource_allows_device today (override deny (text "phone") survey) phone (field_team ∷ [])
    ≡ false
unfolding text_eq
override_access_example = override_access today deny (text "phone") survey phone (field_team ∷ [])

set_device_access_override_lem_example :
    let (result, s') = set_device_access_override plain rilievi (text "phone") deny files in
    (result ≡ ok (override deny (text "phone") survey))
    × (list_resources s'
        ≡ update_first
            (override_target rilievi)
            (override deny (text "phone"))
            (list_resources files))
    × (list_devices plain s' ≡ list_devices plain files)
    × (list_groups s' ≡ list_groups files)
unfolding text_eq find_device has_duplicates has_duplicate_ports
set_device_access_override_lem_example =
    set_device_access_override_lem plain rilievi (text "phone") deny files {d = phone} {r = survey}
      (rw files_devices refl) (rw files_resources refl) (rw files_resources refl)
      (rw files_resources refl)

normalize_resource_idem_example :
    normalize_resource (raw_resource (normalize_resource (raw_resource survey)))
    ≡ normalize_resource (raw_resource survey)
normalize_resource_idem_example = normalize_resource_idem (raw_resource survey)

normalize_group_idem_example :
    normalize_group (raw_group (normalize_group (raw_group field_team)))
    ≡ normalize_group (raw_group field_team)
normalize_group_idem_example = normalize_group_idem (raw_group field_team)

abbrev wanted : NewResource
wanted = record {
  name = text "mappe";
  bridge_port = 9900;
  target_host = text "localhost";
  target_port = 9900;
  allowed_devices = text "phone" ∷ [];
  icon = text "map";
  description = [];
  protocol = text "tcp";
  health_url = [];
  timeout_ms = 2000;
  systemd_unit = [];
  self_heal_enabled = false;
}

abbrev registered : Resource
registered = record survey {
  name = text "mappe";
  bridge_port = 9900;
  target_host = text "localhost";
  target_port = 9900;
  allowed_devices = text "phone" ∷ [];
  icon = text "map";
}

-- A name with a line feed after it is accepted.
validate_name_accepts_example :
    is_ok (validate_name (text "phone" ++ 10 ∷ [])) ≡ is_name (text "phone")
validate_name_accepts_example = validate_name_accepts (text "phone" ++ 10 ∷ [])
