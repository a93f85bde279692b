-- ===== src/Pairing/Consume.antt =====
-- pairing.py: `consume_enrollment`.
use ge360_bridge.Base.{
  ℕ, ◌==◌, not, Bool, true, Option, none, some, List, [], ◌∷◌, ◌++◌, map, all, find, leb, is_empty,
  update_first, if◌then◌else◌,
}
use ge360_bridge.Base.Text.{Text, text_eq, contains, strip}
use ge360_bridge.Base.Sorted.{sort_set}
use ge360_bridge.Core.Data.{
  Error, Result, ok, err, Stdlib, Resource, Device, Group, invalid_public_key, pairing_invalid,
  pairing_used, pairing_expired, pairing_group_gone, no_preshared_key, no_server_key,
}
use ge360_bridge.Core.Store.{
  Act, ◌>>=◌, ◌>>◌, pure, raise, gets, lift, or_raise, raise_if, list_groups, list_resources,
  list_devices, find_device, save_devices, save_groups,
}
use ge360_bridge.Core.Devices.{next_device_ip}
use ge360_bridge.Core.Access.{effective_resources_for_device}
use ge360_bridge.Pairing.Enrollments.{
  Enrollment, used, Site, in_core, undo_on_error, load_enrollments, save_enrollments, is_pending,
  expire_at, cleanup_enrollments,
}
use ge360_bridge.Pairing.Create.{is_some}

-- What lies outside: the Base64 decoder (the number of bytes, or `none` where it raises), the
-- keyed hash of pairing.py for the key on the disk, and the public key of the server.
pub record Outside : Type 0 where
  pub stdlib : Stdlib
  pub b64decode : Text → Option ℕ
  pub token_digest : Text → Text
  pub server_public_key : Option Text

-- What the clock, `secrets` and `wg genpsk` supply; `psk` is `none` where `wg` fails.
pub record Supply : Type 0 where
  pub now : ℕ
  pub today : ℕ
  pub utc_now : Text
  pub device_id : Text
  pub psk : Option Text
  pub app_token : Text

-- The parts of the response that the enrollment decides.
pub record Response : Type 0 where
  pub device_id : Text
  pub device : Text
  pub vpn_ip : Text
  pub preshared_key : Text
  pub device_token : Text
  pub server_public_key : Text
  pub groups : List Text
  pub resources : List Resource

abbrev pub has_id : Text → Enrollment → Bool
has_id enrollment_id x = text_eq x.enrollment_id enrollment_id

abbrev pub use_at : ℕ → Enrollment → Enrollment
use_at now x = record x { status = used; used_at = some now }

abbrev pub use_for : ℕ → Text → Enrollment → Enrollment
use_for now device_id x = record x { status = used; used_at = some now; device_id = some device_id }

-- A refusal, before which the enrollments are written.
abbrev pub reject {ℓ} : {A : Type ℓ} → List Enrollment → Error → Act Site A
reject items e = save_enrollments items >> raise e

-- The devices of the groups that the enrollment names.
abbrev pub join_group : List Text → Text → Group → Group
join_group names device_id g =
    if contains names g.name
    then record g { device_ids = sort_set (device_id ∷ g.device_ids) }
    else g

abbrev pub enrolled_device : Enrollment → Supply → Text → Text → Text → Device
enrolled_device x supply vpn_ip public_key psk = record {
  device_id = supply.device_id;
  name = x.device_name;
  device_type = x.device_type;
  owner = x.owner;
  vpn_ip = vpn_ip;
  public_key = public_key;
  preshared_key = psk;
  token = supply.app_token;
  created_at = supply.utc_now;
  expires_at = x.device_expires_at;
  notes = x.notes;
  tags = x.tags;
  enabled = true;
}

abbrev pub response : Enrollment → Device → List Resource → Text → Response
response x device resources server_key = record {
  device_id = device.device_id;
  device = device.name;
  vpn_ip = device.vpn_ip;
  preshared_key = device.preshared_key;
  device_token = device.token;
  server_public_key = server_key;
  groups = x.groups;
  resources = resources;
}

module _ (env : Outside) where
  unfoldable pub validate_wireguard_public_key : Text → Result Text
  validate_wireguard_public_key value = elim (env.b64decode (strip value)) [
    | none ↦ err invalid_public_key
    | some bytes ↦ if bytes == 32 then ok (strip value) else err invalid_public_key
  ]

  module _ (supply : Supply) where
    -- The two files: the device and its groups, or neither.
    unfoldable pub save_device :
        Enrollment → List Device → List Group → Device → Act Site (Unit {0})
    save_device x before groups device = do
      in_core (save_devices env.stdlib supply.utc_now (before ++ device ∷ []))
      undo_on_error (in_core (save_devices env.stdlib supply.utc_now before)) (
          if is_empty x.groups
          then pure tt
          else in_core (save_groups env.stdlib (map (join_group x.groups device.device_id) groups)))

    unfoldable pub add_device : Enrollment → Text → Act Site Device
    unfolding save_device
    add_device x public_key = do
      groups ← gets (λ (s : Site). list_groups s.registries)
      raise_if (not (all (contains (map (λ (g : Group). g.name) groups)) x.groups))
          pairing_group_gone
      psk ← or_raise supply.psk no_preshared_key
      vpn_ip ← λ (s : Site). (next_device_ip env.stdlib s.registries, s)
      before ← gets (λ (s : Site). list_devices env.stdlib s.registries)
      save_device x before groups (enrolled_device x supply vpn_ip public_key psk)
      pure (enrolled_device x supply vpn_ip public_key psk)

    -- The checks of an enrollment that was found, and the change.
    unfoldable pub consume_found : List Enrollment → Enrollment → Text → Text → Act Site Device
    unfolding add_device
    consume_found items x token public_key =
        let refuse = reject items in
        if not (is_pending x)
        then refuse pairing_used
        else if not (text_eq x.token_hash (env.token_digest token))
        then refuse pairing_invalid
        else if leb x.expires_at supply.now
        then reject (update_first (has_id x.enrollment_id) (expire_at supply.now) items)
            pairing_expired
        else do
          known ← gets (λ (s : Site). find_device env.stdlib x.device_name s.registries)
          if is_some known
              then reject (update_first (has_id x.enrollment_id) (use_at supply.now) items)
                  pairing_used
              else do
                device ← add_device x public_key
                save_enrollments (
                    update_first (has_id x.enrollment_id) (use_for supply.now device.device_id)
                      items)
                pure device

    -- The enrollment of the id, if there is one.
    unfoldable pub consume_item :
        List Enrollment → Option Enrollment → Text → Text → Act Site (Enrollment × Device)
    consume_item items none token public_key = reject items pairing_invalid
    consume_item items (some x) token public_key = do
      device ← consume_found items x token public_key
      pure (x, device)

    unfoldable pub consume_in_lock : Text → Text → Text → Act Site (Enrollment × Device)
    unfolding consume_item
    consume_in_lock enrollment_id token public_key = do
      items ← gets (λ s. cleanup_enrollments supply.now (load_enrollments s))
      consume_item items (find (has_id enrollment_id) items) token public_key

    -- The response, after the lock.
    unfoldable pub respond : Enrollment → Device → Act Site Response
    respond x device = do
      resources ← gets (λ (s : Site).
          effective_resources_for_device supply.today device (list_resources s.registries)
            (list_groups s.registries))
      server_key ← or_raise env.server_public_key no_server_key
      pure (response x device resources server_key)

    unfoldable pub consume_enrollment : Text → Text → Text → Act Site Response
    unfolding validate_wireguard_public_key consume_in_lock respond
    consume_enrollment enrollment_id token public_key = do
      key ← lift (validate_wireguard_public_key public_key)
      (x, device) ← consume_in_lock enrollment_id token key
      respond x device
