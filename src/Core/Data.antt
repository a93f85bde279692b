-- ===== src/Core/Data.antt =====
-- core.py: the records of the registries, as they are once normalised and as JSON holds them.
-- A field that the JSON may lack is an `Option` in the raw record; keys that the program does not
-- name are left out. Ports are naturals, and timeouts are whole milliseconds.
use ge360_bridge.Base.{ℕ, arith, ◌≡◌, refl, ap, ◌⊎◌, inl, inr, Bool, Option, List, true, false}
use ge360_bridge.Base.Text.{Text}

-- The `BridgeError`s and the exceptions that escape, one for each message of the program.
pub data Error : Type 0 where
  stun_too_short stun_bad_cookie stun_bad_transaction stun_not_success stun_bad_length : Error
  stun_truncated stun_bad_address stun_no_mapped struct_error out_of_fuel : Error
  invalid_name invalid_port target_not_allowed invalid_device_type invalid_expiry : Error
  invalid_protocol invalid_icon invalid_timeout invalid_unit protected_unit : Error
  health_url_too_long invalid_health_url health_url_not_local invalid_health_port health_url_port :
      Error
  invalid_tag duplicate_name duplicate_port duplicate_device_id : Error
  unknown_devices unknown_resources self_heal_without_unit reserved_port : Error
  resource_exists port_in_use resource_not_found device_not_found device_name_in_use : Error
  group_exists group_not_found invalid_override no_free_ip value_error : Error
  invalid_ttl invalid_public_key unknown_groups device_exists pairing_exists : Error
  pairing_invalid pairing_used pairing_expired pairing_group_gone no_preshared_key : Error
  no_server_key : Error
  relay_invalid_device_id relay_invalid_token_hash relay_invalid_range relay_no_ports : Error
  relay_not_configured relay_capacity relay_session_not_found relay_invalid_reason : Error
  p2p_disabled p2p_invalid_device p2p_invalid_token p2p_invalid_ip p2p_local_ip : Error
  p2p_invalid_port p2p_invalid_local_port p2p_invalid_source p2p_no_candidates : Error
  p2p_rate_limited p2p_session_not_found p2p_endpoint_failed : Error
  update_invalid_path update_path_not_allowed update_not_python update_invalid_module : Error
  update_unit_not_allowed update_unit_path update_unmanaged_file update_invalid_version : Error
  update_invalid_file update_bad_size update_too_many_files update_too_large : Error
  update_irregular_member update_member_too_large update_foreign_member update_duplicate : Error
  update_member_size update_no_manifest update_bad_manifest update_schema update_no_files : Error
  update_bad_mode update_payload_missing update_size_mismatch update_bad_digest : Error
  update_checksum_mismatch update_payload_mismatch update_incomplete update_no_version : Error
  update_not_newer preflight_python preflight_shell preflight_unit : Error
  rollback_file_too_large rollback_invalid rollback_schema rollback_checksum : Error
  rollback_unexpected_payload os_error restart_failed health_failed no_config_backup : Error
  update_rolled_back update_rollback_failed update_aborted : Error
  server_invalid_id server_invalid_name server_invalid_url server_invalid_port : Error
  server_invalid_pin server_invalid_token server_too_many server_duplicate server_not_found : Error
  server_disabled snapshot_invalid snapshot_resources snapshot_resource snapshot_duplicate : Error

pub data Result {ℓ} (A : Type ℓ) : Type ℓ where
  ok : A → Result A
  err : Error → Result A

pub Result-cases {ℓ} :
    {A : Type ℓ} (r : Result A) → ((a : A) × (r ≡ ok a)) ⊎ ((e : Error) × (r ≡ err e))
Result-cases (ok a) = inl (a, refl)
Result-cases (err e) = inr (e, refl)

infixl 5 ◌>>=◌ ◌>>◌
abbrev pub ◌>>=◌ {ℓ κ} : {X : Type ℓ} {Y : Type κ} → Result X → (X → Result Y) → Result Y
ok x >>= k = k x
err why >>= k = err why

abbrev pub ◌>>◌ {ℓ κ} : {X : Type ℓ} {Y : Type κ} → Result X → Result Y → Result Y
first >> second = first >>= λ _. second

-- A chain that returned went through its first part.
pub >>=-eq-ok {ℓ κ} :
    {X : Type ℓ} {Y : Type κ} (first : Result X) (k : X → Result Y) {y : Y}
    → (first >>= k) ≡ ok y
    → (x : X) × (first ≡ ok x) × (k x ≡ ok y)
>>=-eq-ok (ok x) k h = (x, refl, h)
>>=-eq-ok (err why) k h = absurd (ground arith)

pub ok-inj {ℓ} : {X : Type ℓ} {x y : X} → ok x ≡ ok y → x ≡ y
ok-inj {x = x} h = ap (λ r. elim r [ ok z ↦ z | err e ↦ x ]) h

-- `if not b: raise why`
abbrev pub guard : Bool → Error → Result (Unit {0})
guard false why = err why
guard true why = ok tt

-- `if b: raise why`
abbrev pub raise_if : Bool → Error → Result (Unit {0})
raise_if true why = err why
raise_if false why = ok tt

-- Where a chain of checks returned, what follows them did.
pub last_of {ℓ κ} :
    {X : Type ℓ} {Y : Type κ} (first : Result X) (second : Result Y) {y : Y}
    → (first >> second) ≡ ok y
    → second ≡ ok y
last_of (ok x) second h = h
last_of (err e) second h = absurd (ground arith)

pub passed {ℓ} :
    {Y : Type ℓ} (b : Bool) (why : Error) (second : Result Y) {y : Y}
    → (raise_if b why >> second) ≡ ok y
    → (b ≡ false) × (second ≡ ok y)
passed false why second h = (refl, h)
passed true why second h = absurd (ground arith)

-- Where a test stands first, it passed.
pub guarded {ℓ} :
    {Y : Type ℓ} (b : Bool) (why : Error) (second : Result Y) {y : Y}
    → (guard b why >> second) ≡ ok y
    → (b ≡ true) × (second ≡ ok y)
guarded true why second h = (refl, h)
guarded false why second h = absurd (ground arith)

-- `try: return m; except BridgeError: return d`
abbrev pub or_default {ℓ} : {A : Type ℓ} → Result A → A → A
or_default (ok a) d = a
or_default (err e) d = d

-- What `urllib.parse.urlsplit` finds in a URL. `port` is `none` where reading it raises
-- `ValueError`, and `some none` where the URL names no port.
pub record UrlParts : Type 0 where
  pub scheme : Text
  pub hostname : Text
  pub username : Text
  pub password : Text
  pub fragment : Text
  pub port : Option (Option ℕ)

-- Functions of the Python library that the model does not define: a hash, and the URL parser
-- (`none` where it raises `ValueError`).
pub record Stdlib : Type 0 where
  pub sha256_hex : Text → Text
  pub urlsplit : Text → Option UrlParts

pub record Resource : Type 0 where
  pub name : Text
  pub bridge_port : ℕ
  pub target_host : Text
  pub target_port : ℕ
  pub allowed_devices : List Text
  pub icon : Text
  pub description : Text
  pub protocol : Text
  pub health_url : Text
  pub timeout_ms : ℕ
  pub systemd_unit : Text
  pub self_heal_enabled : Bool
  pub denied_devices : List Text
  pub enabled : Bool

pub record RawResource : Type 0 where
  pub name : Option Text
  pub bridge_port : Option ℕ
  pub listen_port : Option ℕ
  pub target_host : Option Text
  pub target_port : Option ℕ
  pub allowed_devices : Option (List Text)
  pub icon : Option Text
  pub description : Option Text
  pub protocol : Option Text
  pub health_url : Option Text
  pub timeout_ms : Option ℕ
  pub systemd_unit : Option Text
  pub self_heal_enabled : Option Bool
  pub denied_devices : Option (List Text)
  pub enabled : Option Bool

pub record Device : Type 0 where
  pub device_id : Text
  pub name : Text
  pub device_type : Text
  pub owner : Text
  pub vpn_ip : Text
  pub public_key : Text
  pub preshared_key : Text
  pub token : Text
  pub created_at : Text
  pub expires_at : Option Text
  pub notes : Text
  pub tags : List Text
  pub enabled : Bool

-- The address, the keys and the token have no default: every version of the program wrote them.
pub record RawDevice : Type 0 where
  pub device_id : Option Text
  pub name : Option Text
  pub device_type : Option Text
  pub owner : Option Text
  pub vpn_ip : Text
  pub public_key : Text
  pub preshared_key : Text
  pub token : Text
  pub created_at : Option Text
  pub expires_at : Option Text
  pub notes : Option Text
  pub tags : Option (List Text)
  pub enabled : Option Bool

-- `allowed_resources` repeats `allowed_services` in a normalised group.
pub record Group : Type 0 where
  pub name : Text
  pub description : Text
  pub device_ids : List Text
  pub allowed_services : List Text
  pub enabled : Bool

pub record RawGroup : Type 0 where
  pub name : Option Text
  pub description : Option Text
  pub device_ids : Option (List Text)
  pub allowed_services : Option (List Text)
  pub allowed_resources : Option (List Text)
  pub enabled : Option Bool

-- A check that passed.
pub raise_if-eq-ok : (b : Bool) (e : Error) {u : Unit {0}} → raise_if b e ≡ ok u → b ≡ false
raise_if-eq-ok true e h = absurd (ground arith)
raise_if-eq-ok false e h = refl

-- What holds after a return and after a raise holds after the call.
pub both_results {ℓ κ μ} :
    {X : Type ℓ} {Y : Type κ} (P : Y → Type μ) (first : Result X) {f : X → Y} {g : Error → Y}
    → ((x : X) → first ≡ ok x → P (f x))
    → ((why : Error) → first ≡ err why → P (g why))
    → P (elim first [ ok x ↦ f x | err why ↦ g why ])
both_results P (ok x) p q = p x refl
both_results P (err why) p q = q why refl

abbrev pub is_ok {ℓ} : {X : Type ℓ} → Result X → Bool
is_ok (ok x) = true
is_ok (err why) = false
