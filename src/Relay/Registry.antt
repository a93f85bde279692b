-- ===== src/Relay/Registry.antt =====
-- relay_server.py: the devices that may ask for a session, and the two authentications.
use ge360_bridge.Base.{
  ℕ, ◌==◌, ◌&&◌, ◌||◌, not, Bool, false, Option, none, some, List, [], ◌∷◌, all, drop, length, ltb,
  leb, is_empty, if◌then◌else◌,
}
use ge360_bridge.Base.Text.{Text, text, text_eq, strip, lower, starts_with, is_alnum, is_digit}
use ge360_bridge.Core.Data.{
  Result, ok, err, ◌>>=◌, ◌>>◌, guard, raise_if, Stdlib, relay_invalid_device_id,
  relay_invalid_token_hash,
}

-- One value of devices.json, and the pairs of the file.
pub record Credential : Type 0 where
  pub token_sha256 : Text
  pub enabled : Bool
  pub updated_at : ℕ

abbrev pub Registry : Type 0
Registry = List (Text × Credential)

-- One item of the request that `sync_devices` serves.
pub record SyncItem : Type 0 where
  pub device_id : Text
  pub token_sha256 : Text
  pub enabled : Bool

unfoldable pub safe_device_id : Text → Result Text
unfolding strip
safe_device_id value = do
  raise_if (is_empty (strip value) || ltb 128 (length (strip value))) relay_invalid_device_id
  guard (all (λ c. is_alnum c || (c == b'_' || (c == b'-' || c == b'.'))) (strip value))
      relay_invalid_device_id
  ok (strip value)

-- `items[key] = value`
unfoldable pub set_credential : Text → Credential → Registry → Registry
set_credential key value [] = (key, value) ∷ []
set_credential key value ((k, v) ∷ items) =
    if text_eq k key then (k, value) ∷ items else (k, v) ∷ set_credential key value items

-- `items.get(key)`
unfoldable pub get_credential : Text → Registry → Option Credential
get_credential key [] = none
get_credential key ((k, v) ∷ items) = if text_eq k key then some v else get_credential key items

-- The file is `none` where it is missing or is no mapping; a digest of a wrong length is left out.
unfoldable pub load_credentials : Registry → Registry
load_credentials [] = []
load_credentials ((k, v) ∷ items) =
    let rest = load_credentials items in
    let digest = lower v.token_sha256 in
    if length digest == 64 then (k, record v { token_sha256 = digest }) ∷ rest else rest

unfoldable pub load_registry : Option Registry → Registry
load_registry none = []
load_registry (some items) = load_credentials items

unfoldable pub is_hex : ℕ → Bool
is_hex c = is_digit c || leb b'a' c && leb c b'f'

unfoldable pub clean_item : SyncItem → Result (Text × Text)
unfolding safe_device_id strip lower is_hex
clean_item i = do
  device_id ← safe_device_id i.device_id
  let digest = lower (strip i.token_sha256)
  raise_if (not (length digest == 64) || not (all is_hex digest)) relay_invalid_token_hash
  ok (device_id, digest)

-- The loop of `sync_devices`, with the registry so far.
unfoldable pub clean_items : ℕ → List SyncItem → Registry → Result Registry
unfolding clean_item set_credential
clean_items now [] clean = ok clean
clean_items now (i ∷ items) clean = do
  (device_id, digest) ← clean_item i
  clean_items now items (
      set_credential device_id
        (record { token_sha256 = digest; enabled = i.enabled; updated_at = now }) clean)

-- The new file; an item that is not valid leaves the old one.
unfoldable pub sync_devices : ℕ → List SyncItem → Result Registry
unfolding clean_items
sync_devices now items = clean_items now items []

-- `authenticate_device`: the answer for a device that is not known, and for one that is.
unfoldable pub accepts_token : Stdlib → Text → Option Credential → Bool
accepts_token lib token none = false
accepts_token lib token (some v) = v.enabled && text_eq v.token_sha256 (lib.sha256_hex token)

unfoldable pub authenticate_device : Stdlib → Option Registry → Text → Text → Bool
unfolding safe_device_id get_credential load_registry accepts_token
authenticate_device lib file device_id token = elim (safe_device_id device_id) [
  | err e ↦ false
  | ok key ↦ accepts_token lib token (get_credential key (load_registry file))
]

-- `_admin_authorized`, for the token of the file, which is empty where the file is missing.
unfoldable pub admin_authorized : Text → Option Text → Bool
unfolding starts_with strip
admin_authorized admin_token none = false
admin_authorized admin_token (some header) =
    not (is_empty admin_token)
    && (starts_with header (text "Bearer ") && text_eq admin_token (strip (drop 7 header)))
