-- ===== src/Relay/Tests.antt =====
-- Runs of relay_server.py on small inputs, and the theorems at concrete inputs.
use ge360_bridge.Base.{ℕ, ◌≡◌, refl, true, none, some, List, [], ◌∷◌, any, length}
use ge360_bridge.Base.Text.{
  Text, text, text_eq, contains, strip, lstrip, rstrip, is_space, lower, starts_with,
}
use ge360_bridge.Core.Sample.{plain}
use ge360_bridge.Relay.Registry.{
  Registry, SyncItem, safe_device_id, set_credential, get_credential, load_credentials,
  load_registry, is_hex, clean_item, clean_items, sync_devices, accepts_token, authenticate_device,
  admin_authorized,
}
use ge360_bridge.Relay.Sessions.{
  Settings, bridge, client, Chance, Draw, try_draws, bind_attempts, bind_udp_pair, pump, expired,
  cleanup_sessions, set_session, open_session, create_session,
}
use ge360_bridge.Relay.Handlers.{
  Relay, Body, Request, post, received, sweep, Event, handle, handle_all, do_post, post_body,
  admin_post, admin_activate, admin_sync, admin_requests, device_post, device_request,
  device_status,
}
use ge360_bridge.Relay.Authentication.{lets_in, sync-authenticate}
use ge360_bridge.Relay.Admission.{is_refusal, do_post-refused}

abbrev settings : Settings
settings = record {
  public_host = text "relay.example";
  udp_start = 40000;
  udp_end = 40199;
  max_sessions = 2;
  idle_seconds = 90;
  max_seconds = 86400;
}

-- A token whose hash is itself, of 64 digits.
abbrev token : Text
token = text "0123456789abcdef0123456789abcdef0123456789abcdef0123456789abcdef"

abbrev item : SyncItem
item = record { device_id = text " dev_1"; token_sha256 = token; enabled = true }

abbrev synced_file : Registry
synced_file = (text "dev_1", record { token_sha256 = token; enabled = true; updated_at = 5 }) ∷ []

abbrev draws : List Draw
draws =
    record { first = 7; second = 7; binds = true }
    ∷ record { first = 7; second = 8; binds = true }
    ∷ []

abbrev chance_at : ℕ → Text → Chance
chance_at now session_id = record { now = now; session_id = session_id; draws = draws }

abbrev body : Body
body = record {
  devices = item ∷ [];
  session_id = text "relay_1";
  device_id = text "dev_1";
  device_token = token;
  reason = text "p2p_failed";
}

abbrev request_to : Text → Request
request_to path = record {
  path = path;
  authorization = some (text "Bearer admin");
  client_ip = text "10.0.0.9";
  body = some body;
}

abbrev empty : Relay
empty = record { registry_file = none; sessions = [] }

abbrev events : List Event
events =
    post (chance_at 1000 []) (request_to (text "/v1/admin/sync"))
    ∷ post (chance_at 2000 (text "relay_1")) (request_to (text "/v1/device/request"))
    ∷ post (chance_at 3000 []) (request_to (text "/v1/admin/activate"))
    ∷ received 4000 (text "relay_1") client
        (record { source = (text "10.0.0.9", 5); size = 9; sendable = true })
    ∷ received 5000 (text "relay_1") bridge
        (record { source = (text "10.0.0.9", 6); size = 9; sendable = true })
    ∷ sweep 6000
    ∷ []

-- The session is there at the end of the run.
one_session :
    length (handle_all plain settings (text "admin") (λ ip. none) events empty).sessions ≡ 1
unfolding handle_all handle do_post post_body admin_post admin_sync admin_activate admin_requests
    device_post device_request device_status sync_devices clean_items clean_item safe_device_id
    set_credential get_credential load_credentials load_registry is_hex accepts_token
    authenticate_device admin_authorized create_session open_session cleanup_sessions expired
    bind_udp_pair bind_attempts try_draws set_session pump text_eq contains strip lstrip rstrip
    is_space lower starts_with
one_session = refl

sync-authenticate_example : any (lets_in plain (strip (text "dev_1")) token) (item ∷ []) ≡ true
unfolding sync_devices clean_items clean_item safe_device_id set_credential get_credential
    load_credentials load_registry is_hex accepts_token authenticate_device text_eq strip lstrip
    rstrip is_space lower
sync-authenticate_example =
    sync-authenticate plain 5 (item ∷ []) (text "dev_1") token {result = synced_file} refl refl

do_post-refused_example :
    let (reply, s') =
      do_post plain settings
        (text "other")
        (λ ip. none)
        (chance_at 1000 [])
        (request_to (text "/v1/admin/sync"))
        empty in
    (is_refusal reply ≡ true) × (s' ≡ empty)
unfolding admin_authorized starts_with text_eq strip lstrip rstrip is_space
do_post-refused_example =
    do_post-refused plain settings (text "other") (λ ip. none) (chance_at 1000 [])
      (request_to (text "/v1/admin/sync")) empty refl
