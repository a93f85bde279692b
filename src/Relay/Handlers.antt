-- ===== src/Relay/Handlers.antt =====
-- relay_server.py: the requests that `RelayHandler` serves, the pump of the sockets and the
-- clean-up loop of `serve`, as steps on the state of the server. The two locks make each of them
-- one step.
use ge360_bridge.Base.{
  ℕ, not, Bool, Option, none, some, List, [], ◌∷◌, keep, find, length, update_first, ◌&&◌, ◌||◌,
  if◌then◌else◌,
}
use ge360_bridge.Base.Text.{Text, text, text_eq, contains, starts_with}
use ge360_bridge.Core.Data.{Error, ok, err, Stdlib, relay_session_not_found, relay_invalid_reason}
use ge360_bridge.Relay.Registry.{
  Registry, SyncItem, sync_devices, authenticate_device, admin_authorized,
}
use ge360_bridge.Relay.Sessions.{
  Settings, Role, Datagram, RelaySession, Chance, is_active, activate_bridge, pump,
  cleanup_sessions, has_session_id, expected_ip, create_session,
}

-- devices.json, and `_sessions`.
pub record Relay : Type 0 where
  pub registry_file : Option Registry
  pub sessions : List RelaySession

-- The fields that a body is asked for; an empty text where the body has none.
pub record Body : Type 0 where
  pub devices : List SyncItem
  pub session_id : Text
  pub device_id : Text
  pub device_token : Text
  pub reason : Text

-- `body` is `none` where `_body` raises.
pub record Request : Type 0 where
  pub path : Text
  pub authorization : Option Text
  pub client_ip : Text
  pub body : Option Body

-- What is sent, with the status of the response.
pub data Reply : Type 0 where
  healthy : Reply
  status_report : List RelaySession → Reply
  synced : (devices : ℕ) → Reply
  requests : List RelaySession → Reply
  session : RelaySession → Reply
  session_for : RelaySession → (fallback_reason : Text) → Reply
  bad_request : Error → Reply
  invalid_request unauthorized not_found : Reply

abbrev pub fallback_reasons : List Text
fallback_reasons = text "direct_failed" ∷ text "p2p_failed" ∷ text "control_unreachable" ∷ []

-- `_sessions.get(session_id)`, of the device that asks for it.
abbrev pub is_session_of : Text → Text → RelaySession → Bool
is_session_of session_id device_id x = has_session_id session_id x && text_eq x.device_id device_id

-- What can happen to the server.
pub data Event : Type 0 where
  get : Chance → Request → Event
  post : Chance → Request → Event
  received : (now : ℕ) → (session_id : Text) → Role → Datagram → Event
  sweep : (now : ℕ) → Event

module _ (lib : Stdlib) (c : Settings) (admin_token : Text) (global_ip : Text → Option Text) where
  unfoldable pub do_get : Chance → Request → Relay → Reply × Relay
  do_get chance q s =
      let live = cleanup_sessions c chance.now s.sessions in
      if text_eq q.path (text "/healthz")
      then (healthy, s)
      else if text_eq q.path (text "/v1/admin/status")
      then (if admin_authorized admin_token q.authorization
          then (status_report live, record s { sessions = live })
          else (unauthorized, s))
      else (not_found, s)

  unfoldable pub admin_sync : Chance → Body → Relay → Reply × Relay
  admin_sync chance body s = elim (sync_devices chance.now body.devices) [
    | err e ↦ (bad_request e, s)
    | ok clean ↦ (synced (length clean), record s { registry_file = some clean })
  ]

  unfoldable pub admin_requests : Chance → Relay → Reply × Relay
  admin_requests chance s =
      let live = cleanup_sessions c chance.now s.sessions in
      (requests (keep (λ x. not (is_active x)) live), record s { sessions = live })

  unfoldable pub admin_activate : Request → Body → Relay → Reply × Relay
  admin_activate q body s =
      let ip : Option Text = elim (global_ip q.client_ip) [
        | none ↦ some q.client_ip
        | some a ↦ some a
      ] in
      elim (find (has_session_id body.session_id) s.sessions) [
        | none ↦ (bad_request relay_session_not_found, s)
        | some x ↦ (
          session (activate_bridge ip x),
          record s {
            sessions =
                update_first (has_session_id body.session_id) (activate_bridge ip) s.sessions;
          },
        )
      ]

  unfoldable pub device_request : Chance → Request → Body → Relay → Reply × Relay
  device_request chance q body s =
      let (made, sessions) =
        create_session c chance body.device_id (expected_ip global_ip q.client_ip) s.sessions in
      let s' = record s { sessions = sessions } in
      if not (contains fallback_reasons body.reason)
      then (bad_request relay_invalid_reason, s)
      else elim made [ err e ↦ (bad_request e, s') | ok x ↦ (session_for x body.reason, s') ]

  unfoldable pub device_status : Chance → Body → Relay → Reply × Relay
  device_status chance body s =
      let live = cleanup_sessions c chance.now s.sessions in
      let s' = record s { sessions = live } in
      elim (find (is_session_of body.session_id body.device_id) live) [
        | none ↦ (bad_request relay_session_not_found, s')
        | some x ↦ (session x, s')
      ]

  unfoldable pub admin_post : Chance → Request → Body → Relay → Reply × Relay
  unfolding admin_sync admin_requests admin_activate
  admin_post chance q body s =
      if not (admin_authorized admin_token q.authorization)
      then (unauthorized, s)
      else if text_eq q.path (text "/v1/admin/sync")
      then admin_sync chance body s
      else if text_eq q.path (text "/v1/admin/requests")
      then admin_requests chance s
      else if text_eq q.path (text "/v1/admin/activate")
      then admin_activate q body s
      else (not_found, s)

  unfoldable pub device_post : Chance → Request → Body → Relay → Reply × Relay
  unfolding device_request device_status
  device_post chance q body s =
      if not (authenticate_device lib s.registry_file body.device_id body.device_token)
      then (unauthorized, s)
      else if text_eq q.path (text "/v1/device/request")
      then device_request chance q body s
      else device_status chance body s

  unfoldable pub post_body : Chance → Request → Body → Relay → Reply × Relay
  unfolding admin_post device_post
  post_body chance q body s =
      if starts_with q.path (text "/v1/admin/")
      then admin_post chance q body s
      else if text_eq q.path (text "/v1/device/request")
          || text_eq q.path (text "/v1/device/status")
      then device_post chance q body s
      else (not_found, s)

  unfoldable pub do_post : Chance → Request → Relay → Reply × Relay
  unfolding post_body
  do_post chance q s = elim q.body [
    | none ↦ (invalid_request, s)
    | some body ↦ post_body chance q body s
  ]

  unfoldable pub handle : Event → Relay → Relay
  unfolding do_get do_post
  handle (get chance q) s = (do_get chance q s).1
  handle (post chance q) s = (do_post chance q s).1
  handle (received now session_id role d) s = record s {
    sessions = update_first (has_session_id session_id) (pump now role d) s.sessions;
  }
  handle (sweep now) s = record s { sessions = cleanup_sessions c now s.sessions }

  unfoldable pub handle_all : List Event → Relay → Relay
  unfolding handle
  handle_all [] s = s
  handle_all (e ∷ es) s = handle_all es (handle e s)
