-- ===== src/Relay/Sessions.antt =====
-- relay_server.py: the sessions, from the request to the clean-up. Times are whole milliseconds.
use ge360_bridge.Base.{
  ℕ, ◌+◌, ◌-◌, ◌*◌, ◌==◌, ◌&&◌, ◌||◌, not, Bool, true, false, Option, none, some, List, [], ◌∷◌,
  keep, find, take, length, ltb, leb, is_empty, if◌then◌else◌,
}
use ge360_bridge.Base.Text.{Text, text_eq}
use ge360_bridge.Core.Data.{
  Result, ok, err, relay_invalid_range, relay_no_ports, relay_not_configured, relay_capacity,
}

-- The environment variables.
pub record Settings : Type 0 where
  pub public_host : Text
  pub udp_start : ℕ
  pub udp_end : ℕ
  pub max_sessions : ℕ
  pub idle_seconds : ℕ
  pub max_seconds : ℕ

pub data Phase : Type 0 where
  waiting_bridge active : Phase

pub data Role : Type 0 where
  bridge client : Role

pub record Stats : Type 0 where
  pub bytes_bridge_to_client : ℕ
  pub bytes_client_to_bridge : ℕ
  pub packets_bridge_to_client : ℕ
  pub packets_client_to_bridge : ℕ

-- A session, with the ports that its two sockets are bound to.
pub record RelaySession : Type 0 where
  pub session_id : Text
  pub device_id : Text
  pub bridge_port : ℕ
  pub client_port : ℕ
  pub expected_client_ip : Option Text
  pub expected_bridge_ip : Option Text
  pub bridge_peer : Option (Text × ℕ)
  pub client_peer : Option (Text × ℕ)
  pub created_at : ℕ
  pub last_activity : ℕ
  pub status : Phase
  pub stats : Stats

abbrev pub is_active : RelaySession → Bool
is_active x = elim x.status [ active ↦ true | waiting_bridge ↦ false ]

-- `activate_bridge`
abbrev pub activate_bridge : Option Text → RelaySession → RelaySession
activate_bridge ip x = record x { expected_bridge_ip = ip; status = active }

-- `expected is None or source_ip == expected`
abbrev pub expects : Option Text → Text → Bool
expects none ip = true
expects (some expected) ip = text_eq ip expected

abbrev pub allowed : Role → Text → RelaySession → Bool
allowed bridge ip x = expects x.expected_bridge_ip ip
allowed client ip x = expects x.expected_client_ip ip

-- One datagram that a socket received: who sent it, how long it is, and whether forwarding it
-- works.
pub record Datagram : Type 0 where
  pub source : Text × ℕ
  pub size : ℕ
  pub sendable : Bool

-- Where the datagram goes on to: the last peer of the other side.
abbrev pub target : Role → RelaySession → Option (Text × ℕ)
target bridge x = x.client_peer
target client x = x.bridge_peer

abbrev pub forwards : Role → Datagram → RelaySession → Bool
forwards role d x = elim (target role x) [ none ↦ false | some peer ↦ d.sendable ]

-- One turn of the loop of `_pump`.
unfoldable pub pump : ℕ → Role → Datagram → RelaySession → RelaySession
pump now bridge d x =
    let seen = record x { last_activity = now; bridge_peer = some d.source } in
    let counted = record seen {
      stats = record x.stats {
        bytes_bridge_to_client = x.stats.bytes_bridge_to_client + d.size;
        packets_bridge_to_client = x.stats.packets_bridge_to_client + 1;
      };
    } in
    if not (allowed bridge d.source.0 x) then x else if forwards bridge d x then counted else seen
pump now client d x =
    let seen = record x { last_activity = now; client_peer = some d.source } in
    let counted = record seen {
      stats = record x.stats {
        bytes_client_to_bridge = x.stats.bytes_client_to_bridge + d.size;
        packets_client_to_bridge = x.stats.packets_client_to_bridge + 1;
      };
    } in
    if not (allowed client d.source.0 x) then x else if forwards client d x then counted else seen

unfoldable pub expired : Settings → ℕ → RelaySession → Bool
expired c now x =
    ltb (x.created_at + c.max_seconds * 1000) now
    || (ltb (x.last_activity + c.idle_seconds * 1000) now && is_active x
        || ltb (x.created_at + 120 * 1000) now && not (is_active x))

-- The sessions of the dictionary, in its order.
unfoldable pub cleanup_sessions : Settings → ℕ → List RelaySession → List RelaySession
unfolding expired
cleanup_sessions c now sessions = keep (λ x. not (expired c now x)) sessions

abbrev pub has_session_id : Text → RelaySession → Bool
has_session_id session_id x = text_eq x.session_id session_id

-- `_sessions[session.session_id] = session`
unfoldable pub set_session : RelaySession → List RelaySession → List RelaySession
set_session s [] = s ∷ []
set_session s (x ∷ xs) = if has_session_id s.session_id x then s ∷ xs else x ∷ set_session s xs

-- What `secrets.randbelow` gives for the two ports, and whether both can be bound.
pub record Draw : Type 0 where
  pub first : ℕ
  pub second : ℕ
  pub binds : Bool

-- `min(200, max(20, UDP_END - UDP_START + 1))`
unfoldable pub bind_attempts : Settings → ℕ
bind_attempts c =
    let ports = c.udp_end - c.udp_start + 1 in
    let enough = if ltb ports 20 then 20 else ports in if ltb 200 enough then 200 else enough

unfoldable pub try_draws : ℕ → List Draw → Result (ℕ × ℕ)
try_draws start [] = err relay_no_ports
try_draws start (d ∷ ds) =
    let rest = try_draws start ds in
    if d.first == d.second
    then rest
    else if d.binds
    then ok (d.first + start, d.second + start)
    else rest

unfoldable pub bind_udp_pair : Settings → List Draw → Result (ℕ × ℕ)
unfolding bind_attempts try_draws
bind_udp_pair c draws =
    if ltb c.udp_start 1024 || (ltb 65535 c.udp_end || ltb c.udp_end (c.udp_start + 3))
    then err relay_invalid_range
    else try_draws c.udp_start (take (bind_attempts c) draws)

abbrev pub no_stats : Stats
no_stats = record {
  bytes_bridge_to_client = 0;
  bytes_client_to_bridge = 0;
  packets_bridge_to_client = 0;
  packets_client_to_bridge = 0;
}

abbrev pub new_session : Text → Text → ℕ × ℕ → Option Text → ℕ → RelaySession
new_session session_id device_id ports client_ip now = record {
  session_id = session_id;
  device_id = device_id;
  bridge_port = ports.0;
  client_port = ports.1;
  expected_client_ip = client_ip;
  expected_bridge_ip = none;
  bridge_peer = none;
  client_peer = none;
  created_at = now;
  last_activity = now;
  status = waiting_bridge;
  stats = no_stats;
}

-- `_global_or_none(ip) or ip`, where an empty address is none; `global_ip` is `_global_or_none`.
abbrev pub expected_ip : (Text → Option Text) → Text → Option Text
expected_ip global_ip ip = elim (global_ip ip) [
  | some address ↦ some address
  | none ↦ if is_empty ip then none else some ip
]

abbrev pub is_live_for : Settings → ℕ → Text → RelaySession → Bool
is_live_for c now device_id x = text_eq x.device_id device_id && not (expired c now x)

-- What the clock and `secrets` supply to a request.
pub record Chance : Type 0 where
  pub now : ℕ
  pub session_id : Text
  pub draws : List Draw

unfoldable pub open_session :
    Settings
    → Chance
    → Text
    → Option Text
    → List RelaySession
    → Result RelaySession × List RelaySession
unfolding bind_udp_pair set_session
open_session c chance device_id client_ip sessions = elim (bind_udp_pair c chance.draws) [
  | err e ↦ (err e, sessions)
  | ok ports ↦
      let session = new_session chance.session_id device_id ports client_ip chance.now in
      (ok session, set_session session sessions)
]

unfoldable pub create_session :
    Settings
    → Chance
    → Text
    → Option Text
    → List RelaySession
    → Result RelaySession × List RelaySession
unfolding cleanup_sessions open_session expired
create_session c chance device_id client_ip sessions =
    let live = cleanup_sessions c chance.now sessions in
    let made = open_session c chance device_id client_ip live in
    if is_empty c.public_host
    then (err relay_not_configured, sessions)
    else if leb c.max_sessions (length live)
    then (err relay_capacity, live)
    else elim (find (is_live_for c chance.now device_id) live) [
      | some existing ↦ (ok existing, live)
      | none ↦ made
    ]
