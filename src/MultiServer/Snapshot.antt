-- ===== src/MultiServer/Snapshot.antt =====
-- multi_server.py: `sanitize_agent_snapshot`, what is kept of what another server tells of itself.
pub mod Sound
use ge360_bridge.Base.{
  ℕ, not, ◌||◌, Bool, true, false, Option, none, some, List, [], ◌∷◌, ◌++◌, length, take, leb,
  if◌then◌else◌,
}
use ge360_bridge.Base.Text.{Text, text, text_eq, contains, upper, or_else}
use ge360_bridge.Base.Sorted.{sort_set}
use ge360_bridge.Core.Data.{
  Result, ok, err, guard, raise_if, ◌>>=◌, ◌>>◌, snapshot_invalid, snapshot_resources,
  snapshot_resource, snapshot_duplicate,
}
use ge360_bridge.Core.Validate.{
  validate_name, validate_resource_protocol, validate_port, validate_resource_icon,
}
use ge360_bridge.MultiServer.Servers.{or_true}

abbrev pub max_resources_per_server : ℕ
max_resources_per_server = 256

-- An address that `ipaddress` accepts, with the properties that are read of it.
pub record Address : Type 0 where
  pub is_unspecified : Bool
  pub is_multicast : Bool
  pub is_loopback : Bool
  pub is_link_local : Bool

-- A resource as another server reports it: a text that the JSON lacks is empty, a latency that is
-- no number is `none`, and `target_port` is 0 where it is missing.
pub record RawRemote : Type 0 where
  pub name : Text
  pub display_name : Text
  pub version : Text
  pub icon : Text
  pub description : Text
  pub protocol : Text
  pub target_port : ℕ
  pub health_state : Text
  pub latency_ms : Option ℕ
  pub enabled : Option Bool

pub record Remote : Type 0 where
  pub name : Text
  pub display_name : Text
  pub version : Text
  pub icon : Text
  pub description : Text
  pub protocol : Text
  pub target_port : ℕ
  pub health_state : Text
  pub latency_ms : Option ℕ
  pub enabled : Bool

pub record HostInfo : Type 0 where
  pub hostname : Text
  pub os : Text
  pub architecture : Text
  pub uptime_seconds : Option ℕ

-- `resources` is `none` where the JSON has no list, and an item is `none` where it is no object; of
-- the addresses only those that stand in objects are here.
pub record RawSnapshot : Type 0 where
  pub resources : Option (List (Option RawRemote))
  pub host : HostInfo
  pub ip_addresses : List Text
  pub agent_version : Text
  pub read_only : Option Bool
  pub generated_at : Text

pub record Snapshot : Type 0 where
  pub resources : List Remote
  pub host : HostInfo
  pub ip_addresses : List Text
  pub agent_version : Text
  pub read_only : Bool
  pub generated_at : Text

abbrev pub health_states : List Text
health_states =
    text "ONLINE"
    ∷ text "DEGRADED"
    ∷ text "OFFLINE"
    ∷ text "TIMEOUT"
    ∷ text "UNAUTHORIZED"
    ∷ text "BAD_RESPONSE"
    ∷ text "UNKNOWN"
    ∷ []

unfoldable pub known_state : Text → Text
unfolding contains upper
known_state value =
    let state = upper (or_else value (text "UNKNOWN")) in
    if contains health_states state then state else text "UNKNOWN"

-- The body of the loop over the resources, with the names seen before.
unfoldable pub sanitize_resource : List Text → Option RawRemote → Result Remote
unfolding validate_name validate_resource_protocol validate_port validate_resource_icon known_state
    contains
sanitize_resource names none = err snapshot_resource
sanitize_resource names (some raw) = do
  name ← validate_name raw.name
  raise_if (contains names name) snapshot_duplicate
  protocol ← validate_resource_protocol (or_else raw.protocol (text "tcp"))
  target_port ← validate_port raw.target_port
  icon ← validate_resource_icon (or_else raw.icon (text "server"))
  ok (record {
    name = name;
    display_name = take 120 (or_else raw.display_name name);
    version = take 64 raw.version;
    icon = icon;
    description = take 500 raw.description;
    protocol = protocol;
    target_port = target_port;
    health_state = known_state raw.health_state;
    latency_ms = raw.latency_ms;
    enabled = or_true raw.enabled;
  })

unfoldable pub sanitize_resources : List Text → List (Option RawRemote) → Result (List Remote)
unfolding sanitize_resource
sanitize_resources names [] = ok []
sanitize_resources names (raw ∷ raws) = do
  x ← sanitize_resource names raw
  xs ← sanitize_resources (x.name ∷ names) raws
  ok (x ∷ xs)

module _ (ip_address : Text → Option Address) where
  -- `_peer_ip_allowed`
  unfoldable pub peer_ip_allowed : Text → Bool
  peer_ip_allowed value = elim (ip_address value) [
    | none ↦ false
    | some a ↦ not (a.is_unspecified || a.is_multicast || a.is_loopback || a.is_link_local)
  ]

  unfoldable pub allowed_addresses : List Text → List Text
  unfolding peer_ip_allowed
  allowed_addresses [] = []
  allowed_addresses (x ∷ xs) =
      let rest = allowed_addresses xs in if peer_ip_allowed x then x ∷ rest else rest

  resources_of : Option (List (Option RawRemote)) → Result (List Remote)
  unfolding sanitize_resources
  resources_of none = err snapshot_resources
  resources_of (some raws) = do
    guard (leb (length raws) max_resources_per_server) snapshot_resources
    sanitize_resources [] raws

  -- `none` is a snapshot that is no object.
  unfoldable pub sanitize_agent_snapshot : Option RawSnapshot → Result Snapshot
  unfolding resources_of allowed_addresses sort_set
  sanitize_agent_snapshot none = err snapshot_invalid
  sanitize_agent_snapshot (some raw) = do
    resources ← resources_of raw.resources
    ok (record {
      resources = resources;
      host = record {
        hostname = take 255 raw.host.hostname;
        os = take 255 raw.host.os;
        architecture = take 64 raw.host.architecture;
        uptime_seconds = raw.host.uptime_seconds;
      };
      ip_addresses = sort_set (allowed_addresses raw.ip_addresses);
      agent_version = take 64 raw.agent_version;
      read_only = or_true raw.read_only;
      generated_at = raw.generated_at;
    })
