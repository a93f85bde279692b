-- ===== src/MultiServer/Catalog.antt =====
-- multi_server.py: `build_catalog`, the resources of this server and of the registered ones.
pub mod Distinct
pub mod Counts
use ge360_bridge.Base.{
  ℕ, ◌+◌, ◌==◌, not, Bool, true, false, Option, none, some, List, [], ◌∷◌, ◌++◌, map, find, length,
  if◌then◌else◌,
}
use ge360_bridge.Base.Text.{Text, text, text_eq}
use ge360_bridge.Base.Dict.{lookup}
use ge360_bridge.Core.Data.{
  Error, Result, ok, err, guard, ◌>>=◌, ◌>>◌, Stdlib, Resource, server_disabled,
}
use ge360_bridge.MultiServer.Servers.{
  Server, validate_control_url, validate_server_token, validate_fingerprint,
}
use ge360_bridge.MultiServer.Snapshot.{
  Address, Remote, HostInfo, RawSnapshot, Snapshot, sanitize_agent_snapshot,
}

-- An entry of "servers": the host and the addresses are there for a server that answered, and
-- `failure` for one that did not.
pub record ServerEntry : Type 0 where
  pub server_id : Text
  pub name : Text
  pub is_local : Bool
  pub online : Bool
  pub disabled : Bool
  pub host : Option HostInfo
  pub ip_addresses : List Text
  pub failure : Option Error
  pub resource_count : ℕ

-- An entry of "resources".
pub record CatalogResource : Type 0 where
  pub resource : Remote
  pub resource_id : Text
  pub server_id : Text
  pub server_name : Text
  pub is_local : Bool
  pub bridge_port : Option ℕ

pub record Catalog : Type 0 where
  pub control_server_id : Text
  pub servers : List ServerEntry
  pub resources : List CatalogResource

-- `f"{server_id}:{resource_name}"`
abbrev pub resource_id_of : Text → Text → Text
resource_id_of server_id name = server_id ++ (b':' ∷ name)

-- `int(port) if port else None`
abbrev pub port_or_none : Option Resource → Option ℕ
port_or_none none = none
port_or_none (some r) = if r.bridge_port == 0 then none else some r.bridge_port

-- The names of the registry differ, so the dictionary has the one resource of that name.
abbrev pub local_resource : Text → List Resource → Remote → CatalogResource
local_resource local_id registered x = record {
  resource = x;
  resource_id = resource_id_of local_id x.name;
  server_id = local_id;
  server_name = text "local";
  is_local = true;
  bridge_port = port_or_none (find (λ (r : Resource). text_eq r.name x.name) registered);
}

abbrev pub remote_resource : Server → Remote → CatalogResource
remote_resource server x = record {
  resource = x;
  resource_id = resource_id_of server.server_id x.name;
  server_id = server.server_id;
  server_name = server.name;
  is_local = false;
  bridge_port = none;
}

abbrev pub local_entry : Text → Snapshot → ServerEntry
local_entry local_id local = record {
  server_id = local_id;
  name = text "local";
  is_local = true;
  online = true;
  disabled = false;
  host = some local.host;
  ip_addresses = local.ip_addresses;
  failure = none;
  resource_count = length local.resources;
}

abbrev pub disabled_entry : Server → ServerEntry
disabled_entry x = record {
  server_id = x.server_id;
  name = x.name;
  is_local = false;
  online = false;
  disabled = true;
  host = none;
  ip_addresses = [];
  failure = none;
  resource_count = 0;
}

-- The two ends of the `try`: the server answered, or a `BridgeError` was caught.
abbrev pub remote_entry : Server → Result Snapshot → ServerEntry
remote_entry x (ok s) = record {
  server_id = x.server_id;
  name = x.name;
  is_local = false;
  online = true;
  disabled = false;
  host = some s.host;
  ip_addresses = s.ip_addresses;
  failure = none;
  resource_count = length s.resources;
}
remote_entry x (err e) = record {
  server_id = x.server_id;
  name = x.name;
  is_local = false;
  online = false;
  disabled = false;
  host = none;
  ip_addresses = [];
  failure = some e;
  resource_count = 0;
}

abbrev pub remote_resources : Server → Result Snapshot → List CatalogResource
remote_resources x (ok s) = map (remote_resource x) s.resources
remote_resources x (err e) = []

-- What lies outside: `urlsplit`, `ipaddress`, and the request for a snapshot to a URL with a token
-- and a pin (`_pinned_json_request`), which may raise.
pub record Network : Type 0 where
  pub lib : Stdlib
  pub ip_address : Text → Option Address
  pub request : Text → Text → Text → Result (Option RawSnapshot)

module _ (net : Network) where
  unfoldable pub fetch_server_snapshot : Server → Result Snapshot
  unfolding validate_control_url validate_server_token validate_fingerprint sanitize_agent_snapshot
  fetch_server_snapshot server = do
    guard server.enabled server_disabled
    base ← validate_control_url net.lib server.control_url
    token ← validate_server_token server.token
    pin ← validate_fingerprint server.tls_cert_sha256
    root ← net.request (base ++ text "/v1/control/snapshot") token pin
    sanitize_agent_snapshot net.ip_address root

  -- A snapshot that was handed over, or the one that is fetched.
  unfoldable pub snapshot_of : Option (Option RawSnapshot) → Server → Result Snapshot
  unfolding fetch_server_snapshot sanitize_agent_snapshot
  snapshot_of none server = fetch_server_snapshot server
  snapshot_of (some given) server = sanitize_agent_snapshot net.ip_address given

  -- The body of the loop over the registered servers.
  unfoldable pub server_part :
      List (Text × Option RawSnapshot) → Server → ServerEntry × List CatalogResource
  unfolding snapshot_of lookup
  server_part supplied server =
      let found = snapshot_of (lookup server.server_id supplied) server in
      if server.enabled
      then (remote_entry server found, remote_resources server found)
      else (disabled_entry server, [])

  -- The loop: the entries and the resources in order.
  unfoldable pub merge_servers :
      List (Text × Option RawSnapshot) → List Server → List ServerEntry × List CatalogResource
  unfolding server_part
  merge_servers supplied [] = ([], [])
  merge_servers supplied (x ∷ xs) =
      let part = server_part supplied x in
      let rest = merge_servers supplied xs in (part.0 ∷ rest.0, part.1 ++ rest.1)

  -- `build_catalog`: the id of this server, its snapshot, its registry, the snapshots handed over and
  -- the registered servers.
  unfoldable pub build_catalog :
      Text
      → Option RawSnapshot
      → List Resource
      → List (Text × Option RawSnapshot)
      → Result (List Server)
      → Result Catalog
  unfolding sanitize_agent_snapshot merge_servers
  build_catalog local_id local_snapshot registered supplied listed = do
    local ← sanitize_agent_snapshot net.ip_address local_snapshot
    servers ← listed
    let merged = merge_servers supplied servers
    ok (record {
      control_server_id = local_id;
      servers = local_entry local_id local ∷ merged.0;
      resources = map (local_resource local_id registered) local.resources ++ merged.1;
    })
