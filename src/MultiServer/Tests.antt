-- ===== src/MultiServer/Tests.antt =====
-- multi_server.py: the theorems on a registry with two servers, one of which is switched off.
use ge360_bridge.Base.{◌≡◌, refl, inl, Bool, true, false, none, some, List, [], ◌∷◌, ◌++◌}
use ge360_bridge.Base.Text.{Text, text, text_eq, is_space, lower}
use ge360_bridge.Core.Data.{ok, Stdlib}
use ge360_bridge.Core.Store.{has_duplicates}
use ge360_bridge.Core.Validate.{matches_name}
use ge360_bridge.MultiServer.Servers.{Server, RawServer, Registry, list_servers}
use ge360_bridge.MultiServer.Servers.Steps.{
  add, set_enabled, IsSound, perform_all, perform_all-IsSound,
}
use ge360_bridge.MultiServer.Snapshot.{RawRemote, RawSnapshot}
use ge360_bridge.MultiServer.Catalog.{Catalog, Network, build_catalog}
use ge360_bridge.MultiServer.Catalog.Distinct.{build_catalog_ids}

abbrev stdlib : Stdlib
stdlib = record {
  sha256_hex = λ t. t;
  urlsplit = λ url. some (record {
    scheme = text "https";
    hostname = text "host";
    username = [];
    password = [];
    fragment = [];
    port = some none;
  });
}

abbrev pin : Text
pin = text "aaaaaaaaaaaaaaaaaaaaaaaaaaaaaaaaaaaaaaaaaaaaaaaaaaaaaaaaaaaaaaaa"

abbrev raw_named : Text → Text → Bool → RawServer
raw_named server_id name enabled = record {
  server_id = server_id;
  name = name;
  control_url = text "https://" ++ name;
  tls_cert_sha256 = pin;
  token = pin;
  enabled = some enabled;
  notes = [];
  created_at = text "2026-01-01";
}

perform_all-IsSound_example : IsSound (
    perform_all stdlib
      (text "now")
      (add (raw_named (text "srv_aaa") (text "one") true)
        ∷ add (raw_named (text "srv_aaa") (text "two") true)
        ∷ set_enabled (text "one") false
        ∷ [])
      (record { servers_file = none }))
perform_all-IsSound_example =
    perform_all-IsSound stdlib (text "now")
      (add (raw_named (text "srv_aaa") (text "one") true)
        ∷ add (raw_named (text "srv_aaa") (text "two") true)
        ∷ set_enabled (text "one") false
        ∷ [])
      (record { servers_file = none }) (inl refl)

abbrev printer : RawRemote
printer = record {
  name = text "printer";
  display_name = [];
  version = [];
  icon = [];
  description = [];
  protocol = [];
  target_port = 631;
  health_state = text "online";
  latency_ms = some 3;
  enabled = none;
}

abbrev snapshot : RawSnapshot
snapshot = record {
  resources = some (some printer ∷ []);
  host = record { hostname = text "pc"; os = []; architecture = []; uptime_seconds = none };
  ip_addresses = [];
  agent_version = [];
  read_only = none;
  generated_at = [];
}

abbrev network : Network
network = record {
  lib = stdlib;
  ip_address = λ t. none;
  request = λ url token fingerprint. ok (some snapshot);
}

abbrev registry : Registry
registry = record {
  servers_file = some (
      raw_named (text "srv_aaa") (text "one") true
      ∷ raw_named (text "srv_bbb") (text "two") false
      ∷ []);
}

abbrev server_named : Text → Text → Bool → Server
server_named server_id name enabled = record {
  server_id = server_id;
  name = name;
  control_url = text "https://" ++ name;
  tls_cert_sha256 = pin;
  token = pin;
  enabled = enabled;
  notes = [];
  created_at = text "2026-01-01";
}

abbrev servers : List Server
servers =
    server_named (text "srv_aaa") (text "one") true
    ∷ server_named (text "srv_bbb") (text "two") false
    ∷ []

build_catalog_ids_example :
    has_duplicates (text "srv_own:printer" ∷ text "srv_aaa:printer" ∷ []) ≡ false
unfolding build_catalog list_servers has_duplicates text_eq is_space lower matches_name
build_catalog_ids_example =
    build_catalog_ids network (text "now") (text "srv_own") (some snapshot) [] [] registry
      {servers = servers} refl refl refl refl
