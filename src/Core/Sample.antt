-- ===== src/Core/Sample.antt =====
-- Sample files for the runs of the tests.
use ge360_bridge.Base.{true, false, none, some, [], ◌∷◌}
use ge360_bridge.Base.Text.{text}
use ge360_bridge.Core.Data.{Stdlib, Resource, Device, Group}
use ge360_bridge.Core.Normalize.{raw_resource, raw_device, raw_group}
use ge360_bridge.Core.Store.{Store}

-- A hash and a URL parser to run with.
abbrev pub plain : Stdlib
plain = record { sha256_hex = λ t. t; urlsplit = λ t. none }

abbrev pub phone : Device
phone = record {
  device_id = text "dev_1";
  name = text "phone";
  device_type = text "android";
  owner = [];
  vpn_ip = text "10.88.0.2";
  public_key = text "key";
  preshared_key = text "psk";
  token = text "token";
  created_at = text "2026-01-01";
  expires_at = none;
  notes = [];
  tags = [];
  enabled = true;
}

abbrev pub survey : Resource
survey = record {
  name = text "rilievi";
  bridge_port = 9888;
  target_host = text "127.0.0.1";
  target_port = 9888;
  allowed_devices = [];
  icon = text "server";
  description = [];
  protocol = text "tcp";
  health_url = [];
  timeout_ms = 2000;
  systemd_unit = [];
  self_heal_enabled = false;
  denied_devices = [];
  enabled = true;
}

abbrev pub field_team : Group
field_team = record {
  name = text "field";
  description = [];
  device_ids = text "dev_1" ∷ [];
  allowed_services = text "rilievi" ∷ [];
  enabled = true;
}

abbrev pub files : Store
files = record {
  resources_file = some (raw_resource survey ∷ []);
  services_file = some (raw_resource survey ∷ []);
  devices_file = some (raw_device phone ∷ []);
  groups_file = some (raw_group field_team ∷ []);
  audit_writable = true;
  audit = [];
}
