-- ===== src/Pairing/Tests.antt =====
-- Runs of pairing.py on small inputs, and the theorems at concrete inputs.
use ge360_bridge.Base.{ℕ, none, some, [], ◌∷◌}
use ge360_bridge.Base.Text.{text}
use ge360_bridge.Core.Sample.{plain, survey, files}
use ge360_bridge.Pairing.Enrollments.{Enrollment, pending, Site}
use ge360_bridge.Pairing.Consume.{Outside, Supply, Response}

-- A decoder that takes every key, and a hash to run with.
abbrev outside : Outside
outside = record {
  stdlib = plain;
  b64decode = λ t. some 32;
  token_digest = λ t. t;
  server_public_key = some (text "server");
}

abbrev supply_at : ℕ → Supply
supply_at now = record {
  now = now;
  today = 20260601;
  utc_now = text "2026-06-01";
  device_id = text "dev_2";
  psk = some (text "psk");
  app_token = text "app";
}

abbrev invited : Enrollment
invited = record {
  enrollment_id = text "enr_1";
  device_name = text "tablet";
  device_type = text "android";
  owner = [];
  device_expires_at = none;
  notes = [];
  tags = [];
  groups = text "field" ∷ [];
  token_hash = text "secret";
  created_at = 1000;
  expires_at = 1600;
  status = pending;
  used_at = none;
  expired_at = none;
  device_id = none;
}

abbrev site : Site
site = record { registries = files; enrollments_file = some (invited ∷ []) }

abbrev accepted : Response
accepted = record {
  device_id = text "dev_2";
  device = text "tablet";
  vpn_ip = text "10.88.0.3";
  preshared_key = text "psk";
  device_token = text "app";
  server_public_key = text "server";
  groups = text "field" ∷ [];
  resources = survey ∷ [];
}
