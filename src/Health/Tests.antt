-- ===== src/Health/Tests.antt =====
-- health.py: runs on concrete resources, and the theorems at them.
use ge360_bridge.Base.{
  ℕ, ◌≡◌, refl, not, true, false, Option, none, some, List, [], ◌∷◌, ltb, is_empty, if◌then◌else◌,
}
use ge360_bridge.Base.Text.{Text, text, contains, text_eq, lower, has_substring}
use ge360_bridge.Core.Data.{Resource}
use ge360_bridge.Health.Check.{
  State, online, degraded, offline, timeout, unauthorized, bad_response, HealthResult, connected,
  connect_timeout, answered, Probe, SplitUrl, good, not_performed, check_fresh, health_request,
  strip_bytes,
}
use ge360_bridge.Health.Online.{is_up, is_healthy, check_fresh-online}
use ge360_bridge.Health.Cache.{Cache, signature, signature_eq, check_resource}
use ge360_bridge.Health.Cache.Key.{signature_eq-check_fresh}
use ge360_bridge.Health.Cache.Again.{check_resource_again}
use ge360_bridge.Health.Cache.Recent.{Network}
use ge360_bridge.Core.Store.{has_duplicates}
use ge360_bridge.Health.Many.{settle, check_resources}
use ge360_bridge.Health.Many.Order.{check_resources_lem}

abbrev panel : Resource
panel = record {
  name = text "panel";
  bridge_port = 9000;
  target_host = text "127.0.0.1";
  target_port = 8080;
  allowed_devices = [];
  icon = text "app";
  description = [];
  protocol = text "HTTP";
  health_url = text "/health";
  timeout_ms = 2000;
  systemd_unit = [];
  self_heal_enabled = false;
  denied_devices = [];
  enabled = true;
}

-- The same service under another port of the bridge.
abbrev panel_moved : Resource
panel_moved = record panel { bridge_port = 9001 }

-- Every URL is of the host `a`; a text is JSON when it is not empty.
abbrev parse : Text → SplitUrl
parse url = record {
  scheme = text "https";
  hostname = text "a";
  port = none;
  path = [];
  query = [];
}

abbrev answering : ℕ → Text → Probe
answering status body = record {
  connect = λ host port timeout. connected;
  request = λ scheme host port path timeout.
      answered (record { status = status; content_type = text "Application/JSON"; body = body });
  urlsplit = parse;
  json_loads = λ s. some (not (is_empty s));
}

abbrev silent : Probe
silent = record (answering 200 []) { connect = λ host port timeout. connect_timeout }

abbrev state_of : Option HealthResult → Option State
state_of none = none
state_of (some h) = some h.state

answer_states :
    (state_of (check_fresh (answering 204 (text " {}")) panel) ≡ some online)
    × (state_of (check_fresh (answering 200 (text " ")) panel) ≡ some degraded)
    × (state_of (check_fresh (answering 403 (text "{}")) panel) ≡ some unauthorized)
    × (state_of (check_fresh (answering 302 (text "{}")) panel) ≡ some bad_response)
    × (state_of (check_fresh silent panel) ≡ some timeout)
    × (state_of (check_fresh silent (record panel { enabled = false })) ≡ some offline)
unfolding check_fresh
answer_states = (refl, refl, refl, refl, refl, refl)

check_fresh-online_example :
    is_up (check_fresh (answering 200 (text "{}")) panel)
    ≡ is_healthy (answering 200 (text "{}")) panel
check_fresh-online_example = check_fresh-online (answering 200 (text "{}")) panel

panel-is_healthy : is_healthy (answering 200 (text "{}")) panel ≡ true
unfolding is_healthy text_eq lower health_request strip_bytes has_substring
panel-is_healthy = refl

signature_eq-check_fresh_example :
    check_fresh (answering 200 (text "{}")) panel
    ≡ check_fresh (answering 200 (text "{}")) panel_moved
unfolding signature_eq
signature_eq-check_fresh_example =
    signature_eq-check_fresh (answering 200 (text "{}")) panel panel_moved refl

abbrev panel_health : HealthResult
panel_health = record {
  name = text "panel";
  state = online;
  problem = none;
  checks = record { tcp = true; http = good; json = good; tls = not_performed };
}

panel_found : check_fresh (answering 200 (text "{}")) panel ≡ some panel_health
unfolding check_fresh
panel_found = refl

check_resource_again_example :
    check_resource silent true 4000 4100 panel
      (check_resource (answering 200 (text "{}")) false 0 10 panel []).1
    ≡ (some panel_health, (check_resource (answering 200 (text "{}")) false 0 10 panel []).1)
check_resource_again_example =
    check_resource_again (answering 200 (text "{}")) silent 0 10 4000 4100 panel panel_health []
      panel_found refl

-- The service falls silent at 2000.
abbrev failing : Network
failing t = if ltb t 2000 then answering 200 (text "{}") else silent

abbrev filled : Cache
filled =
    (text "panel", record { signature = signature panel; stored_at = 10; result = panel_health })
    ∷ []

abbrev printer : Resource
printer = record panel { name = text "printer"; bridge_port = 9002 }

-- The check of the printer ends first, in an exception.
abbrev outcome : Text → Option HealthResult
outcome name = if text_eq name (text "panel") then some panel_health else none

abbrev ended : List (Resource × Option HealthResult)
ended = (printer, none) ∷ (panel, some panel_health) ∷ []

check_resources_lem_example :
    check_resources (panel ∷ printer ∷ []) ended ≡ panel_health ∷ settle printer none ∷ []
unfolding text_eq has_duplicates contains
check_resources_lem_example =
    check_resources_lem outcome ended (panel ∷ printer ∷ []) refl (refl, (refl, tt))
      (refl, (refl, tt))
