-- ===== src/P2p/Tests.antt =====
-- Runs of p2p.py on small inputs, and the theorems at concrete inputs.
use ge360_bridge.Base.{ℕ, true, false, List, ◌≡◌, refl, none, some, [], ◌∷◌, if◌then◌else◌}
use ge360_bridge.Base.Text.{Text, text, text_eq, is_space, lower}
use ge360_bridge.P2p.Sessions.{
  Session, prepared, failed, safe_session, cleanup, fresh_attempts, write_mirror, latest_first,
  insert_latest, update_session, update_found,
}
use ge360_bridge.P2p.WireGuard.{
  Host, Runtime, split_words, split_lines, field_of, peer_field, show_peer, latest_handshake,
  current_endpoint, current_keepalive, set_peer_endpoint, trigger_wireguard,
}
use ge360_bridge.P2p.Traversal.{
  complete, punch, try_punch, conclude_success, restore_endpoint, set_back, conclude_failure,
  conclude_error, conclude, start_attempt, run_attempt, attempt_found, attempt_traversal,
}
use ge360_bridge.P2p.Kept.{is_succeeded, last_set, candidate_set, previous_set}
use ge360_bridge.P2p.Endpoint.{attempt_traversal_endpoint}
use ge360_bridge.Base.{◌+◌, ◌*◌, ◌≤◌, length, arith}
use ge360_bridge.Base.Text.{contains, strip, lstrip, rstrip}
use ge360_bridge.Base.Sorted.{sort_set}
use ge360_bridge.Core.Sample.{plain, files}
use ge360_bridge.Core.Store.{find_device, list_devices}
use ge360_bridge.Core.Normalize.{normalize_device}
use ge360_bridge.Core.Validate.{normalize_tags, collect_tags}
use ge360_bridge.Core.Access.{device_is_active, device_is_expired}
use ge360_bridge.P2p.Sessions.{rate_limit, attempts_of, add_attempt, list_sessions}
use ge360_bridge.P2p.Prepare.{
  Surroundings, Ask, prepare_traversal, checked_ask, keep_session, authenticate_device,
  validate_candidate, server_candidates, add_ipv6, by_priority, insert_priority, set_session,
}
use ge360_bridge.P2p.RateLimit.{grants_between}
use ge360_bridge.P2p.Grants.{Call, ask, look, Log, perform_all, p2p_limit}

-- A peer whose endpoint is known, and which never answers.
abbrev silent : Host (Unit {0})
silent = record {
  run = λ args w. (record { returncode = 0; stdout = text "key 1.2.3.4:5"; stderr = [] }, w);
  sleep = λ n w. w;
  now = λ w. 50000;
  to_text = λ n. [];
  to_int = λ t. none;
}

abbrev asked : Session
asked = record {
  session_id = text "p2p_1";
  device_id = text "dev_1";
  device_name = text "phone";
  vpn_ip = text "10.88.0.2";
  peer_public_key = text "key";
  client_candidate = record {
    ip = text "9.9.9.9";
    port = 7;
    local_port = none;
    source = text "stun";
  };
  client_endpoint = text "9.9.9.9:7";
  server_candidates = [];
  recommended_endpoint = [];
  fallback_endpoint = [];
  created_at = 40000;
  expires_at = 130000;
  status = prepared;
  attempts = 0;
  latest_handshake = 0;
  error = none;
  previous_endpoint = none;
  previous_keepalive = 0;
  baseline_handshake = 0;
  completed_at = none;
  endpoint_active = none;
  endpoint_restore = none;
}

abbrev runtime : Runtime (Unit {0})
runtime = record {
  tables = record { sessions = asked ∷ []; device_attempts = []; mirror = none };
  set_endpoints = [];
  world = tt;
}

abbrev unanswered : Session
unanswered = record (safe_session asked) {
  status = failed;
  attempts = 5;
  error = some (text "wireguard_handshake_not_observed");
  previous_endpoint = some (text "1.2.3.4:5");
  completed_at = some 50000;
  endpoint_restore = some (text "previous_endpoint_restored");
}

attempt_traversal_endpoint_example :
    last_set (attempt_traversal silent (text "p2p_1") runtime).1
    ≡ some (
        if is_succeeded unanswered
        then candidate_set asked
        else previous_set asked (text "1.2.3.4:5") 0)
unfolding attempt_traversal attempt_found run_attempt start_attempt conclude conclude_error
    conclude_failure conclude_success set_back restore_endpoint complete try_punch punch
    trigger_wireguard set_peer_endpoint current_keepalive current_endpoint latest_handshake
    show_peer peer_field field_of split_lines split_words update_session update_found cleanup
    fresh_attempts write_mirror latest_first insert_latest text_eq is_space lower
attempt_traversal_endpoint_example =
    attempt_traversal_endpoint silent (text "p2p_1") runtime {x = asked} {y = unanswered}
      {e = text "1.2.3.4:5"} refl refl refl refl

abbrev env : Surroundings
env = record {
  ip_address = λ t. some (record { canonical = t; is_global = true; is_ipv6 = false });
  configured = some (record {
    endpoint = text "bridge:51820";
    kind = text "configured_public_endpoint";
    priority = 100;
  });
  ipv6_endpoints = [];
  enabled = true;
  public_endpoint = text "bridge:51820";
  endpoint_text = λ ip port. ip;
}

abbrev ask_at : ℕ → Text → Ask
ask_at now session_id = record {
  now = now;
  today = 20260601;
  session_id = session_id;
  device_id = text "dev_1";
  token = text "token";
  candidate_ip = text "9.9.9.9";
  candidate_port = 7;
  candidate_local_port = none;
  candidate_source = text "stun";
}

abbrev calls : List Call
calls =
    ask files (ask_at 1000 (text "p2p_1")) ∷ look 2000 ∷ ask files (ask_at 3000 (text "p2p_2")) ∷ []

abbrev no_attempts : Log
no_attempts = record {
  tables = record { sessions = []; device_attempts = []; mirror = none };
  granted = [];
}

p2p_limit_example :
    grants_between
      (text "dev_1")
      500
      (500 + 60 * 1000)
      (perform_all env plain calls no_attempts).granted
    ≤ 6
p2p_limit_example =
    p2p_limit env plain calls [] none (omega arith, (omega arith, (omega arith, tt))) (text "dev_1")
      500

-- Both requests are granted.
two_grants : length (perform_all env plain calls no_attempts).granted ≡ 2
unfolding prepare_traversal checked_ask keep_session authenticate_device validate_candidate
    server_candidates add_ipv6 by_priority insert_priority set_session rate_limit attempts_of
    add_attempt list_sessions cleanup fresh_attempts write_mirror latest_first insert_latest
    find_device list_devices normalize_device device_is_active device_is_expired normalize_tags
    collect_tags sort_set text_eq contains strip lstrip rstrip is_space lower
two_grants = refl
