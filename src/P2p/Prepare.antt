-- ===== src/P2p/Prepare.antt =====
-- p2p.py: a device asks for a session.
use ge360_bridge.Base.{
  ℕ, ◌+◌, ◌&&◌, not, Bool, true, Option, none, some, List, [], ◌∷◌, ◌++◌, any, find, leb, is_empty,
  if◌then◌else◌,
}
use ge360_bridge.Base.Text.{Text, text, text_eq, contains, strip, lower, or_else}
use ge360_bridge.Core.Data.{
  Result, ok, err, ◌>>=◌, ◌>>◌, guard, Stdlib, Device, p2p_disabled, p2p_invalid_device,
  p2p_invalid_token, p2p_invalid_ip, p2p_local_ip, p2p_invalid_port, p2p_invalid_local_port,
  p2p_invalid_source, p2p_no_candidates, p2p_session_not_found,
}
use ge360_bridge.Core.Store.{Store, find_device}
use ge360_bridge.Core.Access.{device_is_active}
use ge360_bridge.P2p.Sessions.{
  prepared, PeerCandidate, ServerCandidate, Session, Tables, session_ttl, has_session_id,
  safe_session, write_mirror, cleanup, rate_limit,
}

-- What `ipaddress.ip_address` makes of a text.
pub record Address : Type 0 where
  pub canonical : Text
  pub is_global : Bool
  pub is_ipv6 : Bool

-- What lies outside: the address parser, `none` where it raises; the configured endpoint and the
-- global IPv6 addresses of the machine; the settings of bridge.env.
pub record Surroundings : Type 0 where
  pub ip_address : Text → Option Address
  pub configured : Option ServerCandidate
  pub ipv6_endpoints : List Text
  pub enabled : Bool
  pub public_endpoint : Text
  -- `f"{address}:{port}"`, with brackets around an IPv6 address
  pub endpoint_text : Text → ℕ → Text

abbrev pub sources : List Text
sources = text "stun" ∷ text "ipv6" ∷ text "manual" ∷ []

abbrev pub is_port : ℕ → Bool
is_port p = leb 1 p && leb p 65535

abbrev pub is_optional_port : Option ℕ → Bool
is_optional_port none = true
is_optional_port (some p) = is_port p

-- The checks on the device that was found.
abbrev pub checked_device : ℕ → Text → Option Device → Result Device
checked_device today token none = err p2p_invalid_device
checked_device today token (some d) = do
  guard (device_is_active today d) p2p_invalid_device
  guard (not (is_empty d.token) && (not (is_empty token) && text_eq d.token token))
      p2p_invalid_token
  ok d

unfoldable pub authenticate_device : Stdlib → ℕ → Store → Text → Text → Result Device
authenticate_device lib today files device_id token =
    checked_device today token (find_device lib device_id files)

-- The loop over the IPv6 addresses.
unfoldable pub add_ipv6 : List Text → List ServerCandidate → List ServerCandidate
add_ipv6 [] out = out
add_ipv6 (e ∷ es) out =
    let rest = add_ipv6 es out in
    let made : ServerCandidate = record {
      endpoint = e;
      kind = text "global_ipv6";
      priority = 90;
    } in
    let more = add_ipv6 es (out ++ made ∷ []) in
    if any (λ (c : ServerCandidate). text_eq c.endpoint e) out then rest else more

unfoldable pub insert_priority : ServerCandidate → List ServerCandidate → List ServerCandidate
insert_priority c [] = c ∷ []
insert_priority c (d ∷ ds) =
    if leb d.priority c.priority then c ∷ d ∷ ds else d ∷ insert_priority c ds

-- `sorted(out, key=priority, reverse=True)`
unfoldable pub by_priority : List ServerCandidate → List ServerCandidate
unfolding insert_priority
by_priority [] = []
by_priority (c ∷ cs) = insert_priority c (by_priority cs)

-- The arguments, the clock and the id that `secrets` gives.
pub record Ask : Type 0 where
  pub now : ℕ
  pub today : ℕ
  pub session_id : Text
  pub device_id : Text
  pub token : Text
  pub candidate_ip : Text
  pub candidate_port : ℕ
  pub candidate_local_port : Option ℕ
  pub candidate_source : Text

module _ (env : Surroundings) where
  abbrev pub checked_address : Option Address → ℕ → Option ℕ → Text → Result PeerCandidate
  checked_address none port local_port source = err p2p_invalid_ip
  checked_address (some a) port local_port source = do
    guard a.is_global p2p_local_ip
    guard (is_port port) p2p_invalid_port
    guard (is_optional_port local_port) p2p_invalid_local_port
    guard (contains sources source) p2p_invalid_source
    ok (record { ip = a.canonical; port = port; local_port = local_port; source = source })

  unfoldable pub validate_candidate : Text → ℕ → Option ℕ → Text → Result PeerCandidate
  unfolding contains strip lower
  validate_candidate ip port local_port source =
      checked_address (env.ip_address (strip ip)) port local_port
        (lower (strip (or_else source (text "stun"))))

  unfoldable pub server_candidates : List ServerCandidate
  unfolding add_ipv6 by_priority
  server_candidates =
      by_priority
        (add_ipv6 env.ipv6_endpoints (elim env.configured [ none ↦ [] | some c ↦ c ∷ [] ]))

  abbrev pub new_session : Ask → Device → PeerCandidate → List ServerCandidate → Text → Session
  new_session a d candidate candidates recommended = record {
    session_id = a.session_id;
    device_id = d.device_id;
    device_name = d.name;
    vpn_ip = d.vpn_ip;
    peer_public_key = d.public_key;
    client_candidate = candidate;
    client_endpoint = env.endpoint_text candidate.ip candidate.port;
    server_candidates = candidates;
    recommended_endpoint = recommended;
    fallback_endpoint = env.public_endpoint;
    created_at = a.now;
    expires_at = a.now + session_ttl;
    status = prepared;
    attempts = 0;
    latest_handshake = 0;
    error = none;
    previous_endpoint = none;
    previous_keepalive = 0;
    baseline_handshake = 0;
    completed_at = none;
    endpoint_active = none;
    endpoint_restore = none;
  }

  -- The checks before anything is changed.
  unfoldable pub checked_ask : Stdlib → Store → Ask → Result Session
  unfolding authenticate_device validate_candidate server_candidates
  checked_ask lib files a = do
    guard env.enabled p2p_disabled
    device ← authenticate_device lib a.today files a.device_id a.token
    candidate ←
        validate_candidate a.candidate_ip a.candidate_port a.candidate_local_port a.candidate_source
    elim server_candidates [
      | [] ↦ err p2p_no_candidates
      | c ∷ cs ↦ ok (new_session a device candidate (c ∷ cs) c.endpoint)
    ]

  -- `_SESSIONS[session_id] = session`
  unfoldable pub set_session : Session → List Session → List Session
  set_session s [] = s ∷ []
  set_session s (x ∷ xs) = if has_session_id s.session_id x then s ∷ xs else x ∷ set_session s xs

  -- The session is kept if the rate limit was passed.
  unfoldable pub keep_session : Session → ℕ → Result (Unit {0}) × Tables → Result Session × Tables
  unfolding set_session cleanup write_mirror
  keep_session s now (err e, t) = (err e, t)
  keep_session s now (ok u, t) =
      let t' = cleanup now t in
      (ok (safe_session s), write_mirror (record t' { sessions = set_session s t'.sessions }))

  unfoldable pub prepare_traversal : Stdlib → Store → Ask → Tables → Result Session × Tables
  unfolding checked_ask keep_session rate_limit
  prepare_traversal lib files a t = elim (checked_ask lib files a) [
    | err e ↦ (err e, t)
    | ok s ↦ keep_session s a.now (rate_limit s.device_id a.now t)
  ]

unfoldable pub traversal_status :
    Stdlib → ℕ → ℕ → Store → Text → Text → Text → Tables → Result Session × Tables
unfolding authenticate_device cleanup
traversal_status lib now today files device_id token session_id t =
    elim (authenticate_device lib today files device_id token) [
      | err e ↦ (err e, t)
      | ok d ↦ elim (find (has_session_id session_id) (cleanup now t).sessions) [
        | none ↦ (err p2p_session_not_found, cleanup now t)
        | some x ↦
            if text_eq x.device_id d.device_id
            then (ok (safe_session x), cleanup now t)
            else (err p2p_session_not_found, cleanup now t)
      ]
    ]
