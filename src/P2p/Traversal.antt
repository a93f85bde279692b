-- ===== src/P2p/Traversal.antt =====
-- p2p.py: one attempt, `attempt_traversal`. It is one step of the model: no other call changes the
-- tables while it runs.
use ge360_bridge.Base.{
  ℕ, zero, suc, ◌+◌, ◌-◌, ◌/◌, not, Bool, true, false, Option, none, some, find, ltb, if◌then◌else◌,
}
use ge360_bridge.Base.Text.{Text, text}
use ge360_bridge.Core.Data.{Result, ok, err, p2p_session_not_found}
use ge360_bridge.P2p.Sessions.{
  Status, prepared, punching, succeeded, failed, Session, has_session_id, safe_session, cleanup,
  update_session,
}
use ge360_bridge.P2p.WireGuard.{
  Host, Runtime, latest_handshake, current_endpoint, current_keepalive, set_peer_endpoint,
  trigger_wireguard,
}

abbrev pub punch_attempts : ℕ
punch_attempts = 5

abbrev pub punch_interval : ℕ
punch_interval = 800

-- `status in {"PREPARED", "PUNCHING"}`
abbrev pub is_startable : Session → Bool
is_startable x = elim x.status [ prepared ↦ true | punching ↦ true | _ ↦ false ]

-- `max(baseline, started - 1)`
abbrev pub threshold : ℕ → ℕ → ℕ
threshold baseline started = if ltb baseline (started - 1) then started - 1 else baseline

-- What an attempt knows of its session and of the peer before it.
pub record Attempt : Type 0 where
  pub session : Session
  pub previous_endpoint : Option Text
  pub previous_keepalive : ℕ
  pub baseline : ℕ
  pub started : ℕ

-- `session or default`
abbrev pub or_session : Option Session → Session → Session
or_session none x = x
or_session (some y) x = y

module _ {W : Type 0} (h : Host W) where
  abbrev pub update : Text → (Session → Session) → Runtime W → Option Session × Runtime W
  update session_id f s =
      let (o, t) = update_session session_id f s.tables in (o, record s { tables = t })

  -- The change that ends an attempt: what is returned.
  unfoldable pub complete : Session → (ℕ → Session → Session) → Runtime W → Session × Runtime W
  unfolding update_session
  complete x f s =
      let (o, s') = update x.session_id (f (h.now s.world)) s in (safe_session (or_session o x), s')

  -- The loop: whether a handshake was seen, and the error of a `wg set` that failed.
  unfoldable pub punch : ℕ → ℕ → Attempt → Runtime W → Result Bool × Runtime W
  unfolding update_session trigger_wireguard latest_handshake set_peer_endpoint
  punch zero attempt a s = (ok false, s)
  punch (suc n) attempt a s =
      let id = a.session.session_id in
      let s1 = (update id (λ x. record x { attempts = attempt }) s).1 in
      let s2 = trigger_wireguard h a.session.vpn_ip s1 in
      let s3 = record s2 { world = h.sleep punch_interval s2.world } in
      let (latest, s4) = latest_handshake h a.session.peer_public_key s3 in
      let s5 = (update id (λ x. record x { latest_handshake = latest }) s4).1 in
      let (r, s6) = set_peer_endpoint h a.session.peer_public_key a.session.client_endpoint 25 s5 in
      let rest = punch n (attempt + 1) a s5 in
      if ltb (threshold a.baseline a.started) latest
      then elim r [ ok u ↦ (ok true, s6) | err e ↦ (err e, s6) ]
      else rest

  -- The `try` block up to its end or its first exception.
  unfoldable pub try_punch : Attempt → Runtime W → Result Bool × Runtime W
  unfolding set_peer_endpoint punch
  try_punch a s =
      let (r, s1) = set_peer_endpoint h a.session.peer_public_key a.session.client_endpoint 5 s in
      let rest = punch punch_attempts 1 a s1 in elim r [ err e ↦ (err e, s1) | ok u ↦ rest ]

  unfoldable pub conclude_success : Attempt → Runtime W → Session × Runtime W
  unfolding complete
  conclude_success a s =
      complete a.session
        (λ now x. record x {
          status = succeeded;
          error = none;
          completed_at = some now;
          endpoint_active = some a.session.client_endpoint;
        })
        s

  -- Back to the endpoint that the peer had, if it had one.
  unfoldable pub restore_endpoint : Attempt → Option Text → Runtime W → Text × Runtime W
  unfolding set_peer_endpoint
  restore_endpoint a (some e) s =
      let (r, s') = set_peer_endpoint h a.session.peer_public_key e a.previous_keepalive s in
      (
        elim r [
          | ok u ↦ text "previous_endpoint_restored"
          | err w ↦ text "previous_endpoint_restore_failed"
        ],
        s',
      )
  restore_endpoint a none s =
      let (r, s') = set_peer_endpoint h a.session.peer_public_key a.session.client_endpoint 0 s in
      (text "no_previous_endpoint_candidate_left_runtime_only", s')

  unfoldable pub conclude_failure : Attempt → Runtime W → Session × Runtime W
  unfolding complete restore_endpoint
  conclude_failure a s =
      let (restore, s') = restore_endpoint a a.previous_endpoint s in
      complete a.session
        (λ now x. record x {
          status = failed;
          error = some (text "wireguard_handshake_not_observed");
          completed_at = some now;
          endpoint_restore = some restore;
        })
        s'

  -- The `except` block: the same, where nothing is done without a previous endpoint.
  unfoldable pub set_back : Attempt → Option Text → Runtime W → Runtime W
  unfolding set_peer_endpoint
  set_back a (some e) s = (set_peer_endpoint h a.session.peer_public_key e a.previous_keepalive s).1
  set_back a none s = s

  unfoldable pub conclude_error : Attempt → Runtime W → Session × Runtime W
  unfolding complete set_back
  conclude_error a s =
      complete a.session
        (λ now x. record x {
          status = Status.error;
          error = some (text "BridgeError");
          completed_at = some now;
        })
        (set_back a a.previous_endpoint s)

  unfoldable pub conclude : Attempt → Result Bool × Runtime W → Session × Runtime W
  unfolding conclude_success conclude_failure conclude_error
  conclude a (ok true, s) = conclude_success a s
  conclude a (ok false, s) = conclude_failure a s
  conclude a (err e, s) = conclude_error a s

  -- The state of the peer before the attempt, which the session notes.
  unfoldable pub start_attempt : Session → Runtime W → Attempt × Runtime W
  unfolding current_endpoint current_keepalive latest_handshake update_session
  start_attempt x s =
      let (endpoint, s1) = current_endpoint h x.peer_public_key s in
      let (keepalive, s2) = current_keepalive h x.peer_public_key s1 in
      let (baseline, s3) = latest_handshake h x.peer_public_key s2 in
      let a : Attempt = record {
        session = x;
        previous_endpoint = endpoint;
        previous_keepalive = keepalive;
        baseline = baseline;
        started = h.now s3.world / 1000;
      } in
      (
        a,
        (update x.session_id
            (λ y. record y {
              status = punching;
              previous_endpoint = endpoint;
              previous_keepalive = keepalive;
              baseline_handshake = baseline;
            })
            s3).1,
      )

  unfoldable pub run_attempt : Session → Runtime W → Session × Runtime W
  unfolding start_attempt try_punch conclude
  run_attempt x s = let (a, s') = start_attempt x s in conclude a (try_punch a s')

  -- The attempt on the session of an id, if there is one.
  unfoldable pub attempt_found : Option Session → Runtime W → Result Session × Runtime W
  unfolding run_attempt
  attempt_found none s = (err p2p_session_not_found, s)
  attempt_found (some x) s =
      let (y, s') = run_attempt x s in
      if not (is_startable x) then (ok (safe_session x), s) else (ok y, s')

  -- The runtime after the clean-up that an attempt begins with.
  abbrev pub cleaned : Runtime W → Runtime W
  cleaned s = record s { tables = cleanup (h.now s.world) s.tables }

  unfoldable pub attempt_traversal : Text → Runtime W → Result Session × Runtime W
  unfolding cleanup attempt_found
  attempt_traversal session_id s =
      attempt_found (find (has_session_id session_id) (cleaned s).tables.sessions) (cleaned s)
