-- ===== src/P2p/Endpoint.antt =====
-- p2p.py: the endpoint that the peer is left with after an attempt.
use ge360_bridge.Base.{
  ℕ, zero, suc, ◌+◌, ◌≡◌, refl, sym, ap, ◌∙◌, inl, inr, Bool, true, false, not, Option, none, some,
  List, [], ◌∷◌, any, find, ltb, arith, if◌then◌else◌, both_branches, Bool-cases,
}
use ge360_bridge.Base.Text.{Text, text, text_eq, text_eq_refl}
use ge360_bridge.Core.Data.{Result, ok, err, both_results}
use ge360_bridge.P2p.Sessions.{
  Session, Status, succeeded, failed, Tables, has_session_id, safe_session, cleanup,
}
use ge360_bridge.P2p.WireGuard.{
  Host, Runtime, latest_handshake, current_endpoint, current_keepalive, set_peer_endpoint,
  trigger_wireguard, show_peer,
}
use ge360_bridge.P2p.Traversal.{
  Attempt, is_startable, threshold, or_session, update, complete, punch, punch_attempts,
  punch_interval, try_punch, conclude_success, restore_endpoint, conclude_failure, set_back,
  conclude_error, conclude, start_attempt, run_attempt, attempt_found, cleaned, attempt_traversal,
}
use ge360_bridge.P2p.Kept.{
  is_succeeded, last_set, IsThere, update_session-IsThere, candidate_set, previous_set,
}

module _ {W : Type 0} (h : Host W) where
  -- After the `try` block: the session is there, and a success has set the candidate last.
  abbrev Punched : Attempt → Result Bool × Runtime W → Type 0
  Punched a x =
      IsThere a.session.session_id x.1.tables
      × (x.0 ≡ ok true → last_set x.1 ≡ some (candidate_set a.session))

  punch-Punched :
      (n attempt : ℕ) (a : Attempt) (s : Runtime W)
      → IsThere a.session.session_id s.tables
      → Punched a (punch h n attempt a s)
  unfolding punch trigger_wireguard latest_handshake show_peer set_peer_endpoint
  punch-Punched zero attempt a s there = (there, λ e. absurd (ground arith))
  punch-Punched (suc n) attempt a s there =
      let id = a.session.session_id in
      let t1 =
        (update_session-IsThere id (λ x. record x { attempts = attempt }) s.tables (λ x. refl)
          there).2 in
      let s1 = (update h id (λ x. record x { attempts = attempt }) s).1 in
      let s2 = trigger_wireguard h a.session.vpn_ip s1 in
      let s3 = record s2 { world = h.sleep punch_interval s2.world } in
      let (latest, s4) = latest_handshake h a.session.peer_public_key s3 in
      let s5 = (update h id (λ x. record x { latest_handshake = latest }) s4).1 in
      let t2 =
        (update_session-IsThere id (λ x. record x { latest_handshake = latest }) s4.tables
          (λ x. refl) t1).2 in
      let (r, s6) = set_peer_endpoint h a.session.peer_public_key a.session.client_endpoint 25 s5 in
      both_branches (Punched a) (ltb (threshold a.baseline a.started) latest)
        (λ e.
          both_results (Punched a) r (λ u f. (t2, λ g. refl))
            (λ w f. (t2, λ g. absurd (ground arith))))
        (λ e. punch-Punched n (attempt + 1) a s5 t2)

  try_punch-Punched :
      (a : Attempt) (s : Runtime W)
      → IsThere a.session.session_id s.tables
      → Punched a (try_punch h a s)
  unfolding try_punch set_peer_endpoint
  try_punch-Punched a s there =
      let (r, s1) = set_peer_endpoint h a.session.peer_public_key a.session.client_endpoint 5 s in
      both_results (Punched a) r (λ u e. punch-Punched punch_attempts 1 a s1 there)
        (λ w e. (there, λ g. absurd (ground arith)))

  complete-IsThere :
      (x : Session) (f : ℕ → Session → Session) (s : Runtime W)
      → ((now : ℕ) (y : Session) → (f now y).session_id ≡ y.session_id)
      → IsThere x.session_id s.tables
      → (now : ℕ) × (z : Session) × ((complete h x f s).0 ≡ safe_session (f now z))
  unfolding complete
  complete-IsThere x f s same there =
      let now = h.now s.world in
      let (z, e, t) = update_session-IsThere x.session_id (f now) s.tables (same now) there in
      (now, z, ap (λ o. safe_session (or_session o x)) e)

  -- How an attempt ends: with the candidate set last, or with the previous endpoint.
  abbrev Left : Attempt → Text → Session × Runtime W → Type 0
  Left a e (y, s) =
      last_set s
      ≡ some (
          if is_succeeded y
          then candidate_set a.session
          else previous_set a.session e a.previous_keepalive)

  restore-last_set :
      (a : Attempt) (e : Text) (s : Runtime W)
      → a.previous_endpoint ≡ some e
      → (last_set (restore_endpoint h a a.previous_endpoint s).1
          ≡ some (previous_set a.session e a.previous_keepalive))
        × (last_set (set_back h a a.previous_endpoint s)
            ≡ some (previous_set a.session e a.previous_keepalive))
  unfolding restore_endpoint set_back set_peer_endpoint
  restore-last_set a e s p =
      (ap (λ o. last_set (restore_endpoint h a o s).1) p, ap (λ o. last_set (set_back h a o s)) p)

  tables_kept :
      (a : Attempt) (o : Option Text) (s : Runtime W)
      → ((restore_endpoint h a o s).1.tables ≡ s.tables) × ((set_back h a o s).tables ≡ s.tables)
  unfolding restore_endpoint set_back set_peer_endpoint
  tables_kept a none s = (refl, refl)
  tables_kept a (some e) s = (refl, refl)

  conclude-Left :
      (a : Attempt) (e : Text) (x : Result Bool × Runtime W)
      → a.previous_endpoint ≡ some e
      → Punched a x
      → Left a e (conclude h a x)
  unfolding conclude conclude_success conclude_failure conclude_error complete
  conclude-Left a e (ok true, s) p q =
      let (now, z, same) =
        complete-IsThere a.session
          (λ now x. record x {
            status = succeeded;
            error = none;
            completed_at = some now;
            endpoint_active = some a.session.client_endpoint;
          })
          s (λ now y. refl) q.0 in
      rw same (q.1 refl)
  conclude-Left a e (ok false, s) p q =
      let (restore, s') = restore_endpoint h a a.previous_endpoint s in
      let (now, z, same) =
        complete-IsThere a.session
          (λ now x. record x {
            status = failed;
            error = some (text "wireguard_handshake_not_observed");
            completed_at = some now;
            endpoint_restore = some restore;
          })
          s' (λ now y. refl)
          (ap (λ t. any (has_session_id a.session.session_id) t.sessions)
              (tables_kept a a.previous_endpoint s).0
            ∙ q.0) in
      rw same (restore-last_set a e s p).0
  conclude-Left a e (err w, s) p q =
      let (now, z, same) =
        complete-IsThere a.session
          (λ now x. record x {
            status = Status.error;
            error = some (text "BridgeError");
            completed_at = some now;
          })
          (set_back h a a.previous_endpoint s) (λ now y. refl)
          (ap (λ t. any (has_session_id a.session.session_id) t.sessions)
              (tables_kept a a.previous_endpoint s).1
            ∙ q.0) in
      rw same (restore-last_set a e s p).1

  find-IsThere :
      (id : Text) (t : Tables) {x : Session}
      → find (has_session_id id) t.sessions ≡ some x
      → IsThere x.session_id t
  find-IsThere id t {x = x} e = there t.sessions e
    where
      there :
          (xs : List Session)
          → find (has_session_id id) xs ≡ some x
          → any (has_session_id x.session_id) xs ≡ true
      there [] f = absurd (ground arith)
      there (y ∷ ys) f = elim (Bool-cases (has_session_id id y)) [
        | inl g ↦
            let found : some y ≡ some x =
              sym (ap (λ b. if b then some y else find (has_session_id id) ys) g) ∙ f in
            let same : y ≡ x = cc in
            ground (
              arith,
              text_eq_refl x.session_id,
              ap (λ (u : Session). text_eq u.session_id x.session_id) same,
            )
        | inr g ↦
            let rest : find (has_session_id id) ys ≡ some x =
              sym (ap (λ b. if b then some y else find (has_session_id id) ys) g) ∙ f in
            ground (arith, there ys rest)
      ]

  run_attempt-Left :
      (x : Session) (e : Text) (s : Runtime W)
      → IsThere x.session_id s.tables
      → (start_attempt h x s).0.previous_endpoint ≡ some e
      → Left (start_attempt h x s).0 e (run_attempt h x s)
  unfolding run_attempt start_attempt current_endpoint current_keepalive latest_handshake show_peer
  run_attempt-Left x e s there p =
      let (a, s0) = start_attempt h x s in
      let kept = (update_session-IsThere x.session_id _ s.tables (λ y. refl) there).2 in
      conclude-Left a e (try_punch h a s0) p (try_punch-Punched a s0 kept)

  -- An attempt on a session that can be started, whose peer had an endpoint: if it is left as
  -- succeeded, the last `wg set` was for the candidate, and if not, for the endpoint and the
  -- keepalive that the peer had before.
  pub attempt_traversal_endpoint :
      (id : Text) (s : Runtime W) {x y : Session} {e : Text}
      → find (has_session_id id) (cleanup (h.now s.world) s.tables).sessions ≡ some x
      → is_startable x ≡ true
      → (start_attempt h x (cleaned h s)).0.previous_endpoint ≡ some e
      → (attempt_traversal h id s).0 ≡ ok y
      → last_set (attempt_traversal h id s).1
        ≡ some (
            if is_succeeded y
            then candidate_set x
            else previous_set x e (start_attempt h x (cleaned h s)).0.previous_keepalive)
  unfolding attempt_traversal attempt_found start_attempt
  attempt_traversal_endpoint id s {x = x} {y = y} {e = e} found startable previous h' =
      let s1 = cleaned h s in
      let a = (start_attempt h x s1).0 in
      let (y2, s2) = run_attempt h x s1 in
      let run : attempt_traversal h id s ≡ (ok y2, s2) =
        ap (λ o. attempt_found h o s1) found
        ∙ ap (λ (b : Bool). if not b then (ok (safe_session x), s1) else (ok y2, s2)) startable in
      let same : y2 ≡ y = from_ok (sym (ap (λ (r : Result Session × Runtime W). r.0) run) ∙ h') in
      let left = run_attempt-Left x e s1 (find-IsThere id s1.tables found) previous in
      ap (λ (r : Result Session × Runtime W). last_set r.1) run
      ∙ (left
          ∙ ap
              (λ (z : Session).
                some (
                  if is_succeeded z
                  then candidate_set x
                  else previous_set x e a.previous_keepalive))
              same)
    where
      from_ok : {u v : Session} → ok u ≡ ok v → u ≡ v
      from_ok g = cc
