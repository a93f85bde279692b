-- ===== src/P2p/Sessions.antt =====
-- p2p.py: the sessions and the attempts of each device, with their clean-up and the rate limit.
-- Times are whole milliseconds.
use ge360_bridge.Base.{
  ℕ, ◌+◌, ◌*◌, not, Bool, Option, none, some, List, [], ◌∷◌, ◌++◌, map, keep, find, any, length,
  update_first, is_empty, ltb, leb, if◌then◌else◌,
}
use ge360_bridge.Base.Text.{Text, text_eq}
use ge360_bridge.Core.Data.{Result, ok, err, p2p_rate_limited}

-- The "status" of a session.
pub data Status : Type 0 where
  prepared punching succeeded failed error : Status

pub record PeerCandidate : Type 0 where
  pub ip : Text
  pub port : ℕ
  pub local_port : Option ℕ
  pub source : Text

-- One entry of `server_candidates`.
pub record ServerCandidate : Type 0 where
  pub endpoint : Text
  pub kind : Text
  pub priority : ℕ

pub record Session : Type 0 where
  pub session_id : Text
  pub device_id : Text
  pub device_name : Text
  pub vpn_ip : Text
  pub peer_public_key : Text
  pub client_candidate : PeerCandidate
  pub client_endpoint : Text
  pub server_candidates : List ServerCandidate
  pub recommended_endpoint : Text
  pub fallback_endpoint : Text
  pub created_at : ℕ
  pub expires_at : ℕ
  pub status : Status
  pub attempts : ℕ
  pub latest_handshake : ℕ
  pub error : Option Text
  pub previous_endpoint : Option Text
  pub previous_keepalive : ℕ
  pub baseline_handshake : ℕ
  pub completed_at : Option ℕ
  pub endpoint_active : Option Text
  pub endpoint_restore : Option Text

abbrev pub session_ttl : ℕ
session_ttl = 90 * 1000

abbrev pub rate_window : ℕ
rate_window = 60 * 1000

abbrev pub rate_limit_per_device : ℕ
rate_limit_per_device = 6

-- `_DEVICE_ATTEMPTS`
abbrev pub Attempts : Type 0
Attempts = List (Text × List ℕ)

-- The two dictionaries and the mirror file, `none` where it is missing.
pub record Tables : Type 0 where
  pub sessions : List Session
  pub device_attempts : Attempts
  pub mirror : Option (List Session)

abbrev pub has_session_id : Text → Session → Bool
has_session_id session_id x = text_eq x.session_id session_id

-- `_safe_session`
abbrev pub safe_session : Session → Session
safe_session x = record x { peer_public_key = [] }

unfoldable pub insert_latest : Session → List Session → List Session
insert_latest x [] = x ∷ []
insert_latest x (y ∷ ys) =
    if leb y.created_at x.created_at then x ∷ y ∷ ys else y ∷ insert_latest x ys

-- `sorted(sessions, key=created_at, reverse=True)`
unfoldable pub latest_first : List Session → List Session
unfolding insert_latest
latest_first [] = []
latest_first (x ∷ xs) = insert_latest x (latest_first xs)

-- `_write_session_mirror_unlocked`
unfoldable pub write_mirror : Tables → Tables
unfolding latest_first
write_mirror t = record t { mirror = some (map safe_session (latest_first t.sessions)) }

abbrev pub is_fresh : ℕ → ℕ → Bool
is_fresh now at_time = ltb now (at_time + rate_window)

-- The second loop of `_cleanup`.
unfoldable pub fresh_attempts : ℕ → Attempts → Attempts
fresh_attempts now [] = []
fresh_attempts now ((device_id, values) ∷ rest) =
    let others = fresh_attempts now rest in
    let fresh = keep (is_fresh now) values in
    if is_empty fresh then others else (device_id, fresh) ∷ others

abbrev pub is_over : ℕ → Session → Bool
is_over now x = leb x.expires_at now

unfoldable pub cleanup : ℕ → Tables → Tables
unfolding fresh_attempts write_mirror
cleanup now t =
    let cleaned = record t {
      sessions = keep (λ x. not (is_over now x)) t.sessions;
      device_attempts = fresh_attempts now t.device_attempts;
    } in
    if any (is_over now) t.sessions then write_mirror cleaned else cleaned

-- `_DEVICE_ATTEMPTS.get(device_id, [])`
unfoldable pub attempts_of : Text → Attempts → List ℕ
attempts_of device_id [] = []
attempts_of device_id ((d, values) ∷ rest) =
    if text_eq d device_id then values else attempts_of device_id rest

-- The list of the device with one more time, where `setdefault` has made one if there was none.
unfoldable pub add_attempt : Text → ℕ → Attempts → Attempts
add_attempt device_id now [] = (device_id, now ∷ []) ∷ []
add_attempt device_id now ((d, values) ∷ rest) =
    if text_eq d device_id
    then (d, values ++ now ∷ []) ∷ rest
    else (d, values) ∷ add_attempt device_id now rest

unfoldable pub rate_limit : Text → ℕ → Tables → Result (Unit {0}) × Tables
unfolding cleanup attempts_of add_attempt
rate_limit device_id now t =
    let cleaned = cleanup now t in
    if leb rate_limit_per_device (length (attempts_of device_id cleaned.device_attempts))
    then (err p2p_rate_limited, cleaned)
    else (
      ok tt,
      record cleaned { device_attempts = add_attempt device_id now cleaned.device_attempts },
    )

-- `_update_session`, where the session of the id is none, and where there is one.
unfoldable pub update_found :
    Text → (Session → Session) → Tables → Option Session → Option Session × Tables
unfolding write_mirror
update_found session_id f t none = (none, t)
update_found session_id f t (some x) = (
  some (f x),
  write_mirror (record t { sessions = update_first (has_session_id session_id) f t.sessions }),
)

unfoldable pub update_session : Text → (Session → Session) → Tables → Option Session × Tables
unfolding update_found
update_session session_id f t =
    update_found session_id f t (find (has_session_id session_id) t.sessions)

-- The mirror that `list_sessions` falls back on.
unfoldable pub read_mirror : ℕ → Option (List Session) → List Session
read_mirror now none = []
read_mirror now (some items) = keep (λ x. not (is_over now x)) items

unfoldable pub list_sessions : ℕ → Tables → List Session × Tables
unfolding cleanup latest_first read_mirror
list_sessions now t =
    let cleaned = cleanup now t in
    (
      if is_empty cleaned.sessions
          then read_mirror now cleaned.mirror
          else map safe_session (latest_first cleaned.sessions),
      cleaned,
    )
