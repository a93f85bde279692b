-- ===== src/Health/Online.antt =====
-- health.py: when a resource counts as online.
use ge360_bridge.Base.{
  ℕ, ◌≡◌, refl, ◌==◌, not, ◌&&◌, ◌||◌, Bool, true, false, Option, none, some, ltb, length, is_empty,
  arith, if◌then◌else◌,
}
use ge360_bridge.Base.Text.{text, text_eq, lower, has_substring}
use ge360_bridge.Core.Data.{Resource}
use ge360_bridge.Health.Check.{
  online, degraded, offline, timeout, unauthorized, bad_response, Checks, HealthResult, Connect,
  connected, connect_timeout, connect_error, HttpResponse, Exchange, answered, certificate_error,
  ssl_error, crashed, exchange_timeout, exchange_error, Probe, health_request, strip_bytes,
  max_body_bytes, is_success, is_web, looks_json, judge_json, judge_body, judge_response,
  judge_exchange, check_protocol, check_connected, check_fresh, tcp_checked, shown_ok, shown_tls,
}

-- The check returned the state ONLINE.
abbrev pub is_up : Option HealthResult → Bool
is_up none = false
is_up (some h) = elim h.state [
  | online ↦ true
  | degraded ↦ false
  | offline ↦ false
  | timeout ↦ false
  | unauthorized ↦ false
  | bad_response ↦ false
]

abbrev pub parses : Option Bool → Bool
parses none = false
parses (some b) = b

-- An answer that shows a healthy resource: a small one of status 2xx with a JSON text.
unfoldable pub is_healthy_answer : Probe → HttpResponse → Bool
is_healthy_answer probe a =
    is_success a.status
    && not (ltb max_body_bytes (length a.body))
    && not (is_empty (strip_bytes a.body))
    && (has_substring (lower a.content_type) (text "json") || looks_json (strip_bytes a.body))
    && parses (probe.json_loads (strip_bytes a.body))

unfoldable pub is_healthy_exchange : Probe → Exchange → Bool
unfolding is_healthy_answer
is_healthy_exchange probe (answered a) = is_healthy_answer probe a
is_healthy_exchange probe certificate_error = false
is_healthy_exchange probe ssl_error = false
is_healthy_exchange probe crashed = false
is_healthy_exchange probe (exchange_timeout responded) = false
is_healthy_exchange probe (exchange_error responded) = false

abbrev pub is_connected : Connect → Bool
is_connected connected = true
is_connected connect_timeout = false
is_connected connect_error = false

-- The health URL of a web resource is asked, and its answer is healthy.
unfoldable pub is_healthy_url : Probe → Resource → Bool
unfolding is_healthy_exchange
is_healthy_url probe r =
    let place = health_request probe r in
    is_web (lower r.protocol)
    && not (is_empty r.health_url)
    && is_web place.scheme
    && is_healthy_exchange probe
        (probe.request place.scheme place.host place.port place.path r.timeout_ms)

-- Switched on, connected, and either plain TCP or a healthy answer.
unfoldable pub is_healthy : Probe → Resource → Bool
unfolding is_healthy_url
is_healthy probe r =
    r.enabled
    && is_connected (probe.connect r.target_host r.target_port r.timeout_ms)
    && (text_eq (lower r.protocol) (text "tcp") || is_healthy_url probe r)

success_code : (n : ℕ) → is_success n ≡ true → (n == 401 || n == 403) ≡ false
success_code n h = ground arith

up_json :
    (r : Resource) (checks : Checks) (o : Option Bool) → is_up (judge_json r checks o) ≡ parses o
up_json r checks none = refl
up_json r checks (some true) = refl
up_json r checks (some false) = refl

up_body :
    (empty json : Bool) (z : Option HealthResult) (p : Bool) (x y : Option HealthResult)
    → is_up x ≡ false
    → is_up y ≡ false
    → is_up z ≡ p
    → is_up (if empty then x else if json then z else y) ≡ (not empty && json && p)
up_body true json z p x y hx hy hz = hx
up_body false true z p x y hx hy hz = hz
up_body false false z p x y hx hy hz = hy

judge_body_up :
    (probe : Probe) (r : Resource) (checks : Checks) (a : HttpResponse)
    → is_up (judge_body probe r checks a) ≡ (
        not (is_empty (strip_bytes a.body))
        && (has_substring (lower a.content_type) (text "json") || looks_json (strip_bytes a.body))
        && parses (probe.json_loads (strip_bytes a.body)))
unfolding judge_body
judge_body_up probe r checks a =
    let stripped = strip_bytes a.body in
    up_body (is_empty stripped)
      (has_substring (lower a.content_type) (text "json") || looks_json stripped)
      (judge_json r checks (probe.json_loads stripped)) (parses (probe.json_loads stripped)) _ _
      refl refl (up_json r checks (probe.json_loads stripped))

judge_response_up :
    (probe : Probe) (r : Resource) (checks : Checks) (a : HttpResponse)
    → is_up (judge_response probe r checks a) ≡ is_healthy_answer probe a
unfolding judge_response is_healthy_answer
judge_response_up probe r checks a =
    ground
      (arith, judge_body_up probe r (record checks { http = shown_ok (is_success a.status) }) a)

judge_exchange_up :
    (probe : Probe) (r : Resource) (secure : Bool) (e : Exchange)
    → is_up (judge_exchange probe r secure e) ≡ is_healthy_exchange probe e
unfolding judge_exchange is_healthy_exchange
judge_exchange_up probe r secure (answered a) =
    judge_response_up probe r (record tcp_checked { tls = shown_tls secure true }) a
judge_exchange_up probe r secure certificate_error = refl
judge_exchange_up probe r secure ssl_error = refl
judge_exchange_up probe r secure crashed = refl
judge_exchange_up probe r secure (exchange_timeout responded) = refl
judge_exchange_up probe r secure (exchange_error responded) = refl

check_protocol_up :
    (probe : Probe) (r : Resource)
    → is_up (check_protocol probe r)
      ≡ (text_eq (lower r.protocol) (text "tcp") || is_healthy_url probe r)
unfolding check_protocol is_healthy_url
check_protocol_up probe r =
    let place = health_request probe r in
    let answer =
      judge_exchange_up probe r (text_eq place.scheme (text "https"))
        (probe.request place.scheme place.host place.port place.path r.timeout_ms) in
    ground (arith, answer)

check_connected_up :
    (probe : Probe) (r : Resource) (c : Connect)
    → is_up (check_connected probe r c)
      ≡ (is_connected c && (text_eq (lower r.protocol) (text "tcp") || is_healthy_url probe r))
unfolding check_connected
check_connected_up probe r connected = check_protocol_up probe r
check_connected_up probe r connect_timeout = refl
check_connected_up probe r connect_error = refl

-- A check comes out as ONLINE exactly if the resource is healthy: it is switched on, the connection
-- succeeds, and it is plain TCP or its health URL gives a small answer of status 2xx with a JSON
-- text that parses.
pub check_fresh-online :
    (probe : Probe) (r : Resource) → is_up (check_fresh probe r) ≡ is_healthy probe r
unfolding check_fresh is_healthy
check_fresh-online probe r =
    ground
      (arith, check_connected_up probe r (probe.connect r.target_host r.target_port r.timeout_ms))
