-- ===== src/Health/Check.antt =====
-- health.py: `check_resource` without the cache. The latencies, the texts that only describe the
-- target, and the version and cipher of TLS are left out of the result.
use ge360_bridge.Base.{
  ℕ, ◌==◌, not, ◌&&◌, ◌||◌, Bool, true, false, Option, none, some, [], ◌∷◌, ◌++◌, length, ltb, leb,
  is_empty, if◌then◌else◌,
}
use ge360_bridge.Base.Text.{Text, text, text_eq, starts_with, lower, has_substring}
use mathlib.Core.List.{reverse}
use ge360_bridge.Core.Data.{Resource}

abbrev pub max_body_bytes : ℕ
max_body_bytes = 65536

-- `HEALTH_STATES`
pub data State : Type 0 where
  online degraded offline timeout unauthorized bad_response : State

-- The "error" of a result.
pub data Problem : Type 0 where
  resource_disabled tcp_timeout tcp_unreachable unsupported_protocol : Problem
  health_url_not_configured health_scheme_invalid body_too_large : Problem
  http_status : (status : ℕ) → Problem
  empty_health_body invalid_json non_json_health_response : Problem
  tls_certificate_invalid tls_error http_timeout http_unreachable : Problem
  health_engine_error : Problem

-- What a check of the "checks" shows: whether it was performed, and its "ok".
pub data Shown : Type 0 where
  not_performed unknown good bad : Shown

pub record Checks : Type 0 where
  pub tcp : Bool
  pub http : Shown
  pub json : Shown
  pub tls : Shown

pub record HealthResult : Type 0 where
  pub name : Text
  pub state : State
  pub problem : Option Problem
  pub checks : Checks

-- How a connection attempt ends, and how a request does.
pub data Connect : Type 0 where
  connected connect_timeout connect_error : Connect

pub record HttpResponse : Type 0 where
  pub status : ℕ
  pub content_type : Text
  pub body : Text

-- `responded` says whether the headers of the answer were read before the exception; `crashed` is
-- an exception that no handler names.
pub data Exchange : Type 0 where
  answered : HttpResponse → Exchange
  certificate_error ssl_error crashed : Exchange
  exchange_timeout exchange_error : (responded : Bool) → Exchange

pub record SplitUrl : Type 0 where
  pub scheme : Text
  pub hostname : Text
  pub port : Option ℕ
  pub path : Text
  pub query : Text

-- The sockets, `urlsplit` of a URL that was accepted, and `json.loads`: whether it succeeds, `none`
-- for an exception that the handler does not name.
pub record Probe : Type 0 where
  pub connect : Text → ℕ → ℕ → Connect
  pub request : Text → Text → ℕ → Text → ℕ → Exchange
  pub urlsplit : Text → SplitUrl
  pub json_loads : Text → Option Bool

-- `bytes.strip` takes away the ASCII white space.
abbrev pub is_byte_space : ℕ → Bool
is_byte_space c = leb 9 c && leb c 13 || c == 32

unfoldable pub lstrip_bytes : Text → Text
lstrip_bytes [] = []
lstrip_bytes (c ∷ s) = let rest = lstrip_bytes s in if is_byte_space c then rest else c ∷ s

unfoldable pub strip_bytes : Text → Text
unfolding lstrip_bytes
strip_bytes s = reverse (lstrip_bytes (reverse (lstrip_bytes s)))

abbrev pub is_web : Text → Bool
is_web protocol = text_eq protocol (text "http") || text_eq protocol (text "https")

-- The place that is asked: scheme, host, port and path.
pub record Place : Type 0 where
  pub scheme : Text
  pub host : Text
  pub port : ℕ
  pub path : Text

-- `parsed.port or (443 if … else 80)`
abbrev pub port_or_default : Option ℕ → Text → ℕ
port_or_default none scheme = if text_eq scheme (text "https") then 443 else 80
port_or_default (some p) scheme =
    if p == 0 then if text_eq scheme (text "https") then 443 else 80 else p

abbrev pub path_or_slash : Text → Text
path_or_slash [] = text "/"
path_or_slash (c ∷ s) = c ∷ s

abbrev pub path_with_query : Text → Text → Text
path_with_query path [] = path
path_with_query path (c ∷ s) = path ++ (b'?' ∷ c ∷ s)

-- `_health_request`
unfoldable pub health_request : Probe → Resource → Place
unfolding starts_with lower text_eq
health_request probe r =
    if starts_with r.health_url (text "/")
    then record {
      scheme = lower r.protocol;
      host = r.target_host;
      port = r.target_port;
      path = r.health_url;
    }
    else (let u = probe.urlsplit r.health_url in
        record {
          scheme = lower u.scheme;
          host = u.hostname;
          port = port_or_default u.port u.scheme;
          path = path_with_query (path_or_slash u.path) u.query;
        })

abbrev pub no_checks : Checks
no_checks = record { tcp = false; http = not_performed; json = not_performed; tls = not_performed }

abbrev pub tcp_checked : Checks
tcp_checked = record no_checks { tcp = true }

-- `_base_result` and `_finish`, for a check that returns.
abbrev pub finish_check : Resource → Checks → State → Option Problem → Option HealthResult
finish_check r checks state problem =
    some (record { name = r.name; state = state; problem = problem; checks = checks })

abbrev pub shown_ok : Bool → Shown
shown_ok true = good
shown_ok false = bad

-- The check of TLS, when the answer came and when it did not.
abbrev pub shown_tls : (secure responded : Bool) → Shown
shown_tls false responded = not_performed
shown_tls true true = good
shown_tls true false = unknown

-- `200 <= response.status < 300`
abbrev pub is_success : ℕ → Bool
is_success status = leb 200 status && ltb status 300

-- `stripped[:1] in {b"{", b"["}`
abbrev pub looks_json : Text → Bool
looks_json [] = false
looks_json (c ∷ s) = c == b'{' || c == b'['

abbrev pub judge_json : Resource → Checks → Option Bool → Option HealthResult
judge_json r checks none = none
judge_json r checks (some true) = finish_check r (record checks { json = good }) online none
judge_json r checks (some false) =
    finish_check r (record checks { json = bad }) bad_response (some invalid_json)

-- The part after the status of the answer was accepted.
unfoldable pub judge_body : Probe → Resource → Checks → HttpResponse → Option HealthResult
unfolding strip_bytes has_substring lower
judge_body probe r checks a =
    let stripped = strip_bytes a.body in
    if is_empty stripped
    then finish_check r (record checks { json = bad }) degraded (some empty_health_body)
    else if has_substring (lower a.content_type) (text "json") || looks_json stripped
    then judge_json r checks (probe.json_loads stripped)
    else finish_check r (record checks { json = bad }) degraded (some non_json_health_response)

unfoldable pub judge_response : Probe → Resource → Checks → HttpResponse → Option HealthResult
unfolding judge_body
judge_response probe r checks a =
    let checked = record checks { http = shown_ok (is_success a.status) } in
    if ltb max_body_bytes (length a.body)
    then finish_check r (record checks { http = bad }) bad_response (some body_too_large)
    else if a.status == 401 || a.status == 403
    then finish_check r checked unauthorized (some (http_status a.status))
    else if not (is_success a.status)
    then finish_check r checked bad_response (some (http_status a.status))
    else judge_body probe r checked a

-- The `try` of the request: the answer, and the exceptions in the order of the handlers.
unfoldable pub judge_exchange : Probe → Resource → Bool → Exchange → Option HealthResult
unfolding judge_response
judge_exchange probe r secure (answered a) =
    judge_response probe r (record tcp_checked { tls = shown_tls secure true }) a
judge_exchange probe r secure certificate_error =
    finish_check r (record tcp_checked { tls = bad }) bad_response (some tls_certificate_invalid)
judge_exchange probe r secure ssl_error =
    finish_check r (record tcp_checked { tls = bad }) bad_response (some tls_error)
judge_exchange probe r secure crashed = none
judge_exchange probe r secure (exchange_timeout responded) =
    finish_check r (record tcp_checked { http = unknown; tls = shown_tls secure responded }) timeout
      (some http_timeout)
judge_exchange probe r secure (exchange_error responded) =
    finish_check r (record tcp_checked { http = unknown; tls = shown_tls secure responded }) offline
      (some http_unreachable)

-- The part after the connection was made.
unfoldable pub check_protocol : Probe → Resource → Option HealthResult
unfolding health_request judge_exchange text_eq lower
check_protocol probe r =
    if text_eq (lower r.protocol) (text "tcp")
    then finish_check r tcp_checked online none
    else if not (is_web (lower r.protocol))
    then finish_check r tcp_checked bad_response (some unsupported_protocol)
    else if is_empty r.health_url
    then finish_check r tcp_checked degraded (some health_url_not_configured)
    else (let place = health_request probe r in
        if not (is_web place.scheme)
        then finish_check r tcp_checked bad_response (some health_scheme_invalid)
        else judge_exchange probe r (text_eq place.scheme (text "https"))
            (probe.request place.scheme place.host place.port place.path r.timeout_ms))

unfoldable pub check_connected : Probe → Resource → Connect → Option HealthResult
unfolding check_protocol
check_connected probe r connected = check_protocol probe r
check_connected probe r connect_timeout = finish_check r no_checks timeout (some tcp_timeout)
check_connected probe r connect_error = finish_check r no_checks offline (some tcp_unreachable)

-- `check_resource` after the look in the cache, without the writes to it; `none` is an exception.
unfoldable pub check_fresh : Probe → Resource → Option HealthResult
unfolding check_connected
check_fresh probe r =
    if not r.enabled
    then finish_check r no_checks offline (some resource_disabled)
    else check_connected probe r (probe.connect r.target_host r.target_port r.timeout_ms)
