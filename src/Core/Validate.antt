-- ===== src/Core/Validate.antt =====
-- core.py: the validators of names, ports, hosts, protocols, units, URLs and tags.
pub mod Names
pub mod Units
pub mod Ranges
use ge360_bridge.Base.{
  ℕ, zero, suc, ◌+◌, Bool, true, false, not, ◌&&◌, ◌||◌, Option, none, some, List, [], ◌∷◌, ◌++◌,
  any, length, is_empty, leb, ltb, ◌==◌, if◌then◌else◌,
}
use ge360_bridge.Base.Text.{
  Text, text, text_eq, contains, starts_with, ends_with, strip, lower, or_else, is_alnum,
}
use ge360_bridge.Base.Sorted.{sort_set}
use ge360_bridge.Core.Data.{
  Result, ok, err, invalid_name, invalid_port, target_not_allowed, invalid_device_type,
  invalid_expiry, invalid_protocol, invalid_icon, invalid_timeout, invalid_unit, protected_unit,
  health_url_too_long, invalid_health_url, health_url_not_local, invalid_health_port,
  health_url_port, invalid_tag, value_error, ◌>>=◌, ◌>>◌, guard, raise_if, UrlParts, Stdlib,
}
use ge360_bridge.Core.Date.{from_iso_format}

abbrev pub reserved_bridge_ports : List ℕ
reserved_bridge_ports = 8788 ∷ 8789 ∷ 8790 ∷ []

abbrev pub loopback_targets : List Text
loopback_targets = text "127.0.0.1" ∷ text "::1" ∷ text "localhost" ∷ []

abbrev pub device_types : List Text
device_types =
    text "android"
    ∷ text "linux"
    ∷ text "windows"
    ∷ text "server"
    ∷ text "tablet"
    ∷ text "unknown"
    ∷ []

abbrev pub resource_protocols : List Text
resource_protocols = text "tcp" ∷ text "http" ∷ text "https" ∷ []

-- `[A-Za-z0-9_.-]`
abbrev pub is_name_char : ℕ → Bool
is_name_char c = is_alnum c || c == b'_' || c == b'.' || c == b'-'

-- `[A-Za-z0-9_.-]{0,n}$` at the head of the rest of a text. Python's `$` also matches before a
-- line feed that ends the text.
pub name_tail : ℕ → Text → Bool
name_tail n [] = true
name_tail zero (c ∷ s) = c == 10 && is_empty s
name_tail (suc n) (c ∷ s) =
    let rest = name_tail n s in if is_name_char c then rest else c == 10 && is_empty s

-- `^[A-Za-z0-9][A-Za-z0-9_.-]{0,n}$`, by `match`
unfoldable pub matches_name : ℕ → Text → Bool
unfolding name_tail
matches_name n [] = false
matches_name n (c ∷ s) = is_alnum c && name_tail n s

-- `[A-Za-z0-9_.@:-]`
abbrev pub is_unit_char : ℕ → Bool
is_unit_char c = is_name_char c || c == b'@' || c == b':'

-- `SAFE_SYSTEMD_UNIT`, by `fullmatch`. The characters of `.service` are in the class, so the
-- pattern is a class, a length and an ending.
unfoldable pub is_safe_unit : Text → Bool
unfolding ends_with
is_safe_unit [] = false
is_safe_unit (c ∷ s) =
    is_alnum c
    && not (any (λ d. not (is_unit_char d)) s)
    && leb 8 (length s)
    && leb (length s) 134
    && ends_with s (text ".service")

unfoldable pub validate_name : Text → Result Text
validate_name name = do guard (matches_name 63 name) invalid_name; ok name

unfoldable pub validate_port : ℕ → Result ℕ
validate_port port = do guard (leb 1 port && leb port 65535) invalid_port; ok port

unfoldable pub validate_target_host : Text → Result Text
validate_target_host host = do
  let candidate = lower (strip host)
  guard (contains loopback_targets candidate) target_not_allowed
  ok candidate

unfoldable pub validate_device_type : Text → Result Text
unfolding contains strip lower
validate_device_type device_type = do
  let value = lower (strip (or_else device_type (text "unknown")))
  guard (contains device_types value) invalid_device_type
  ok value

validate_date : Text → Result (Option Text)
unfolding from_iso_format
validate_date value = elim (from_iso_format value) [
  | none ↦ err invalid_expiry
  | some d ↦ ok (some value)
]

unfoldable pub validate_expiry : Option Text → Result (Option Text)
unfolding validate_date
validate_expiry none = ok none
validate_expiry (some []) = ok none
validate_expiry (some (c ∷ s)) = validate_date (c ∷ s)

unfoldable pub validate_resource_protocol : Text → Result Text
unfolding contains strip lower
validate_resource_protocol protocol = do
  let value = lower (strip (or_else protocol (text "tcp")))
  guard (contains resource_protocols value) invalid_protocol
  ok value

unfoldable pub check_icon : Text → Result Text
check_icon [] = ok (text "server")
check_icon (c ∷ s) = do
  raise_if (ltb 64 (length (c ∷ s)) || any (λ d. ltb d 32) (c ∷ s)) invalid_icon
  ok (c ∷ s)

unfoldable pub validate_resource_icon : Text → Result Text
unfolding check_icon strip
validate_resource_icon icon = check_icon (strip (or_else icon (text "server")))

-- A timeout is a whole number of milliseconds, so rounding to three decimals changes nothing.
unfoldable pub validate_timeout : ℕ → Result ℕ
validate_timeout ms = do raise_if (ltb ms 100 || ltb 30000 ms) invalid_timeout; ok ms

-- The units that the bridge itself runs on.
unfoldable pub is_protected_unit : Text → Bool
unfolding starts_with text_eq
is_protected_unit unit =
    starts_with unit (text "ge360-bridge")
    || starts_with unit (text "wg-quick@")
    || text_eq unit (text "ge360-agent.service")

unfoldable pub check_unit : Text → Result Text
check_unit [] = ok []
check_unit (c ∷ s) = do
  guard (is_safe_unit (c ∷ s)) invalid_unit
  raise_if (is_protected_unit (c ∷ s)) protected_unit
  ok (c ∷ s)

unfoldable pub validate_systemd_unit : Text → Result Text
unfolding check_unit strip
validate_systemd_unit value = check_unit (strip value)

-- `parsed.port`, which raises `ValueError`; a port of 0 counts as none in `explicit_port or …`.
effective_port : Text → Option (Option ℕ) → Result ℕ
effective_port scheme none = err invalid_health_port
effective_port scheme (some none) = ok (if text_eq scheme (text "https") then 443 else 80)
effective_port scheme (some (some p)) =
    ok (if p == 0 then if text_eq scheme (text "https") then 443 else 80 else p)

check_url_parts : ℕ → Text → Option UrlParts → Result Text
unfolding effective_port contains lower text_eq
check_url_parts target_port health none = err value_error
check_url_parts target_port health (some u) = do
  raise_if
      (not (text_eq u.scheme (text "http") || text_eq u.scheme (text "https"))
        || is_empty u.hostname)
      invalid_health_url
  raise_if (not (is_empty u.username && is_empty u.password && is_empty u.fragment))
      invalid_health_url
  guard (contains loopback_targets (lower u.hostname)) health_url_not_local
  port ← effective_port u.scheme u.port
  guard (port == target_port) health_url_port
  ok health

unfoldable pub check_health_url : Stdlib → ℕ → Text → Result Text
unfolding check_url_parts starts_with
check_health_url lib target_port [] = ok []
check_health_url lib target_port (c ∷ s) = do
  raise_if (ltb 500 (length (c ∷ s))) health_url_too_long
  if c == b'/' then ok (c ∷ s) else check_url_parts target_port (c ∷ s) (lib.urlsplit (c ∷ s))

-- The program's parameter `target_host` is not used there.
unfoldable pub validate_health_url : Stdlib → Text → ℕ → Result Text
unfolding check_health_url strip
validate_health_url lib value target_port = check_health_url lib target_port (strip value)

-- The loop of `normalize_tags`: `out` holds the tags seen so far, in order.
unfoldable pub collect_tags : List Text → List Text → Result (List Text)
unfolding matches_name contains strip lower
collect_tags out [] = ok out
collect_tags out (raw ∷ tags) =
    let tag = lower (strip raw) in
    let skip = collect_tags out tags in
    let add = collect_tags (out ++ tag ∷ []) tags in
    if is_empty tag
    then skip
    else if not (matches_name 31 tag)
    then err invalid_tag
    else if contains out tag
    then skip
    else add

unfoldable pub normalize_tags : List Text → Result (List Text)
unfolding collect_tags sort_set
normalize_tags tags = do out ← collect_tags [] tags; ok (sort_set out)
