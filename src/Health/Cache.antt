-- ===== src/Health/Cache.antt =====
-- health.py: the cache of the results and `check_resource` with it. Times are milliseconds of the
-- monotonic clock. The lock makes each look and each write one step.
pub mod Key
pub mod Recent
pub mod Again
use ge360_bridge.Base.{
  ℕ, ◌+◌, ◌==◌, not, ◌&&◌, ◌||◌, Bool, true, false, Option, none, some, List, [], ◌∷◌, ltb,
  if◌then◌else◌,
}
use ge360_bridge.Base.Text.{Text, text_eq}
use ge360_bridge.Base.Dict.{lookup, put, drop_key}
use ge360_bridge.Core.Data.{Resource}
use ge360_bridge.Health.Check.{HealthResult, Probe, check_fresh}

abbrev pub cache_ttl : ℕ
cache_ttl = 5000

pub record Signature : Type 0 where
  pub name : Text
  pub protocol : Text
  pub target_host : Text
  pub target_port : ℕ
  pub health_url : Text
  pub timeout_ms : ℕ
  pub enabled : Bool

-- `_signature`
abbrev pub signature : Resource → Signature
signature r = record {
  name = r.name;
  protocol = r.protocol;
  target_host = r.target_host;
  target_port = r.target_port;
  health_url = r.health_url;
  timeout_ms = r.timeout_ms;
  enabled = r.enabled;
}

abbrev pub bool_eq : Bool → Bool → Bool
bool_eq true b = b
bool_eq false b = not b

-- `old_sig == sig`
unfoldable pub signature_eq : Signature → Signature → Bool
unfolding text_eq
signature_eq s t =
    text_eq s.name t.name
    && text_eq s.protocol t.protocol
    && text_eq s.target_host t.target_host
    && s.target_port == t.target_port
    && text_eq s.health_url t.health_url
    && s.timeout_ms == t.timeout_ms
    && bool_eq s.enabled t.enabled

pub record CacheEntry : Type 0 where
  pub signature : Signature
  pub stored_at : ℕ
  pub result : HealthResult

abbrev pub Cache : Type 0
Cache = List (Text × CacheEntry)

-- The entry is not used: it is of another resource of the name, or too old.
unfoldable pub is_stale_entry : ℕ → Resource → CacheEntry → Bool
unfolding signature_eq
is_stale_entry now r e =
    not (signature_eq e.signature (signature r)) || ltb (e.stored_at + cache_ttl) now

-- `_cached`
unfoldable pub cached : ℕ → Resource → Cache → Option HealthResult × Cache
unfolding lookup drop_key is_stale_entry
cached now r cache = elim (lookup r.name cache) [
  | none ↦ (none, cache)
  | some e ↦
      if is_stale_entry now r e then (none, drop_key r.name cache) else (some e.result, cache)
]

-- `_store_cache`
unfoldable pub store_cache : ℕ → Resource → HealthResult → Cache → Cache
unfolding put
store_cache now r result cache =
    put r.name (record { signature = signature r; stored_at = now; result = result }) cache

-- The check after a look that found nothing. An exception leaves the cache as it was.
unfoldable pub check_and_store : Probe → ℕ → Resource → Cache → Option HealthResult × Cache
unfolding check_fresh store_cache
check_and_store probe later r cache = elim (check_fresh probe r) [
  | none ↦ (none, cache)
  | some result ↦ (some result, store_cache later r result cache)
]

-- `check_resource`: the look is at `now`, the result is stored at `later`.
unfoldable pub check_resource :
    Probe → Bool → ℕ → ℕ → Resource → Cache → Option HealthResult × Cache
unfolding cached check_and_store
check_resource probe use_cache now later r cache =
    if use_cache
    then (let (found, kept) = cached now r cache in
        elim found [
          | some result ↦ (some result, kept)
          | none ↦ check_and_store probe later r kept
        ])
    else check_and_store probe later r cache

-- `clear_cache`
abbrev pub clear_cache : Cache → Cache
clear_cache cache = []
