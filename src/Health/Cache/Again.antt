-- ===== src/Health/Cache/Again.antt =====
-- health.py: a second check within the life of a cache entry asks nobody.
use ge360_bridge.Base.{ℕ, ◌+◌, ◌≡◌, refl, Bool, true, false, some, leb, arith}
use mathlib.Core.Path.{sym, ap, subst}
use ge360_bridge.Base.Text.{text_eq_refl}
use ge360_bridge.Base.Dict.{lookup, lookup-put}
use ge360_bridge.Core.Data.{Resource}
use ge360_bridge.Health.Check.{HealthResult, Probe, check_fresh}
use ge360_bridge.Health.Cache.{
  Cache, CacheEntry, Signature, signature, signature_eq, bool_eq, is_stale_entry, cached, cache_ttl,
  store_cache, check_and_store, check_resource,
}

bool_eq_refl : (b : Bool) → bool_eq b b ≡ true
bool_eq_refl true = refl
bool_eq_refl false = refl

signature_eq_refl : (s : Signature) → signature_eq s s ≡ true
unfolding signature_eq
signature_eq_refl s = ground (
  arith,
  text_eq_refl s.name,
  text_eq_refl s.protocol,
  text_eq_refl s.target_host,
  text_eq_refl s.health_url,
  bool_eq_refl s.enabled,
)

is_stale_entry_fresh :
    (now later : ℕ) (r : Resource) (h : HealthResult)
    → leb now (later + cache_ttl) ≡ true
    → is_stale_entry now r (record { signature = signature r; stored_at = later; result = h })
      ≡ false
unfolding is_stale_entry
is_stale_entry_fresh now later r h e = ground (arith, signature_eq_refl (signature r))

cached-found :
    (now : ℕ) (r : Resource) (cache : Cache) (e : CacheEntry)
    → lookup r.name cache ≡ some e
    → is_stale_entry now r e ≡ false
    → cached now r cache ≡ (some e.result, cache)
unfolding cached
cached-found now r cache e found fresh = rw (cached, found, fresh) refl

cached-store_cache :
    (now later : ℕ) (r : Resource) (h : HealthResult) (cache : Cache)
    → leb now (later + cache_ttl) ≡ true
    → cached now r (store_cache later r h cache) ≡ (some h, store_cache later r h cache)
unfolding store_cache
cached-store_cache now later r h cache e =
    cached-found now r _ (record { signature = signature r; stored_at = later; result = h })
      (lookup-put r.name _ cache) (is_stale_entry_fresh now later r h e)

check_resource-cached :
    (probe : Probe) (now later : ℕ) (r : Resource) (h : HealthResult) (cache : Cache)
    → cached now r cache ≡ (some h, cache)
    → check_resource probe true now later r cache ≡ (some h, cache)
unfolding check_resource
check_resource-cached probe now later r h cache e = rw e (ap (λ y. (some h, y.1)) e)

check_and_store-found :
    (probe : Probe) (later : ℕ) (r : Resource) (h : HealthResult) (cache : Cache)
    → check_fresh probe r ≡ some h
    → check_and_store probe later r cache ≡ (some h, store_cache later r h cache)
unfolding check_and_store store_cache
check_and_store-found probe later r h cache e = rw (check_and_store, e) refl

-- A check that bypasses the cache and returns a result leaves it for the next one: within five
-- seconds of the write, a check of the same resource returns that result and changes nothing,
-- however the network behaves by then.
pub check_resource_again :
    (probe probe_2 : Probe) (start later now later_2 : ℕ) (r : Resource) (h : HealthResult)
    (cache : Cache)
    → check_fresh probe r ≡ some h
    → leb now (later + cache_ttl) ≡ true
    → check_resource probe_2 true now later_2 r (check_resource probe false start later r cache).1
      ≡ (some h, (check_resource probe false start later r cache).1)
unfolding check_resource
check_resource_again probe probe_2 start later now later_2 r h cache e t =
    let stored = ap (λ x. x.1) (check_and_store-found probe later r h cache e) in
    subst (λ c. check_resource probe_2 true now later_2 r c ≡ (some h, c)) (sym stored)
      (check_resource-cached probe_2 now later_2 r h (store_cache later r h cache)
        (cached-store_cache now later r h cache t))
