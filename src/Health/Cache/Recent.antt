-- ===== src/Health/Cache/Recent.antt =====
-- health.py: every result that is returned is the true one of a recent moment.
use ge360_bridge.Base.{ℕ, ◌+◌, ◌≤◌, ◌≡◌, Option, none, some, All}
use ge360_bridge.Base.Text.{Text}
use ge360_bridge.Core.Data.{Resource}
use ge360_bridge.Health.Check.{HealthResult, Probe, check_fresh}
use ge360_bridge.Health.Cache.{Cache, CacheEntry, signature, cache_ttl}

-- The network as it is at each moment.
abbrev pub Network : Type 0
Network = ℕ → Probe

-- The entry holds what a check found that began before the entry was stored.
abbrev pub IsFound : Network → Text × CacheEntry → Type 0
IsFound network (name, e) =
    (r : Resource) × (begun : ℕ) × (begun ≤ e.stored_at)
    × (signature r ≡ e.signature)
    × (check_fresh (network begun) r ≡ some e.result)

abbrev pub IsTrueCache : Network → Cache → Type 0
IsTrueCache network = All (IsFound network)

-- The result is that of a check of the resource whose end is at most five seconds before `now`.
abbrev pub IsRecent : Network → ℕ → Resource → HealthResult → Type 0
IsRecent network now r h =
    (begun ended : ℕ) × (begun ≤ ended)
    × (now ≤ ended + cache_ttl)
    × (check_fresh (network begun) r ≡ some h)

abbrev pub IsRecentResult : Network → ℕ → Resource → Option HealthResult → Type 0
IsRecentResult network now r none = Unit
IsRecentResult network now r (some h) = IsRecent network now r h

abbrev IsSound : Network → ℕ → Resource → Option HealthResult × Cache → Type 0
IsSound network now r (found, cache) =
    IsRecentResult network now r found × IsTrueCache network cache
