-- ===== src/Cache.antt =====
-- cache.go, with `CacheEntry` and `HealthCache` of types.go. An operation's instant is what
-- `time.Now()` answers in it. The map holds references to health records. The duration of a cache is a
-- natural number of nanoseconds: one whose `cleanup` has a ticker is at least 2.
pub mod Keys
pub mod History
pub mod Stats
use caddy_blockchain_health.Common.{
  ℕ, suc, Bool, ◌+◌, ◌-◌, ◌/◌, List, [], ◌∷◌, Option, none, some, String, ltb, if◌then◌else◌,
  length,
}
use caddy_blockchain_health.Common.Int.{ℤ, pos, negsuc}
use caddy_blockchain_health.Common.Dict.{lookup, insert, erase}
use caddy_blockchain_health.Types.{Ref}

pub record CacheEntry : Type 0 where
  pub health : Ref
  pub expires_at : ℕ

pub record HealthCache : Type 0 where
  pub cache : List (String × CacheEntry)
  pub duration : ℕ

unfoldable pub new_health_cache : ℕ → HealthCache
new_health_cache duration = record { cache = []; duration = duration }

-- `NewHealthCache` with the beginning of the goroutine that it starts: none is the panic of
-- `time.NewTicker(hc.duration / 2)` for an interval that is not positive.
unfoldable pub start_health_cache : ℤ → Option HealthCache
unfolding new_health_cache
start_health_cache (pos duration) =
    if ltb 0 (duration / 2) then some (new_health_cache duration) else none
start_health_cache (negsuc duration) = none

-- `now.After(entry.ExpiresAt)`
abbrev pub has_expired : ℕ → CacheEntry → Bool
has_expired now entry = ltb entry.expires_at now

unfoldable pub live_health : ℕ → Option CacheEntry → Option Ref
live_health now none = none
live_health now (some entry) = if has_expired now entry then none else some entry.health

unfoldable pub get : ℕ → String → HealthCache → Option Ref
unfolding live_health
get now node_name hc = live_health now (lookup node_name hc.cache)

unfoldable pub set_health : ℕ → String → Ref → HealthCache → HealthCache
set_health now node_name health hc = record hc {
  cache = insert node_name (record { health = health; expires_at = now + hc.duration }) hc.cache;
}

unfoldable pub delete : String → HealthCache → HealthCache
delete node_name hc = record hc { cache = erase node_name hc.cache }

unfoldable pub clear : HealthCache → HealthCache
clear hc = record hc { cache = [] }

unfoldable pub size : HealthCache → ℕ
size hc = length hc.cache

-- The loop of `removeExpired`.
unfoldable pub prune : ℕ → List (String × CacheEntry) → List (String × CacheEntry)
prune now [] = []
prune now ((k, entry) ∷ m) =
    let rest = prune now m in if has_expired now entry then rest else (k, entry) ∷ rest

unfoldable pub remove_expired : ℕ → HealthCache → HealthCache
remove_expired now hc = record hc { cache = prune now hc.cache }

-- The loop of `cleanup`, by the instants of its ticks.
unfoldable pub cleanup : List ℕ → HealthCache → HealthCache
unfolding remove_expired
cleanup [] hc = hc
cleanup (tick ∷ ticks) hc = cleanup ticks (remove_expired tick hc)

-- The loop of `GetStats`.
unfoldable pub count_expired : ℕ → List (String × CacheEntry) → ℕ
count_expired now [] = 0
count_expired now ((k, entry) ∷ m) =
    let rest = count_expired now m in if has_expired now entry then suc rest else rest

pub record CacheStats : Type 0 where
  pub total_entries : ℕ
  pub cache_duration : ℕ
  pub expired_entries : ℕ
  pub valid_entries : ℕ

-- `len - expired` never goes below 0, since every expired entry is one of the entries.
unfoldable pub get_stats : ℕ → HealthCache → CacheStats
get_stats now hc = record {
  total_entries = length hc.cache;
  cache_duration = hc.duration;
  expired_entries = count_expired now hc.cache;
  valid_entries = length hc.cache - count_expired now hc.cache;
}
