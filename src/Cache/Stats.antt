-- ===== src/Cache/Stats.antt =====
-- The statistics that the health endpoint shows, against the entries that `Get` would serve.
use caddy_blockchain_health.Common.{ℕ, ◌+◌, ◌≡◌, refl, arith, List, [], ◌∷◌, String, length}
use caddy_blockchain_health.Cache.{
  CacheEntry, HealthCache, prune, count_expired, get_stats, remove_expired, size,
}

length-prune :
    (now : ℕ) (m : List (String × CacheEntry))
    → length (prune now m) + count_expired now m ≡ length m
unfolding prune count_expired
length-prune now [] = omega arith
length-prune now ((k, entry) ∷ m) = ground (arith, length-prune now m)

count_expired-prune :
    (now : ℕ) (m : List (String × CacheEntry)) → count_expired now (prune now m) ≡ 0
unfolding prune count_expired
count_expired-prune now [] = refl
count_expired-prune now ((k, entry) ∷ m) = ground (arith, count_expired-prune now m)

-- The valid and the expired entries make up all of them. A sweep at the same instant leaves exactly
-- the valid ones: they become the size, and no expired entry stays.
pub stats-remove_expired :
    (now : ℕ) (hc : HealthCache)
    → ((get_stats now hc).valid_entries + (get_stats now hc).expired_entries
        ≡ (get_stats now hc).total_entries)
      × (size (remove_expired now hc) ≡ (get_stats now hc).valid_entries)
      × ((get_stats now (remove_expired now hc)).expired_entries ≡ 0)
unfolding get_stats size remove_expired
stats-remove_expired now hc = (
  omega (arith, length-prune now hc.cache),
  omega (arith, length-prune now hc.cache),
  count_expired-prune now hc.cache,
)
