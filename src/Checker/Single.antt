-- ===== src/Checker/Single.antt =====
-- The check of one node through the cache, the circuit breaker and the probe, and once more.
use caddy_blockchain_health.Common.{
  leb, ℕ, ◌+◌, ◌≡◌, arith, true, none, some, String, length, if◌then◌else◌, eq_refl, Bool-cases,
  inl, inr, leb,
}
use caddy_blockchain_health.Common.Dict.{lookup-insert}
use caddy_blockchain_health.Types.{NodeConfig, NodeHealth, Ref}
use caddy_blockchain_health.Types.Protocol.{Context}
use caddy_blockchain_health.Breaker.{CircuitBreaker, can_execute}
use caddy_blockchain_health.Cache
use caddy_blockchain_health.Retry.{check_with_retry}
use caddy_blockchain_health.Checker.{
  Env, HealthChecker, check_single_node, check_uncached, probe, alloc_health, store_breaker,
  get_circuit_breaker, or_zero,
}

pub check-cached :
    (env : Env) (ctx : Context) (node : NodeConfig) (h : HealthChecker) (ref : Ref)
    → Cache.get h.clock node.name h.cache ≡ some ref
    → check_single_node env ctx node h ≡ (h, ref)
unfolding check_single_node
check-cached env ctx node h ref e = rw (e, check_single_node)

pub check-missed :
    (env : Env) (ctx : Context) (node : NodeConfig) (h : HealthChecker)
    → Cache.get h.clock node.name h.cache ≡ none
    → check_single_node env ctx node h ≡ check_uncached env ctx node h
unfolding check_single_node
check-missed env ctx node h e = rw (e, check_single_node)

-- The circuit breaker that a check of the node meets, and the health that its probe would give.
abbrev pub breaker_of : Env → NodeConfig → HealthChecker → CircuitBreaker
breaker_of env node h = get_circuit_breaker env.config node.name h.circuit_breakers

abbrev pub probed : Env → Context → NodeConfig → HealthChecker → NodeHealth × ℕ
probed env ctx node h =
    check_with_retry env.handlers env.config.health_check.retry_attempts
      (or_zero (env.parse_duration env.config.health_check.retry_delay)) ctx node h.clock

pub uncached-probed :
    (env : Env) (ctx : Context) (node : NodeConfig) (h : HealthChecker)
    → (can_execute h.clock (breaker_of env node h)).1 ≡ true
    → check_uncached env ctx node h
      ≡ probe env ctx node
          (can_execute h.clock (breaker_of env node h)).0
          (store_breaker node.name (can_execute h.clock (breaker_of env node h)).0 h)
unfolding check_uncached
uncached-probed env ctx node h may = rw (may, check_uncached)

read_later :
    (now e : ℕ) (k : String) (ref : Ref) (cache : Cache.HealthCache)
    → Cache.get (now + e) k (Cache.set_health now k ref cache)
      ≡ (if leb e cache.duration then some ref else none)
unfolding Cache.get Cache.set_health Cache.live_health
read_later now e k ref cache =
    rw
      (
        lookup-insert k k (record { health = ref; expires_at = now + cache.duration }) cache.cache,
        eq_refl k,
      )
      (ground arith)

-- The state some time after a check.
abbrev pub after : ℕ → HealthChecker → HealthChecker
after e h = record h { clock = h.clock + e }

-- A check that has asked the node's handler, because no live cache entry was there and the circuit
-- breaker let it through, is not repeated for as long as its result is cached: a further check of the node
-- within the cache's duration after the return of the first, under any context, gives the same record
-- and changes nothing, neither the store nor the clock nor the breaker. Later than that it passes the
-- breaker again.
pub check_single_node_twice :
    (env : Env) (ctx ctx' : Context) (node : NodeConfig) (h : HealthChecker) (e : ℕ)
    → Cache.get h.clock node.name h.cache ≡ none
    → (can_execute h.clock (breaker_of env node h)).1 ≡ true
    → let r = check_single_node env ctx node h in
      check_single_node env ctx' node (after e r.0) ≡ (
        if leb e h.cache.duration
        then (after e r.0, r.1)
        else check_uncached env ctx' node (after e r.0))
unfolding probe alloc_health store_breaker
check_single_node_twice env ctx ctx' node h e miss may =
    let found = read_later (probed env ctx node h).1 e node.name (length h.heap) h.cache in
    rw (check-missed env ctx node h miss, uncached-probed env ctx node h may)
      (elim (Bool-cases (leb e h.cache.duration)) [
        | inl soon ↦ rw soon (check-cached env ctx' node _ (length h.heap) (rw soon at found))
        | inr late ↦ rw late (check-missed env ctx' node _ (rw late at found))
      ])
