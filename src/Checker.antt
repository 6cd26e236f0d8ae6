-- ===== src/Checker.antt =====
-- healthchecker.go: the `HealthChecker` of types.go and its checks. The goroutines of `CheckAllNodes`
-- are turns in any order, one node's check to a turn: nodes with different names touch different
-- entries of the cache and different circuit breakers. A maximum of concurrent checks that is not
-- negative only delays turns. Logging is left out.
pub mod Single
pub mod Names
pub mod All
pub mod Turns
use caddy_blockchain_health.Common.{
  ℕ, suc, ◌==◌, ◌-◌, ◌*◌, ◌^◌, List, [], ◌∷◌, Option, none, some, String, length, get_elem?, set,
  replicate, if◌then◌else◌,
}
use caddy_blockchain_health.Common.Int.{ℤ, pos, eqb_ℤ, ltb_ℤ}
use caddy_blockchain_health.Common.Dict.{lookup, insert}
use caddy_blockchain_health.Types.{NodeConfig, NodeHealth, Heap, Ref, new_health, alloc}
use caddy_blockchain_health.Types.Config.{Config, breaker_threshold}
use caddy_blockchain_health.Types.Protocol.{Handlers, Context}
use caddy_blockchain_health.Breaker.{
  CircuitBreaker, new_circuit_breaker, can_execute, record_success, record_failure,
}
use caddy_blockchain_health.Cache
use caddy_blockchain_health.Cache.{HealthCache}
use caddy_blockchain_health.Heights.{validate_block_heights}
use caddy_blockchain_health.Retry.{check_with_retry}
use caddy_blockchain_health.Metrics.{Metrics, update_metrics, record_check_duration}

-- What does not change while the checker runs. `parse_duration` is `time.ParseDuration`, with no value
-- for an error.
pub record Env : Type 0 where
  pub config : Config
  pub handlers : Handlers
  pub parse_duration : String → Option ℤ

-- The checker's state, with the store of health records and the clock.
pub record HealthChecker : Type 0 where
  pub cache : HealthCache
  pub metrics : Option Metrics
  pub circuit_breakers : List (String × CircuitBreaker)
  pub heap : Heap
  pub clock : ℕ

abbrev or_zero : Option ℤ → ℤ
or_zero none = pos 0
or_zero (some d) = d

-- The timeout that `NewHealthChecker` gives to the protocol handlers.
unfoldable pub handler_timeout : Env → ℤ
handler_timeout env =
    let ten_seconds = pos (10 * 10 ^ 9) in
    elim (env.parse_duration env.config.health_check.timeout) [
      | none ↦ ten_seconds
      | some timeout ↦ if eqb_ℤ timeout (pos 0) then ten_seconds else timeout
    ]

unfoldable pub new_health_checker : HealthCache → Option Metrics → ℕ → HealthChecker
new_health_checker cache metrics now = record {
  cache = cache;
  metrics = metrics;
  circuit_breakers = [];
  heap = [];
  clock = now;
}

abbrev pub breaker_or : CircuitBreaker → Option CircuitBreaker → CircuitBreaker
breaker_or fresh none = fresh
breaker_or fresh (some breaker) = breaker

-- `getCircuitBreaker`. That a new breaker is stored shows in its first write, `store_breaker`.
unfoldable pub get_circuit_breaker :
    Config → String → List (String × CircuitBreaker) → CircuitBreaker
get_circuit_breaker config node_name breakers =
    breaker_or
      (new_circuit_breaker (breaker_threshold config.failure_handling.circuit_breaker_threshold))
      (lookup node_name breakers)

-- A write through the pointer that `getCircuitBreaker` returned.
unfoldable pub store_breaker : String → CircuitBreaker → HealthChecker → HealthChecker
store_breaker node_name breaker h = record h {
  circuit_breakers = insert node_name breaker h.circuit_breakers;
}

-- A new health record, and the reference to it.
unfoldable pub alloc_health : NodeHealth → HealthChecker → HealthChecker × Ref
alloc_health health h = let (heap', ref) = alloc h.heap health in (record h { heap = heap' }, ref)

-- The part of `checkSingleNode` behind the cache and the circuit breaker.
unfoldable pub probe :
    Env → Context → NodeConfig → CircuitBreaker → HealthChecker → HealthChecker × Ref
probe env ctx node breaker h =
    let (health, now) =
      check_with_retry env.handlers env.config.health_check.retry_attempts
        (or_zero (env.parse_duration env.config.health_check.retry_delay)) ctx node h.clock in
    let breaker' = if health.healthy then record_success breaker else record_failure now breaker in
    let (h', ref) =
      alloc_health health (record (store_breaker node.name breaker' h) { clock = now }) in
    (record h' { cache = Cache.set_health now node.name ref h'.cache }, ref)

-- `checkSingleNode` after a miss in the cache.
unfoldable pub check_uncached : Env → Context → NodeConfig → HealthChecker → HealthChecker × Ref
check_uncached env ctx node h =
    let (breaker, may) =
      can_execute h.clock (get_circuit_breaker env.config node.name h.circuit_breakers) in
    let h' = store_breaker node.name breaker h in
    if may
    then probe env ctx node breaker h'
    else alloc_health (new_health node.name node.url h.clock "circuit breaker open") h'

unfoldable pub check_single_node : Env → Context → NodeConfig → HealthChecker → HealthChecker × Ref
check_single_node env ctx node h = elim (Cache.get h.clock node.name h.cache) [
  | some cached ↦ (h, cached)
  | none ↦ check_uncached env ctx node h
]

-- What happens to the goroutine of one index: it gets the semaphore, or it sees that the context is
-- done.
pub data Turn : Type 0 where
  admitted turned_away : ℕ → Turn

abbrev Results : Type 0
Results = List (Option Ref)

unfoldable pub take_turn :
    Env → Context → Turn → HealthChecker × List (Option Ref) → HealthChecker × List (Option Ref)
take_turn env ctx (admitted i) (h, results) = elim (get_elem? env.config.nodes i) [
  | none ↦ (h, results)
  | some node ↦ let (h', ref) = check_single_node env ctx node h in (h', set results i (some ref))
]
take_turn env ctx (turned_away i) (h, results) = elim (get_elem? env.config.nodes i) [
  | none ↦ (h, results)
  | some node ↦
      let (h', ref) = alloc_health (new_health node.name node.url 0 ctx.reason) h in
      (h', set results i (some ref))
]

unfoldable pub take_turns :
    Env
    → Context
    → List Turn
    → HealthChecker × List (Option Ref)
    → HealthChecker × List (Option Ref)
take_turns env ctx [] s = s
take_turns env ctx (turn ∷ turns) s = take_turns env ctx turns (take_turn env ctx turn s)

abbrev pub cons_ref : Ref → Option (List Ref) → Option (List Ref)
cons_ref ref none = none
cons_ref ref (some refs) = some (ref ∷ refs)

-- The results once all goroutines are done: none if a slot is still nil.
unfoldable pub all_filled : List (Option Ref) → Option (List Ref)
all_filled [] = some []
all_filled (none ∷ results) = none
all_filled (some ref ∷ results) = cons_ref ref (all_filled results)

-- `if h.metrics != nil { ... }`
unfoldable pub update_all : ℕ → Heap → List Ref → ℕ → Option Metrics → Option Metrics
update_all start heap results now none = none
update_all start heap results now (some m) =
    some (record_check_duration (now - start) (update_metrics heap results m))

-- The end of `CheckAllNodes`, after `wg.Wait()`.
unfoldable pub finish_check : Env → ℕ → List Ref → HealthChecker → HealthChecker
finish_check env start results h =
    let (heap', now) = validate_block_heights env.handlers env.config results (h.heap, h.clock) in
    record h { heap = heap'; clock = now; metrics = update_all start heap' results now h.metrics }

pub data Checked : Type 0 where
  no_nodes : Checked
  nil_result : Checked
  bad_semaphore : Checked
  checked : List Ref → HealthChecker → Checked

unfoldable pub finish_or_panic : Env → ℕ → HealthChecker → Option (List Ref) → Checked
finish_or_panic env start h none = nil_result
finish_or_panic env start h (some refs) = checked refs (finish_check env start refs h)

-- `CheckAllNodes`, with the turns of its goroutines. `no_nodes` is its error; `nil_result` is the panic on
-- a result that no goroutine has written, `bad_semaphore` that of `make(chan struct{}, n)` for a negative
-- n.
unfoldable pub check_all_nodes : Env → Context → List Turn → HealthChecker → Checked
unfolding finish_or_panic
check_all_nodes env ctx turns h =
    if length env.config.nodes == 0
    then no_nodes
    else if ltb_ℤ env.config.performance.max_concurrent_checks (pos 0)
    then bad_semaphore
    else let (h', results) =
        take_turns env ctx turns (h, replicate (length env.config.nodes) none) in
      finish_or_panic env h.clock h' (all_filled results)
