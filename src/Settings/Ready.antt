-- ===== src/Settings/Ready.antt =====
-- What holds of a configuration that passes the checks, once its defaults are filled in.
use caddy_blockchain_health.Common.{
  length-map, ℕ, suc, ◌<◌, ◌==◌, ◌≡◌, refl, arith, true, false, ◌||◌, List, [], ◌∷◌, map, Option,
  none, some, String, str_eq, length, if◌then◌else◌, All, Bool-cases, inl, inr,
}
use caddy_blockchain_health.Common.Int.{ℤ, pos, negsuc, eqb_ℤ, ◌≤ℤ◌, ◌<ℤ◌}
use caddy_blockchain_health.Types.{NodeConfig, ExternalReference}
use caddy_blockchain_health.Types.Config.{Config, breaker_threshold}
use caddy_blockchain_health.Settings.{
  set_defaults, default_weight, or_default, or_number, Invalid, is_known_type, is_some, check_node,
  or_next, check_nodes, check_references, check_reference, check_duration, check_threshold,
  validate, invalid_interval, invalid_timeout, invalid_retry_delay, invalid_cache_duration,
  invalid_grace_period, no_nodes,
}

pub record NodeOk (parse_host : String → Option String) (node : NodeConfig) : Type 0 where
  pub named : str_eq node.name "" ≡ false
  pub known : is_known_type node.type ≡ true
  pub weighted : pos 0 <ℤ node.weight
  pub parsed : is_some (parse_host node.url) ≡ true
  pub api_parsed : str_eq node.api_url "" || is_some (parse_host node.api_url) ≡ true

pub record ReferenceOk (parse_host : String → Option String) (ref : ExternalReference)
    : Type 0 where
  pub named : str_eq ref.name "" ≡ false
  pub given : str_eq ref.url "" ≡ false
  pub known : is_known_type ref.type ≡ true
  pub parsed : is_some (parse_host ref.url) ≡ true

-- Nodes and references that can be asked, durations that parse, of whatever sign, numbers that are not 0,
-- and a threshold of the circuit breaker of at most 10 failures.
pub record IsComplete (parse_host : String → Option String) (parse_duration : String → Option ℤ)
    (config : Config) : Type 0 where
  pub some_node : 0 < length config.nodes
  pub nodes : All (NodeOk parse_host) config.nodes
  pub references : All (ReferenceOk parse_host) config.external_references
  pub interval : is_some (parse_duration config.health_check.interval) ≡ true
  pub timeout : is_some (parse_duration config.health_check.timeout) ≡ true
  pub retry_delay : is_some (parse_duration config.health_check.retry_delay) ≡ true
  pub cache_duration : is_some (parse_duration config.performance.cache_duration) ≡ true
  pub grace_period : is_some (parse_duration config.failure_handling.grace_period) ≡ true
  pub retries : eqb_ℤ config.health_check.retry_attempts (pos 0) ≡ false
  pub concurrent : eqb_ℤ config.performance.max_concurrent_checks (pos 0) ≡ false
  pub minimum : eqb_ℤ config.failure_handling.min_healthy_nodes (pos 0) ≡ false
  pub breaker :
      (pos 0 ≤ℤ breaker_threshold config.failure_handling.circuit_breaker_threshold)
      × (breaker_threshold config.failure_handling.circuit_breaker_threshold ≤ℤ pos 10)

-- The durations that `setDefaults` writes are ones that `time.ParseDuration` reads.
pub record ReadsDefaults (parse_duration : String → Option ℤ) : Type 0 where
  pub s15 : is_some (parse_duration "15s") ≡ true
  pub s5 : is_some (parse_duration "5s") ≡ true
  pub s1 : is_some (parse_duration "1s") ≡ true
  pub s30 : is_some (parse_duration "30s") ≡ true
  pub s60 : is_some (parse_duration "60s") ≡ true

both : (a b : Option Invalid) → or_next a b ≡ none → (a ≡ none) × (b ≡ none)
both none b e = (refl, e)
both (some x) b e = absurd (cc e)

node_ok :
    (parse_host : String → Option String) (i : ℕ) (node : NodeConfig)
    → check_node parse_host i node ≡ none
    → NodeOk parse_host (default_weight node)
unfolding check_node
node_ok parse_host i node e = ground arith

nodes_ok :
    (parse_host : String → Option String) (i : ℕ) (nodes : List NodeConfig)
    → check_nodes parse_host i nodes ≡ none
    → All (NodeOk parse_host) (map default_weight nodes)
unfolding check_nodes
nodes_ok parse_host i [] e = tt
nodes_ok parse_host i (node ∷ nodes) e =
    let p = both (check_node parse_host i node) (check_nodes parse_host (suc i) nodes) e in
    (node_ok parse_host i node p.0, nodes_ok parse_host (suc i) nodes p.1)

reference_ok :
    (parse_host : String → Option String) (i : ℕ) (ref : ExternalReference)
    → check_reference parse_host i ref ≡ none
    → ReferenceOk parse_host ref
unfolding check_reference
reference_ok parse_host i ref e = ground arith

references_ok :
    (parse_host : String → Option String) (i : ℕ) (refs : List ExternalReference)
    → check_references parse_host i refs ≡ none
    → All (ReferenceOk parse_host) refs
unfolding check_references
references_ok parse_host i [] e = tt
references_ok parse_host i (ref ∷ refs) e =
    let p = both (check_reference parse_host i ref) (check_references parse_host (suc i) refs) e in
    (reference_ok parse_host i ref p.0, references_ok parse_host (suc i) refs p.1)

number_ok : (value n : ℤ) → eqb_ℤ value (pos 0) ≡ false → eqb_ℤ (or_number value n) (pos 0) ≡ false
number_ok value n h = elim (Bool-cases (eqb_ℤ n (pos 0))) [
  | inl left_out ↦ rw left_out h
  | inr given ↦ rw (given, given) refl
]

duration_ok :
    (parse_duration : String → Option ℤ) (e : Invalid) (value text : String)
    → is_some (parse_duration value) ≡ true
    → check_duration parse_duration e text ≡ none
    → is_some (parse_duration (or_default value text)) ≡ true
unfolding check_duration
duration_ok parse_duration e value text d h = elim (Bool-cases (str_eq text "")) [
  | inl left_out ↦ rw left_out d
  | inr given ↦ rw given (ground arith)
]

threshold_ok :
    (threshold : ℤ)
    → check_threshold threshold ≡ none
    → (pos 0 ≤ℤ breaker_threshold (or_number (pos 800) threshold))
      × (breaker_threshold (or_number (pos 800) threshold) ≤ℤ pos 10)
unfolding check_threshold breaker_threshold
threshold_ok (pos n) h = ground arith
threshold_ok (negsuc n) h = ground arith

unless_empty :
    (n : ℕ) (rest : Option Invalid)
    → (if n == 0 then some no_nodes else rest) ≡ none
    → (0 < n) × (rest ≡ none)
unless_empty n rest e = elim (Bool-cases (n == 0)) [
  | inl empty ↦ absurd (cc (rw empty at e))
  | inr filled ↦ (ground arith, rw filled at e)
]

-- A configuration that `validate` accepts, once `setDefaults` has filled it in, has a node; every node
-- of it has a name, a known type, a positive weight, and a URL that parses, as does its API URL if it has
-- one; every external reference has a name, a known type, and a URL that parses; the interval, the
-- timeout, the retry delay, the duration of the cache and the grace period parse, if the durations that
-- `setDefaults` writes do; the retry attempts, the maximum of concurrent checks and the minimum of healthy
-- nodes are not 0; and its circuit breakers open at no more than 10 failures. Nothing is said of the sign
-- of the durations and of these numbers.
pub validate-IsComplete :
    (parse_host : String → Option String) (parse_duration : String → Option ℤ) (config : Config)
    → ReadsDefaults parse_duration
    → validate parse_host parse_duration config ≡ none
    → IsComplete parse_host parse_duration (set_defaults config)
unfolding validate set_defaults
validate-IsComplete parse_host parse_duration config reads e =
    let (filled, all) = unless_empty (length config.nodes) _ e in
    let (ok_nodes, e1) = both (check_nodes parse_host 0 config.nodes) _ all in
    let (ok_refs, e2) = both (check_references parse_host 0 config.external_references) _ e1 in
    let (ok_interval, e3) = both _ _ e2 in
    let (ok_timeout, e4) = both _ _ e3 in
    let (ok_delay, e5) = both _ _ e4 in
    let (ok_cache, e6) = both _ _ e5 in
    let (ok_grace, ok_threshold) = both _ _ e6 in
    record {
      some_node = omega (arith, filled, length-map config.nodes default_weight);
      nodes = nodes_ok parse_host 0 config.nodes ok_nodes;
      references = references_ok parse_host 0 config.external_references ok_refs;
      retries = number_ok (pos 3) config.health_check.retry_attempts refl;
      concurrent = number_ok (pos 10) config.performance.max_concurrent_checks refl;
      minimum = number_ok (pos 1) config.failure_handling.min_healthy_nodes refl;
      interval =
          duration_ok parse_duration invalid_interval "15s" config.health_check.interval reads.s15
            ok_interval;
      timeout =
          duration_ok parse_duration invalid_timeout "5s" config.health_check.timeout reads.s5
            ok_timeout;
      retry_delay =
          duration_ok parse_duration invalid_retry_delay "1s" config.health_check.retry_delay
            reads.s1 ok_delay;
      cache_duration =
          duration_ok parse_duration invalid_cache_duration "30s" config.performance.cache_duration
            reads.s30 ok_cache;
      grace_period =
          duration_ok parse_duration invalid_grace_period "60s" config.failure_handling.grace_period
            reads.s60 ok_grace;
      breaker = threshold_ok config.failure_handling.circuit_breaker_threshold ok_threshold;
    }
