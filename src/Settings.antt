-- ===== src/Settings.antt =====
-- upstream.go: `setDefaults` and the checks of `validate`, on the module's configuration as it is once
-- the environment has been read. `parse_host` is `url.Parse` as in `GetUpstreams`, and
-- `parse_duration` is `time.ParseDuration`.
pub mod Ready
use caddy_blockchain_health.Common.{
  ℕ, suc, ◌+◌, ◌==◌, Bool, true, false, not, ◌&&◌, ◌||◌, List, [], ◌∷◌, map, Option, none, some,
  String, str_eq, length, if◌then◌else◌,
}
use caddy_blockchain_health.Common.Int.{ℤ, pos, ltb_ℤ, leb_ℤ, eqb_ℤ}
use caddy_blockchain_health.Types.{
  NodeConfig, NodeType, ExternalReference, node_type_cosmos, node_type_evm, node_type_beacon,
}
use caddy_blockchain_health.Types.Config.{
  Config, HealthCheckConfig, BlockValidationConfig, PerformanceConfig, FailureHandlingConfig,
  MonitoringConfig,
}

abbrev pub or_default : String → String → String
or_default value text = if str_eq text "" then value else text

abbrev pub or_number : ℤ → ℤ → ℤ
or_number value n = if eqb_ℤ n (pos 0) then value else n

abbrev pub default_weight : NodeConfig → NodeConfig
default_weight node = record node { weight = or_number (pos 100) node.weight }

unfoldable pub set_defaults : Config → Config
set_defaults config = record config {
  health_check = record {
    interval = or_default "15s" config.health_check.interval;
    timeout = or_default "5s" config.health_check.timeout;
    retry_attempts = or_number (pos 3) config.health_check.retry_attempts;
    retry_delay = or_default "1s" config.health_check.retry_delay;
  };
  block_validation = record {
    height_threshold = or_number (pos 5) config.block_validation.height_threshold;
    external_reference_threshold =
        or_number (pos 10) config.block_validation.external_reference_threshold;
  };
  performance = record {
    cache_duration = or_default "30s" config.performance.cache_duration;
    max_concurrent_checks = or_number (pos 10) config.performance.max_concurrent_checks;
  };
  failure_handling = record {
    min_healthy_nodes = or_number (pos 1) config.failure_handling.min_healthy_nodes;
    grace_period = or_default "60s" config.failure_handling.grace_period;
    circuit_breaker_threshold =
        or_number (pos 800) config.failure_handling.circuit_breaker_threshold;
  };
  monitoring = record config.monitoring {
    log_level = or_default "info" config.monitoring.log_level;
    health_endpoint = or_default "/health" config.monitoring.health_endpoint;
  };
  nodes = map default_weight config.nodes;
}

-- The errors of `validate`, with the index or the name that each one prints.
pub data Invalid : Type 0 where
  no_nodes : Invalid
  node_name_required : ℕ → Invalid
  node_url_required node_weight_not_positive node_invalid_url node_invalid_api_url :
      String → Invalid
  node_invalid_type reference_invalid_type : String → NodeType → Invalid
  reference_name_required : ℕ → Invalid
  reference_url_required reference_invalid_url : String → Invalid
  invalid_interval invalid_timeout invalid_retry_delay : Invalid
  invalid_cache_duration invalid_grace_period invalid_threshold : Invalid

abbrev pub is_known_type : NodeType → Bool
is_known_type type =
    str_eq type node_type_cosmos || (str_eq type node_type_evm || str_eq type node_type_beacon)

abbrev pub is_some {ℓ} : {A : Type ℓ} → Option A → Bool
is_some none = false
is_some (some x) = true

-- The body of the loop over the nodes.
unfoldable pub check_node : (String → Option String) → ℕ → NodeConfig → Option Invalid
check_node parse_host i node =
    if str_eq node.name ""
    then some (node_name_required i)
    else if str_eq node.url ""
    then some (node_url_required node.name)
    else if not (is_known_type node.type)
    then some (node_invalid_type node.name node.type)
    else if leb_ℤ node.weight (pos 0)
    then some (node_weight_not_positive node.name)
    else if not (is_some (parse_host node.url))
    then some (node_invalid_url node.name)
    else if not (str_eq node.api_url "") && not (is_some (parse_host node.api_url))
    then some (node_invalid_api_url node.name)
    else none

-- An error of this step, or of what follows.
abbrev pub or_next : Option Invalid → Option Invalid → Option Invalid
or_next none next = next
or_next (some e) next = some e

unfoldable pub check_nodes : (String → Option String) → ℕ → List NodeConfig → Option Invalid
unfolding check_node
check_nodes parse_host i [] = none
check_nodes parse_host i (node ∷ nodes) =
    or_next (check_node parse_host i node) (check_nodes parse_host (suc i) nodes)

unfoldable pub check_reference : (String → Option String) → ℕ → ExternalReference → Option Invalid
check_reference parse_host i ref =
    if str_eq ref.name ""
    then some (reference_name_required i)
    else if str_eq ref.url ""
    then some (reference_url_required ref.name)
    else if not (is_known_type ref.type)
    then some (reference_invalid_type ref.name ref.type)
    else if not (is_some (parse_host ref.url))
    then some (reference_invalid_url ref.name)
    else none

unfoldable pub check_references :
    (String → Option String) → ℕ → List ExternalReference → Option Invalid
unfolding check_reference
check_references parse_host i [] = none
check_references parse_host i (ref ∷ refs) =
    or_next (check_reference parse_host i ref) (check_references parse_host (suc i) refs)

-- A duration may be left out.
unfoldable pub check_duration : (String → Option ℤ) → Invalid → String → Option Invalid
check_duration parse_duration e text =
    if not (str_eq text "") && not (is_some (parse_duration text)) then some e else none

unfoldable pub check_threshold : ℤ → Option Invalid
check_threshold threshold =
    if not (eqb_ℤ threshold (pos 0)) && (leb_ℤ threshold (pos 0) || ltb_ℤ (pos 1000) threshold)
    then some invalid_threshold
    else none

-- `validate` from the check for at least one node on: its first error, if there is one.
unfoldable pub validate : (String → Option String) → (String → Option ℤ) → Config → Option Invalid
unfolding check_nodes check_references check_duration check_threshold
validate parse_host parse_duration config =
    if length config.nodes == 0
    then some no_nodes
    else or_next (check_nodes parse_host 0 config.nodes) (
        or_next (check_references parse_host 0 config.external_references) (
          or_next (check_duration parse_duration invalid_interval config.health_check.interval) (
            or_next (check_duration parse_duration invalid_timeout config.health_check.timeout) (
              or_next
                (check_duration parse_duration invalid_retry_delay config.health_check.retry_delay)
                (or_next
                  (check_duration parse_duration invalid_cache_duration
                    config.performance.cache_duration)
                  (or_next
                    (check_duration parse_duration invalid_grace_period
                      config.failure_handling.grace_period)
                    (check_threshold config.failure_handling.circuit_breaker_threshold)))))))
