-- ===== src/Types/Config.antt =====
-- types.go: the sections of the module's configuration. A `float64` threshold is a whole number of
-- thousandths, which stands for the values with up to three decimals.
use caddy_blockchain_health.Common.{Bool, List, String, ◌*◌, ◌/◌, suc, zero}
use caddy_blockchain_health.Common.Int.{ℤ, pos, negsuc}
use caddy_blockchain_health.Types.{NodeConfig, ExternalReference}

pub record HealthCheckConfig : Type 0 where
  pub interval : String
  pub timeout : String
  pub retry_attempts : ℤ
  pub retry_delay : String

pub record BlockValidationConfig : Type 0 where
  pub height_threshold : ℤ
  pub external_reference_threshold : ℤ

pub record PerformanceConfig : Type 0 where
  pub cache_duration : String
  pub max_concurrent_checks : ℤ

pub record FailureHandlingConfig : Type 0 where
  pub min_healthy_nodes : ℤ
  pub grace_period : String
  pub circuit_breaker_threshold : ℤ  -- thousandths

pub record MonitoringConfig : Type 0 where
  pub metrics_enabled : Bool
  pub log_level : String
  pub health_endpoint : String

pub record EnvironmentConfig : Type 0 where
  pub rpc_servers : String
  pub api_servers : String
  pub websocket_servers : String
  pub evm_servers : String
  pub evm_ws_servers : String
  pub servers : String

pub record ChainConfig : Type 0 where
  pub chain_type : String
  pub node_type : String
  pub chain_preset : String
  pub auto_discover_from_env : String
  pub service_type : String

pub record LegacyConfig : Type 0 where
  pub legacy_mode : Bool
  pub fallback_behavior : String
  pub required_env_vars : String
  pub optional_env_vars : String

pub record Config : Type 0 where
  pub nodes : List NodeConfig
  pub external_references : List ExternalReference
  pub environment : EnvironmentConfig
  pub chain : ChainConfig
  pub legacy : LegacyConfig
  pub health_check : HealthCheckConfig
  pub block_validation : BlockValidationConfig
  pub performance : PerformanceConfig
  pub failure_handling : FailureHandlingConfig
  pub monitoring : MonitoringConfig

-- `int(threshold * 10)`, which drops the fraction.
unfoldable pub breaker_threshold : ℤ → ℤ
breaker_threshold (pos thousandths) = pos (thousandths * 10 / 1000)
breaker_threshold (negsuc n) = elim (suc n * 10 / 1000) [ zero ↦ pos 0 | suc k ↦ negsuc k ]
