-- ===== src/Directives/Fields.antt =====
-- config.go: the directives of `parseCaddyfile`, and what each one sets.
use caddy_blockchain_health.Common.{Bool, String, str_eq, if◌then◌else◌}
use caddy_blockchain_health.Common.Int.{ℤ}
use caddy_blockchain_health.Types.Config.{Config}

-- The directives with one text.
pub data TextField : Type 0 where
  check_interval timeout retry_delay cache_duration grace_period : TextField
  log_level health_endpoint chain_type chain_preset : TextField
  auto_discover_from_env service_type fallback_behavior : TextField
  required_env_vars optional_env_vars : TextField

-- Those with an integer.
pub data NumberField : Type 0 where
  retry_attempts block_height_threshold external_reference_threshold : NumberField
  max_concurrent_checks min_healthy_nodes : NumberField

-- Those with a Boolean.
pub data FlagField : Type 0 where
  metrics_enabled legacy_mode : FlagField

-- Those with a list of servers.
pub data ServerField : Type 0 where
  any_servers rpc_servers api_servers websocket_servers evm_servers evm_ws_servers : ServerField

pub data Directive : Type 0 where
  node_block reference_block threshold node_type unknown : Directive
  text : TextField → Directive
  number : NumberField → Directive
  flag : FlagField → Directive
  servers : ServerField → Directive

unfoldable pub directive_of : String → Directive
directive_of name =
    if str_eq name "node"
    then node_block
    else if str_eq name "external_reference"
    then reference_block
    else if str_eq name "check_interval"
    then text check_interval
    else if str_eq name "timeout"
    then text timeout
    else if str_eq name "retry_attempts"
    then number retry_attempts
    else if str_eq name "retry_delay"
    then text retry_delay
    else if str_eq name "block_height_threshold"
    then number block_height_threshold
    else if str_eq name "external_reference_threshold"
    then number external_reference_threshold
    else if str_eq name "cache_duration"
    then text cache_duration
    else if str_eq name "max_concurrent_checks"
    then number max_concurrent_checks
    else if str_eq name "min_healthy_nodes"
    then number min_healthy_nodes
    else if str_eq name "grace_period"
    then text grace_period
    else if str_eq name "circuit_breaker_threshold"
    then threshold
    else if str_eq name "metrics_enabled"
    then flag metrics_enabled
    else if str_eq name "log_level"
    then text log_level
    else if str_eq name "health_endpoint"
    then text health_endpoint
    else if str_eq name "servers"
    then servers any_servers
    else if str_eq name "rpc_servers"
    then servers rpc_servers
    else if str_eq name "api_servers"
    then servers api_servers
    else if str_eq name "websocket_servers"
    then servers websocket_servers
    else if str_eq name "evm_servers"
    then servers evm_servers
    else if str_eq name "evm_ws_servers"
    then servers evm_ws_servers
    else if str_eq name "chain_type"
    then text chain_type
    else if str_eq name "node_type"
    then node_type
    else if str_eq name "chain_preset"
    then text chain_preset
    else if str_eq name "auto_discover_from_env"
    then text auto_discover_from_env
    else if str_eq name "service_type"
    then text service_type
    else if str_eq name "legacy_mode"
    then flag legacy_mode
    else if str_eq name "fallback_behavior"
    then text fallback_behavior
    else if str_eq name "required_env_vars"
    then text required_env_vars
    else if str_eq name "optional_env_vars"
    then text optional_env_vars
    else unknown

unfoldable pub set_text : TextField → String → Config → Config
set_text check_interval v config = record config {
  health_check = record config.health_check { interval = v };
}
set_text timeout v config = record config {
  health_check = record config.health_check { timeout = v };
}
set_text retry_delay v config = record config {
  health_check = record config.health_check { retry_delay = v };
}
set_text cache_duration v config = record config {
  performance = record config.performance { cache_duration = v };
}
set_text grace_period v config = record config {
  failure_handling = record config.failure_handling { grace_period = v };
}
set_text log_level v config = record config {
  monitoring = record config.monitoring { log_level = v };
}
set_text health_endpoint v config = record config {
  monitoring = record config.monitoring { health_endpoint = v };
}
set_text chain_type v config = record config { chain = record config.chain { chain_type = v } }
set_text chain_preset v config = record config { chain = record config.chain { chain_preset = v } }
set_text auto_discover_from_env v config = record config {
  chain = record config.chain { auto_discover_from_env = v };
}
set_text service_type v config = record config { chain = record config.chain { service_type = v } }
set_text fallback_behavior v config = record config {
  legacy = record config.legacy { fallback_behavior = v };
}
set_text required_env_vars v config = record config {
  legacy = record config.legacy { required_env_vars = v };
}
set_text optional_env_vars v config = record config {
  legacy = record config.legacy { optional_env_vars = v };
}

unfoldable pub set_number : NumberField → ℤ → Config → Config
set_number retry_attempts n config = record config {
  health_check = record config.health_check { retry_attempts = n };
}
set_number block_height_threshold n config = record config {
  block_validation = record config.block_validation { height_threshold = n };
}
set_number external_reference_threshold n config = record config {
  block_validation = record config.block_validation { external_reference_threshold = n };
}
set_number max_concurrent_checks n config = record config {
  performance = record config.performance { max_concurrent_checks = n };
}
set_number min_healthy_nodes n config = record config {
  failure_handling = record config.failure_handling { min_healthy_nodes = n };
}

unfoldable pub set_flag : FlagField → Bool → Config → Config
set_flag metrics_enabled b config = record config {
  monitoring = record config.monitoring { metrics_enabled = b };
}
set_flag legacy_mode b config = record config { legacy = record config.legacy { legacy_mode = b } }

unfoldable pub set_servers : ServerField → String → Config → Config
set_servers any_servers v config = record config {
  environment = record config.environment { servers = v };
}
set_servers rpc_servers v config = record config {
  environment = record config.environment { rpc_servers = v };
}
set_servers api_servers v config = record config {
  environment = record config.environment { api_servers = v };
}
set_servers websocket_servers v config = record config {
  environment = record config.environment { websocket_servers = v };
}
set_servers evm_servers v config = record config {
  environment = record config.environment { evm_servers = v };
}
set_servers evm_ws_servers v config = record config {
  environment = record config.environment { evm_ws_servers = v };
}

-- The beginnings of the messages for values that do not parse.
unfoldable pub number_message : NumberField → String
number_message retry_attempts = "invalid retry_attempts: "
number_message block_height_threshold = "invalid block_height_threshold: "
number_message external_reference_threshold = "invalid external_reference_threshold: "
number_message max_concurrent_checks = "invalid max_concurrent_checks: "
number_message min_healthy_nodes = "invalid min_healthy_nodes: "

unfoldable pub flag_message : FlagField → String
flag_message metrics_enabled = "invalid metrics_enabled: "
flag_message legacy_mode = "invalid legacy_mode: "
