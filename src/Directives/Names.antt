-- ===== src/Directives/Names.antt =====
-- config.go: the directives of `parseCaddyfile`, by the names that they are printed with.
use caddy_blockchain_health.Common.{◌≡◌, refl}
use caddy_blockchain_health.Directives.Fields.{
  Directive, directive_of, TextField, NumberField, FlagField, ServerField,
}
use caddy_blockchain_health.Directives.Print.{text_name, number_name, flag_name, servers_name}

-- Each directive is known under the name it is printed with.
pub text_name_lem : (field : TextField) → directive_of (text_name field) ≡ Directive.text field
unfolding directive_of
text_name_lem TextField.check_interval = refl
text_name_lem TextField.timeout = refl
text_name_lem TextField.retry_delay = refl
text_name_lem TextField.cache_duration = refl
text_name_lem TextField.grace_period = refl
text_name_lem TextField.log_level = refl
text_name_lem TextField.health_endpoint = refl
text_name_lem TextField.chain_type = refl
text_name_lem TextField.chain_preset = refl
text_name_lem TextField.auto_discover_from_env = refl
text_name_lem TextField.service_type = refl
text_name_lem TextField.fallback_behavior = refl
text_name_lem TextField.required_env_vars = refl
text_name_lem TextField.optional_env_vars = refl

pub number_name_lem :
    (field : NumberField) → directive_of (number_name field) ≡ Directive.number field
unfolding directive_of
number_name_lem NumberField.retry_attempts = refl
number_name_lem NumberField.block_height_threshold = refl
number_name_lem NumberField.external_reference_threshold = refl
number_name_lem NumberField.max_concurrent_checks = refl
number_name_lem NumberField.min_healthy_nodes = refl

pub flag_name_lem : (field : FlagField) → directive_of (flag_name field) ≡ Directive.flag field
unfolding directive_of
flag_name_lem FlagField.metrics_enabled = refl
flag_name_lem FlagField.legacy_mode = refl

pub servers_name_lem :
    (field : ServerField) → directive_of (servers_name field) ≡ Directive.servers field
unfolding directive_of
servers_name_lem ServerField.any_servers = refl
servers_name_lem ServerField.rpc_servers = refl
servers_name_lem ServerField.api_servers = refl
servers_name_lem ServerField.websocket_servers = refl
servers_name_lem ServerField.evm_servers = refl
servers_name_lem ServerField.evm_ws_servers = refl
