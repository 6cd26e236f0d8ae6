-- ===== src/Directives/Print.antt =====
-- A configuration written as the token tree of a block that `parseCaddyfile` reads, entry by entry.
-- The printers of numbers and flags are parameters, read back by the parser's readers.
use caddy_blockchain_health.Common.{
  ◌≤◌, ◌^◌, ◌<◌, ◌≡◌, Bool, true, List, [], ◌∷◌, ◌++◌, String, str_eq, if◌then◌else◌, map,
}
use caddy_blockchain_health.Common.Int.{neg_part, pos_part, ℤ}
use caddy_blockchain_health.Types.{NodeConfig, ExternalReference}
use caddy_blockchain_health.Types.Config.{Config}
use caddy_blockchain_health.Types.Protocol.{ok}
use caddy_blockchain_health.Settings.{is_known_type}
use caddy_blockchain_health.Cache.Keys.{HasUniqueKeys}
use caddy_blockchain_health.Caddyfile.{Readers}
use caddy_blockchain_health.Caddyfile.Reads.{Segments, nil, line}
use caddy_blockchain_health.Directives.{join}
use caddy_blockchain_health.Directives.Fields.{
  TextField, NumberField, FlagField, ServerField, set_text, set_number, set_flag, set_servers,
}
use caddy_blockchain_health.Directives.Accepted.{NodeAccepted, ReferenceAccepted}

pub record Printers : Type 0 where
  pub int : ℤ → String
  pub float : ℤ → String
  pub bool : Bool → String

-- An `int`, and a number of thousandths that a `float64` tells from its neighbours.
abbrev pub IsInt : ℤ → Type 0
IsInt n = (pos_part n < 2 ^ 63) × (neg_part n ≤ 2 ^ 63)

abbrev pub IsFloat : ℤ → Type 0
IsFloat n = (pos_part n < 2 ^ 50) × (neg_part n < 2 ^ 50)

-- What is printed is read back as it was.
pub record ReadsBack (readers : Readers) (printers : Printers) : Type 0 where
  pub int : (n : ℤ) → IsInt n → readers.atoi (printers.int n) ≡ ok n
  pub float : (n : ℤ) → IsFloat n → readers.parse_float (printers.float n) ≡ ok n
  pub bool : (b : Bool) → readers.parse_bool (printers.bool b) ≡ ok b

-- One entry of the module's block.
pub data Entry : Type 0 where
  node : NodeConfig → Entry
  reference : ExternalReference → Entry
  text : TextField → String → Entry
  number : NumberField → ℤ → Entry
  flag : FlagField → Bool → Entry
  servers : ServerField → List String → Entry
  threshold : ℤ → Entry
  node_type : String → Entry

-- What the entry stands for.
abbrev pub apply : Entry → Config → Config
apply (node n) config = record config { nodes = config.nodes ++ n ∷ [] }
apply (reference r) config = record config {
  external_references = config.external_references ++ r ∷ [];
}
apply (text field v) config = set_text field v config
apply (number field n) config = set_number field n config
apply (flag field b) config = set_flag field b config
apply (servers field vs) config = set_servers field (join vs) config
apply (threshold n) config = record config {
  failure_handling = record config.failure_handling { circuit_breaker_threshold = n };
}
apply (node_type type) config = record config { chain = record config.chain { node_type = type } }

abbrev pub apply_all : List Entry → Config → Config
apply_all [] config = config
apply_all (e ∷ es) config = apply_all es (apply e config)

-- An entry that the parser accepts.
abbrev pub IsFit : Entry → Type 0
IsFit (node n) = NodeAccepted n × HasUniqueKeys n.metadata × IsInt n.weight
IsFit (reference r) = ReferenceAccepted r
IsFit (node_type type) = is_known_type type ≡ true
IsFit (text field v) = Unit
IsFit (number field n) = IsInt n
IsFit (flag field b) = Unit
IsFit (servers field vs) = Unit
IsFit (threshold n) = IsFloat n

abbrev pub text_name : TextField → String
text_name TextField.check_interval = "check_interval"
text_name TextField.timeout = "timeout"
text_name TextField.retry_delay = "retry_delay"
text_name TextField.cache_duration = "cache_duration"
text_name TextField.grace_period = "grace_period"
text_name TextField.log_level = "log_level"
text_name TextField.health_endpoint = "health_endpoint"
text_name TextField.chain_type = "chain_type"
text_name TextField.chain_preset = "chain_preset"
text_name TextField.auto_discover_from_env = "auto_discover_from_env"
text_name TextField.service_type = "service_type"
text_name TextField.fallback_behavior = "fallback_behavior"
text_name TextField.required_env_vars = "required_env_vars"
text_name TextField.optional_env_vars = "optional_env_vars"

abbrev pub number_name : NumberField → String
number_name NumberField.retry_attempts = "retry_attempts"
number_name NumberField.block_height_threshold = "block_height_threshold"
number_name NumberField.external_reference_threshold = "external_reference_threshold"
number_name NumberField.max_concurrent_checks = "max_concurrent_checks"
number_name NumberField.min_healthy_nodes = "min_healthy_nodes"

abbrev pub flag_name : FlagField → String
flag_name FlagField.metrics_enabled = "metrics_enabled"
flag_name FlagField.legacy_mode = "legacy_mode"

abbrev pub servers_name : ServerField → String
servers_name ServerField.any_servers = "servers"
servers_name ServerField.rpc_servers = "rpc_servers"
servers_name ServerField.api_servers = "api_servers"
servers_name ServerField.websocket_servers = "websocket_servers"
servers_name ServerField.evm_servers = "evm_servers"
servers_name ServerField.evm_ws_servers = "evm_ws_servers"

-- A metadata block is left out when it has no entries.
abbrev pub metadata_lines : List (String × String) → Segments
metadata_lines [] = nil
metadata_lines ((key, v) ∷ rest) = line key (v ∷ []) nil (metadata_lines rest)

abbrev pub metadata_block_lines : List (String × String) → Segments
metadata_block_lines [] = nil
metadata_block_lines (e ∷ es) = line "metadata" [] (metadata_lines (e ∷ es)) nil

module _ (printers : Printers) where
  -- The lines of a node, from its weight on, from its chain, from its type, and all.
  abbrev pub weight_lines : NodeConfig → Segments
  weight_lines n = line "weight" (printers.int n.weight ∷ []) nil (metadata_block_lines n.metadata)

  abbrev pub chain_lines : NodeConfig → Segments
  chain_lines n = line "chain_type" (n.chain_type ∷ []) nil (weight_lines n)

  abbrev pub type_lines : NodeConfig → Segments
  type_lines n = line "type" (n.type ∷ []) nil (chain_lines n)

  abbrev pub api_lines : NodeConfig → Segments
  api_lines n =
      line "api_url" (n.api_url ∷ []) nil
        (line "websocket_url" (n.websocket_url ∷ []) nil (type_lines n))

  abbrev pub node_lines : NodeConfig → Segments
  node_lines n = line "url" (n.url ∷ []) nil (api_lines n)

  abbrev pub reference_lines : ExternalReference → Segments
  reference_lines r =
      line "name" (r.name ∷ []) nil
        (line "url" (r.url ∷ []) nil (line "enabled" (printers.bool r.enabled ∷ []) nil nil))

  abbrev pub print : List Entry → Segments
  print [] = nil
  print (node n ∷ es) = line "node" (n.name ∷ []) (node_lines n) (print es)
  print (reference r ∷ es) = line "external_reference" (r.type ∷ []) (reference_lines r) (print es)
  print (text field v ∷ es) = line (text_name field) (v ∷ []) nil (print es)
  print (number field n ∷ es) = line (number_name field) (printers.int n ∷ []) nil (print es)
  print (flag field b ∷ es) = line (flag_name field) (printers.bool b ∷ []) nil (print es)
  print (servers field vs ∷ es) = line (servers_name field) vs nil (print es)
  print (threshold n ∷ es) = line "circuit_breaker_threshold" (printers.float n ∷ []) nil (print es)
  print (node_type type ∷ es) = line "node_type" (type ∷ []) nil (print es)

-- The entries of a configuration: its nodes, its references and each setting; a node type only if
-- there is one.
abbrev pub settings_of : Config → List Entry
settings_of c =
    text TextField.check_interval c.health_check.interval
    ∷ text TextField.timeout c.health_check.timeout
    ∷ number NumberField.retry_attempts c.health_check.retry_attempts
    ∷ text TextField.retry_delay c.health_check.retry_delay
    ∷ number NumberField.block_height_threshold c.block_validation.height_threshold
    ∷ number NumberField.external_reference_threshold
        c.block_validation.external_reference_threshold
    ∷ text TextField.cache_duration c.performance.cache_duration
    ∷ number NumberField.max_concurrent_checks c.performance.max_concurrent_checks
    ∷ number NumberField.min_healthy_nodes c.failure_handling.min_healthy_nodes
    ∷ text TextField.grace_period c.failure_handling.grace_period
    ∷ threshold c.failure_handling.circuit_breaker_threshold
    ∷ flag FlagField.metrics_enabled c.monitoring.metrics_enabled
    ∷ text TextField.log_level c.monitoring.log_level
    ∷ text TextField.health_endpoint c.monitoring.health_endpoint
    ∷ servers ServerField.any_servers (c.environment.servers ∷ [])
    ∷ servers ServerField.rpc_servers (c.environment.rpc_servers ∷ [])
    ∷ servers ServerField.api_servers (c.environment.api_servers ∷ [])
    ∷ servers ServerField.websocket_servers (c.environment.websocket_servers ∷ [])
    ∷ servers ServerField.evm_servers (c.environment.evm_servers ∷ [])
    ∷ servers ServerField.evm_ws_servers (c.environment.evm_ws_servers ∷ [])
    ∷ text TextField.chain_type c.chain.chain_type
    ∷ text TextField.chain_preset c.chain.chain_preset
    ∷ text TextField.auto_discover_from_env c.chain.auto_discover_from_env
    ∷ text TextField.service_type c.chain.service_type
    ∷ flag FlagField.legacy_mode c.legacy.legacy_mode
    ∷ text TextField.fallback_behavior c.legacy.fallback_behavior
    ∷ text TextField.required_env_vars c.legacy.required_env_vars
    ∷ text TextField.optional_env_vars c.legacy.optional_env_vars
    ∷ []

abbrev pub node_type_of : String → List Entry
node_type_of type = if str_eq type "" then [] else node_type type ∷ []

abbrev pub entries_of : Config → List Entry
entries_of c =
    map node c.nodes
    ++ (map reference c.external_references ++ (node_type_of c.chain.node_type ++ settings_of c))
