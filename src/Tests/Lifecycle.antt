-- ===== src/Tests/Lifecycle.antt =====
-- The environment, the global metrics and the life cycle of a module at concrete inputs.
use caddy_blockchain_health.Common.{
  ◌+◌, ℕ, ◌≡◌, refl, List, [], ◌∷◌, ◌++◌, Option, none, some, String, str_eq, if◌then◌else◌, All,
  Bool-cases, inl, inr, ◌==◌, map, ◌<◌, length, arith,
}
use caddy_blockchain_health.Common.Int.{ℤ, pos, negsuc}
use caddy_blockchain_health.Types.{NodeConfig}
use caddy_blockchain_health.Types.Config.{Config}
use caddy_blockchain_health.Types.Protocol.{ok, err}
use caddy_blockchain_health.Settings.{set_defaults, default_weight}
use caddy_blockchain_health.Environment.{
  process_environment_configuration, auto_discover_from_environment, env_vars, discover,
  parse_servers_from_env, add_servers, process_server_lists, add_lists, server_configs,
  parse_evm_web_socket_servers, preset_step, references_step,
}
use caddy_blockchain_health.Environment.Nodes.{
  Host, create_node_from_url, node_at, auto_detect_service_type, generate_node_name,
  generate_web_socket_url, web_socket_scheme, generate_api_url, actual_node_type,
}
use caddy_blockchain_health.Environment.Adds.{SplitsFields, IsGenerated}
use caddy_blockchain_health.Environment.Provides.{
  environment_texts, Provides, process_environment-Provides,
}
use caddy_blockchain_health.Environment.Chains.{map_chain_type_to_protocol}
use caddy_blockchain_health.Registry.{
  acquire_global_metrics, register_with, new_collectors, register_one, register_counter,
  register_gauge, register_histogram, register_counter_vec, register_gauge_vec, Collector,
  registered, Prometheus, no_globals,
}
use caddy_blockchain_health.Registry.Shared.{IsSound, acquire, release, run, run-IsSound}
use caddy_blockchain_health.Lifecycle
use caddy_blockchain_health.Lifecycle.{
  config_after, Module, absent, provision, preserved, fallback, provision_config, internal_config,
  provision_metrics, background_health_check, panicked, tick, stop,
}
use caddy_blockchain_health.Lifecycle.Start.{
  provision-config, provision-config_lem, provision-background_panics,
}
use caddy_blockchain_health.Lifecycle.Stop.{Balances, provision-cleanup, validate-nodes}
use caddy_blockchain_health.Lifecycle.Panics.{provision-check_panics}
use caddy_blockchain_health.Checker.{check_all_nodes, bad_semaphore, admitted}
use caddy_blockchain_health.Tests.Data.{config, handlers, background, fresh}

-- URLs by their scheme and text; "bad" is none.
abbrev fields_in : String → List String
fields_in text =
    if str_eq text ""
    then []
    else if str_eq text "http://a http://b"
    then "http://a" ∷ "http://b" ∷ []
    else text ∷ []

abbrev url_host : Host (String × String)
url_host = record {
  parse = λ text. if str_eq text "bad" then err "no URL" else ok ("http", text);
  scheme = λ url. url.0;
  with_scheme = λ scheme url. (scheme, url.1);
  with_path = λ path url. url;
  text = λ url. url.1;
  hostname = λ url. url.1;
  fields = fields_in;
  getenv = λ var. if str_eq var "NET_RPC_SERVERS" then "http://c" else "";
  digits = λ n. if n == 0 then "0" else "1";
}

fields_in_lem : SplitsFields url_host
fields_in_lem text = elim (Bool-cases (str_eq text "")) [
  | inl empty ↦ rw empty tt
  | inr full ↦ elim (Bool-cases (str_eq text "http://a http://b")) [
    | inl two ↦ rw (full, two) (refl, (refl, tt))
    | inr one ↦ rw (full, one) (full, tt)
  ]
]

-- Two lists of servers, of which the second has none that parses, and a variable.
abbrev from_environment : Config
from_environment = record config {
  environment = record config.environment {
    rpc_servers = "http://a http://b";
    evm_servers = "bad";
  };
  chain = record config.chain { auto_discover_from_env = "NET"; chain_preset = "ethereum" };
}

abbrev as_listed : List (String × String) → List (String × String)
as_listed vars = vars

process_environment-Provides_example :
    Provides url_host from_environment
      (environment_texts url_host as_listed from_environment)
      (process_environment_configuration url_host as_listed from_environment)
process_environment-Provides_example =
    process_environment-Provides url_host as_listed from_environment fields_in_lem (inl refl)

-- Registries that accept every collector.
abbrev accepting : Prometheus ℕ (List Collector)
accepting = record {
  register = λ reg c w. (registered, c ∷ w);
  unregister = λ reg c w. w;
  default_registerer = 0;
  same = ◌==◌;
}

run-IsSound_example :
    IsSound accepting
      (run accepting (acquire none ∷ acquire (some 1) ∷ release ∷ []) (no_globals, [])).0
run-IsSound_example = run-IsSound accepting (acquire none ∷ acquire (some 1) ∷ release ∷ []) []

-- A module that is not provisioned; "soon" is no duration, and "0s" is none that a ticker takes.
abbrev idle : Module
idle = record {
  fields = from_environment;
  config = none;
  cache_duration = none;
  metrics = none;
  configured_nodes = none;
  shutdown = absent;
}

abbrev duration_of : String → Option ℤ
duration_of text =
    if str_eq text "soon" then none else if str_eq text "0s" then some (pos 0) else some (pos 30)

provisioned : (provision accepting url_host as_listed duration_of none idle no_globals []).0 ≡ none
unfolding provision preserved fallback provision_config internal_config provision_metrics
    set_defaults process_environment_configuration auto_discover_from_environment env_vars discover
    parse_servers_from_env add_servers create_node_from_url node_at auto_detect_service_type
    generate_node_name generate_web_socket_url web_socket_scheme generate_api_url actual_node_type
    process_server_lists add_lists server_configs parse_evm_web_socket_servers preset_step
    references_step map_chain_type_to_protocol acquire_global_metrics register_with new_collectors
    register_one register_counter register_gauge register_histogram register_counter_vec
    register_gauge_vec
provisioned = refl

provision-cleanup_example :
    let r = provision accepting url_host as_listed duration_of none idle no_globals [] in
    Balances 0 r.1.0 r.1.1.0
provision-cleanup_example =
    provision-cleanup accepting url_host as_listed duration_of none idle no_globals [] refl refl

validate-nodes_example :
    let fields =
      (Lifecycle.validate accepting url_host as_listed duration_of
        (λ text. some text)
        idle).1.fields in
    (fields.nodes ≡ config.nodes) × (fields.external_references ≡ config.external_references)
validate-nodes_example =
    validate-nodes accepting url_host as_listed duration_of (λ text. some text) idle fields_in_lem
      (inl refl)

-- The same module, with an interval that is no duration, no time in the cache, and a negative maximum of
-- concurrent checks.
abbrev hasty : Module
hasty = record idle {
  fields = record from_environment {
    health_check = record from_environment.health_check { interval = "soon" };
    performance = record { cache_duration = "0s"; max_concurrent_checks = negsuc 0 };
  };
}

hasty_provisioned :
    (provision accepting url_host as_listed duration_of none hasty no_globals []).0 ≡ none
unfolding provision preserved fallback provision_config internal_config provision_metrics
    set_defaults process_environment_configuration auto_discover_from_environment env_vars discover
    parse_servers_from_env add_servers create_node_from_url node_at auto_detect_service_type
    generate_node_name generate_web_socket_url web_socket_scheme generate_api_url actual_node_type
    process_server_lists add_lists server_configs parse_evm_web_socket_servers preset_step
    references_step map_chain_type_to_protocol acquire_global_metrics register_with new_collectors
    register_one register_counter register_gauge register_histogram register_counter_vec
    register_gauge_vec
hasty_provisioned = refl

provision-config_example :
    (c : Config) × ((provision accepting url_host as_listed duration_of none idle no_globals
        []).1.0.config
      ≡ some c)
    × ((new : List NodeConfig) × (c.nodes
          ≡ map default_weight ((preserved none from_environment).nodes ++ new))
        × All IsGenerated new)
    × (c.external_references ≡ (preserved none from_environment).external_references)
    × (c ≡ record (set_defaults (preserved none from_environment)) {
      nodes = c.nodes;
      external_references = c.external_references;
    })
provision-config_example =
    provision-config accepting url_host as_listed duration_of none idle no_globals [] fields_in_lem
      (unfold preserved in inl refl) provisioned

-- The configuration that it starts with.
abbrev hasty_config : Config
hasty_config =
    internal_config (preserved none hasty.fields)
      (fallback
        (process_environment_configuration url_host as_listed (preserved none hasty.fields))).1

provision-background_panics_example :
    background_health_check duration_of (λ n. n + 1) hasty_config (tick ∷ stop ∷ []) 0 ≡ panicked
provision-background_panics_example =
    provision-background_panics accepting url_host as_listed duration_of none hasty no_globals []
      hasty_config (λ n. n + 1) (tick ∷ stop ∷ []) 0 hasty_provisioned
      (provision-config_lem accepting url_host as_listed duration_of none hasty no_globals []
        hasty_provisioned).1
      refl refl

hasty_nodes : 0 < length hasty_config.nodes
unfolding preserved fallback internal_config set_defaults process_environment_configuration
    auto_discover_from_environment env_vars discover parse_servers_from_env add_servers
    create_node_from_url node_at auto_detect_service_type generate_node_name generate_web_socket_url
    web_socket_scheme generate_api_url actual_node_type process_server_lists add_lists
    server_configs parse_evm_web_socket_servers preset_step references_step
    map_chain_type_to_protocol
hasty_nodes = omega arith

provision-check_panics_example :
    check_all_nodes
      (record { config = hasty_config; handlers = handlers; parse_duration = duration_of })
      background
      (admitted 0 ∷ [])
      fresh
    ≡ bad_semaphore
provision-check_panics_example =
    provision-check_panics accepting url_host as_listed duration_of none hasty no_globals []
      hasty_config handlers background (admitted 0 ∷ []) fresh hasty_provisioned
      (provision-config_lem accepting url_host as_listed duration_of none hasty no_globals []
        hasty_provisioned).1
      hasty_nodes refl

-- One server for each of two lists: the nodes have the same name, and both are Cosmos nodes.
abbrev two_lists : Config
two_lists = record config {
  nodes = [];
  environment = record config.environment { rpc_servers = "http://a"; evm_servers = "http://b" };
}

same_names :
    map {B = String × String}
      (λ n. (n.name, n.type))
      (config_after (process_server_lists url_host two_lists)).nodes
    ≡ ("cosmos-rpc-0", "cosmos") ∷ ("cosmos-rpc-0", "cosmos") ∷ []
unfolding process_server_lists add_lists server_configs parse_servers_from_env add_servers
    create_node_from_url node_at auto_detect_service_type generate_node_name actual_node_type
    map_chain_type_to_protocol
same_names = refl
