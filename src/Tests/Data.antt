-- ===== src/Tests/Data.antt =====
-- Two nodes of one chain, ten blocks apart, and a configuration that allows five.
use caddy_blockchain_health.Common.{
  ℕ, ◌+◌, true, false, [], ◌∷◌, Option, none, some, String, str_eq, if◌then◌else◌, leb,
}
use caddy_blockchain_health.Common.Int.{pos}
use caddy_blockchain_health.Types.{NodeConfig, ExternalReference, NodeHealth, Heap, new_health}
use caddy_blockchain_health.Types.Config.{Config}
use caddy_blockchain_health.Types.Protocol.{ok, err, ProtocolHandler, Handlers, Context}
use caddy_blockchain_health.Breaker.{CircuitBreaker, circuit_open}
use caddy_blockchain_health.Checker.{Env, HealthChecker}

abbrev pub node_a : NodeConfig
node_a = record {
  name = "a";
  url = "http://a:8545";
  api_url = "";
  websocket_url = "";
  type = "evm";
  chain_type = "base";
  weight = pos 100;
  metadata = ("service_type", "rpc") ∷ [];
}

abbrev pub node_b : NodeConfig
node_b = record node_a { name = "b"; url = "http://b:8545" }

abbrev pub reference : ExternalReference
reference = record { name = "ref"; url = "http://ref"; type = "evm"; enabled = true }

abbrev pub config : Config
config = record {
  nodes = node_a ∷ node_b ∷ [];
  external_references = reference ∷ [];
  environment = record {
    rpc_servers = "";
    api_servers = "";
    websocket_servers = "";
    evm_servers = "";
    evm_ws_servers = "";
    servers = "";
  };
  chain = record {
    chain_type = "";
    node_type = "";
    chain_preset = "";
    auto_discover_from_env = "";
    service_type = "";
  };
  legacy = record {
    legacy_mode = false;
    fallback_behavior = "";
    required_env_vars = "";
    optional_env_vars = "";
  };
  health_check = record {
    interval = "15s";
    timeout = "5s";
    retry_attempts = pos 3;
    retry_delay = "1s";
  };
  block_validation = record { height_threshold = pos 5; external_reference_threshold = pos 10 };
  performance = record { cache_duration = "30s"; max_concurrent_checks = pos 10 };
  failure_handling = record {
    min_healthy_nodes = pos 1;
    grace_period = "60s";
    circuit_breaker_threshold = pos 800;
  };
  monitoring = record { metrics_enabled = true; log_level = "info"; health_endpoint = "/health" };
}

abbrev pub up_at : String → String → ℕ → NodeHealth
up_at name url height = record (new_health name url 0 "") { healthy = true; block_height = height }

-- Every node answers, node a with the height 100 and the others with 90; the reference is at 104.
abbrev pub answering : ProtocolHandler
answering = record {
  check_health = λ ctx now node.
      (ok (up_at node.name node.url (if str_eq node.name "a" then 100 else 90)), now + 1);
  get_block_height = λ ctx now url. (ok 104, now + 1);
}

-- Calls until the instant 1000 fail, and later ones find the node well.
abbrev pub waking : ProtocolHandler
waking = record {
  check_health = λ ctx now node.
      if leb now 1000 then (err "down", now + 1) else (ok (up_at node.name node.url 90), now + 1);
  get_block_height = λ ctx now url. (err "down", now);
}

abbrev pub waking_handlers : Handlers
waking_handlers = record { cosmos_handler = waking; evm_handler = waking; beacon_handler = waking }

abbrev pub handlers : Handlers
handlers = record {
  cosmos_handler = answering;
  evm_handler = answering;
  beacon_handler = answering;
}

abbrev pub env : Env
env = record { config = config; handlers = handlers; parse_duration = λ text. some (pos 30) }

abbrev pub background : Context
background = record { done_at = none; reason = "" }

-- A checker at the start, at the instant 1000.
abbrev pub fresh : HealthChecker
fresh = record {
  cache = record { cache = []; duration = 30 };
  metrics = none;
  circuit_breakers = [];
  heap = [];
  clock = 1000;
}

-- The store after the probes of both nodes.
abbrev pub two_healths : Heap
two_healths = up_at "a" "http://a:8545" 100 ∷ up_at "b" "http://b:8545" 90 ∷ []

-- A checker whose cache holds both.
abbrev pub warm : HealthChecker
warm = record fresh {
  cache = record {
    cache =
        ("a", record { health = 0; expires_at = 1030 })
        ∷ ("b", record { health = 1; expires_at = 1030 })
        ∷ [];
    duration = 30;
  };
  heap = two_healths;
}

-- A breaker that opened at the instant 5.
abbrev pub opened : CircuitBreaker
opened = record {
  failure_threshold = pos 2;
  failure_count = 2;
  last_failure_time = 5;
  state = circuit_open;
}

abbrev pub host_of : String → Option String
host_of url = if str_eq url "http://a:8545" then some "a:8545" else some "b:8545"
