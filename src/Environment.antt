-- ===== src/Environment.antt =====
-- config.go: nodes from the environment, over the parameter `Host`. The fields of the module are a
-- `Config`, which a step that fails has changed as far as it came.
pub mod Chains
pub mod Nodes
pub mod Types
pub mod Adds
pub mod Servers
pub mod Provides
use Prim.Native.String.{◌++◌ as then_text}
use caddy_blockchain_health.Common.{
  ℕ, suc, Bool, true, false, not, ◌&&◌, ◌||◌, List, [], ◌∷◌, ◌++◌, Option, none, some, String,
  str_eq, if◌then◌else◌, map, length, ◌==◌, get_elem?,
}
use caddy_blockchain_health.Common.Int.{ℤ, pos, ltb_ℤ}
use caddy_blockchain_health.Common.Dict.{lookup, insert}
use caddy_blockchain_health.Types.{NodeConfig, ExternalReference, or_empty}
use caddy_blockchain_health.Types.Config.{Config}
use caddy_blockchain_health.Types.Protocol.{Reply, ok, err}
use caddy_blockchain_health.Environment.Chains.{map_chain_type_to_protocol, apply_chain_preset}
use caddy_blockchain_health.Environment.Nodes.{
  Host, or_text, auto_detect_service_type, generate_node_name, web_socket_scheme,
  generate_web_socket_url, generate_api_url, actual_node_type, node_at, create_node_from_url,
}

-- How a step that changes the module ends: it is done, or it failed, and left the fields changed.
pub data Step : Type 0 where
  done : Config → Step
  broke : String → Config → Step

infixl 5 ◌▷◌
abbrev pub ◌▷◌ : Step → (Config → Step) → Step
done c ▷ k = k c
broke e c ▷ k = broke e c

-- `fmt.Errorf("...: %w", err)`
abbrev pub blame : String → Step → Step
blame message (done c) = done c
blame message (broke e c) = broke (then_text message e) c

abbrev pub add_node : NodeConfig → Config → Config
add_node node c = record c { nodes = c.nodes ++ node ∷ [] }

-- `generateExternalReferences`
unfoldable pub generate_external_references : Config → Config
generate_external_references c = record c {
  external_references =
      map (λ ref. if str_eq ref.url "" then record ref { enabled = false } else ref)
        c.external_references;
}

unfoldable pub preset_step : Config → Step
preset_step c =
    if str_eq c.chain.chain_preset ""
    then done c
    else elim (apply_chain_preset c.chain.chain_preset c) [
      | none ↦
          broke (then_text "applying chain preset: unknown chain preset: " c.chain.chain_preset) c
      | some c ↦ done c
    ]

unfoldable pub references_step : Config → Step
unfolding generate_external_references
references_step c =
    if length c.external_references == 0
      && ltb_ℤ (pos 0) c.block_validation.external_reference_threshold
    then done (generate_external_references c)
    else done c

module _ {Url : Type 0} (host : Host Url) where
  -- The loop of `parseServersFromEnv`, from an index on.
  unfoldable pub add_servers : String → ℕ → List String → Config → Step
  unfolding create_node_from_url
  add_servers service index [] c = done c
  add_servers service index (text ∷ texts) c =
      elim (create_node_from_url host c text service index) [
        | err e ↦ broke (then_text "creating node from URL " (then_text text (then_text ": " e))) c
        | ok node ↦ add_servers service (suc index) texts (add_node node c)
      ]

  unfoldable pub parse_servers_from_env : String → String → Config → Step
  unfolding add_servers
  parse_servers_from_env servers service c =
      if str_eq servers "" then done c else add_servers service 0 (host.fields servers) c

  -- The variables that `autoDiscoverFromEnvironment` looks at, and its loop over them.
  unfoldable pub env_vars : String → List (String × String)
  env_vars prefix =
      (then_text prefix "_RPC_SERVERS", "rpc")
      ∷ (then_text prefix "_API_SERVERS", "api")
      ∷ (then_text prefix "_WS_SERVERS", "websocket")
      ∷ (then_text prefix "_SERVERS", "generic")
      ∷ []

  unfoldable pub discover : List (String × String) → Config → Step
  unfolding parse_servers_from_env
  discover [] c = done c
  discover ((var, service) ∷ vars) c =
      (if str_eq (host.getenv var) ""
        then done c
        else blame (then_text "parsing " (then_text var ": "))
            (parse_servers_from_env (host.getenv var) service c))
      ▷ discover vars

  -- `range` takes the map in any order, which is the argument `order`.
  unfoldable pub auto_discover_from_environment :
      (List (String × String) → List (String × String)) → String → Config → Step
  unfolding env_vars discover
  auto_discover_from_environment order prefix = discover (order (env_vars prefix))

  -- The loop of `processServerLists`.
  unfoldable pub add_lists : List (String × String) → Config → Step
  unfolding parse_servers_from_env
  add_lists [] c = done c
  add_lists ((servers, service) ∷ lists) c =
      (if str_eq servers ""
        then done c
        else blame (then_text "parsing " (then_text service " servers: "))
            (parse_servers_from_env servers service c))
      ▷ add_lists lists

  unfoldable pub server_configs : Config → List (String × String)
  server_configs c =
      (c.environment.servers, "generic")
      ∷ (c.environment.rpc_servers, "rpc")
      ∷ (c.environment.api_servers, "api")
      ∷ (c.environment.websocket_servers, "websocket")
      ∷ (c.environment.evm_servers, "rpc")
      ∷ []

  -- The HTTP URLs of the EVM servers by host, a later one in place of an earlier one.
  unfoldable pub http_urls : List String → List (String × String) → List (String × String)
  http_urls [] by_host = by_host
  http_urls (text ∷ texts) by_host = elim (host.parse text) [
    | err e ↦ http_urls texts by_host
    | ok url ↦ http_urls texts (insert (host.hostname url) text by_host)
  ]

  unfoldable pub by_hostname : List (String × String) → String → String
  by_hostname by_host text = elim (host.parse text) [
    | err e ↦ ""
    | ok url ↦ or_empty (lookup (host.hostname url) by_host)
  ]

  -- The HTTP URL of a WebSocket server: by its host, or else by its place in a list as long.
  unfoldable pub correlated : List String → List String → ℕ → String → String
  unfolding http_urls by_hostname
  correlated sockets https index text =
      let found = by_hostname (http_urls https []) text in
      if str_eq found "" && length sockets == length https
      then or_empty (get_elem? https index)
      else found

  abbrev with_http_url : String → NodeConfig → NodeConfig
  with_http_url url node =
      if str_eq url "" then node else record node { metadata = insert "http_url" url node.metadata }

  -- The loop of `parseEVMWebSocketServers`, from an index on.
  unfoldable pub add_web_sockets : List String → List String → ℕ → List String → Config → Step
  unfolding create_node_from_url correlated
  add_web_sockets sockets https index [] c = done c
  add_web_sockets sockets https index (text ∷ texts) c =
      elim (create_node_from_url host c text "websocket" index) [
        | err e ↦
            broke
              (then_text "creating WebSocket node from URL " (then_text text (then_text ": " e))) c
        | ok node ↦
            add_web_sockets sockets https (suc index) texts
              (add_node (with_http_url (correlated sockets https index text) node) c)
      ]

  unfoldable pub parse_evm_web_socket_servers : Config → Step
  unfolding add_web_sockets
  parse_evm_web_socket_servers c =
      let sockets = host.fields c.environment.evm_ws_servers in
      add_web_sockets sockets (host.fields c.environment.evm_servers) 0 sockets c

  unfoldable pub process_server_lists : Config → Step
  unfolding add_lists server_configs parse_evm_web_socket_servers
  process_server_lists c = add_lists (server_configs c) c ▷ λ c.
      (if str_eq c.environment.evm_ws_servers ""
        then done c
        else blame "parsing EVM WebSocket servers: " (parse_evm_web_socket_servers c))

  -- `range` takes the variables in the order that `order` puts them in.
  unfoldable pub process_environment_configuration :
      (List (String × String) → List (String × String)) → Config → Step
  unfolding auto_discover_from_environment process_server_lists preset_step references_step
  process_environment_configuration order c =
      (if str_eq c.chain.auto_discover_from_env ""
        then done c
        else blame "auto-discovery failed: "
            (auto_discover_from_environment order c.chain.auto_discover_from_env c))
      ▷ (λ c. blame "processing server lists: " (process_server_lists c))
      ▷ preset_step
      ▷ references_step
