-- ===== src/Environment/Nodes.antt =====
-- config.go: `createNodeFromURL`, and what it generates. `net/url`, `strings.Fields`, `os.Getenv` and
-- the decimal digits of `%d` are the parameter `Host`.
use Prim.Native.String.{◌++◌ as then_text}
use caddy_blockchain_health.Common.{ℕ, ◌&&◌, List, [], ◌∷◌, String, str_eq, if◌then◌else◌}
use caddy_blockchain_health.Common.Int.{pos}
use caddy_blockchain_health.Types.{NodeConfig}
use caddy_blockchain_health.Types.Config.{Config}
use caddy_blockchain_health.Types.Protocol.{Reply, ok, err}
use caddy_blockchain_health.Environment.Chains.{map_chain_type_to_protocol}

-- What the code uses of the host: `url.URL` with its fields, `url.Parse` and `String`, and the rest.
pub record Host (Url : Type 0) : Type 0 where
  pub parse : String → Reply Url
  pub scheme : Url → String
  pub with_scheme : String → Url → Url
  pub with_path : String → Url → Url
  pub text : Url → String
  pub hostname : Url → String
  pub fields : String → List String
  pub getenv : String → String
  pub digits : ℕ → String

-- `if text == "" { text = other }`
abbrev pub or_text : String → String → String
or_text text other = if str_eq text "" then other else text

module _ {Url : Type 0} (host : Host Url) where
  -- The service type and the chain that `autoDetectServiceType` answers for any URL.
  unfoldable pub auto_detect_service_type : Url → String × String
  auto_detect_service_type url = ("generic", "cosmos")

  unfoldable pub generate_node_name : String → String → ℕ → String
  generate_node_name chain service index =
      then_text (or_text chain "blockchain")
        (then_text "-" (then_text (or_text service "node") (then_text "-" (host.digits index))))

  -- The scheme of a WebSocket URL.
  unfoldable pub web_socket_scheme : Url → Url
  web_socket_scheme url =
      if str_eq (host.scheme url) "http"
      then host.with_scheme "ws" url
      else if str_eq (host.scheme url) "https"
      then host.with_scheme "wss" url
      else url

  unfoldable pub generate_web_socket_url : Url → String → String
  unfolding web_socket_scheme
  generate_web_socket_url url type =
      if str_eq type "cosmos"
      then host.text (host.with_path "/websocket" (web_socket_scheme url))
      else if str_eq type "evm"
      then host.text (web_socket_scheme url)
      else ""

  unfoldable pub generate_api_url : Url → String
  generate_api_url url = ""

  -- The protocol of a node, by the configured node type, or else by its chain.
  unfoldable pub actual_node_type : Config → String → String → String
  actual_node_type c chain detected =
      or_text c.chain.node_type (or_text (map_chain_type_to_protocol chain) detected)

  -- The node that `createNodeFromURL` makes of a URL that parses.
  unfoldable pub node_at : Config → String → Url → String → ℕ → NodeConfig
  unfolding auto_detect_service_type generate_node_name generate_web_socket_url generate_api_url
      actual_node_type
  node_at c text url service_type index =
      let detected = auto_detect_service_type url in
      let service = if str_eq service_type "generic" then detected.0 else service_type in
      let chain = or_text c.chain.chain_type detected.1 in
      let type = actual_node_type c chain detected.1 in
      record {
        name = generate_node_name chain service index;
        url = text;
        api_url = if str_eq type "cosmos" && str_eq service "rpc" then generate_api_url url else "";
        websocket_url = generate_web_socket_url url type;
        type = type;
        chain_type = chain;
        weight = pos 100;
        metadata =
            ("service_type", service)
            ∷ ("auto_generated", "true")
            ∷ ("source", "environment")
            ∷ ("chain_type", chain)
            ∷ [];
      }

  unfoldable pub create_node_from_url : Config → String → String → ℕ → Reply NodeConfig
  unfolding node_at
  create_node_from_url c text service_type index = elim (host.parse text) [
    | err e ↦ err (then_text "parsing URL: " e)
    | ok url ↦ ok (node_at c text url service_type index)
  ]
