-- ===== src/Environment/Provides.antt =====
-- config.go: what `processServerLists` and `processEnvironmentConfiguration` provide.
use caddy_blockchain_health.Common.{
  ◌⊎◌, ◌≡◌, refl, arith, true, false, ◌||◌, inl, inr, List, [], ◌∷◌, ◌++◌, String, str_eq,
  if◌then◌else◌, map, All, Bool-cases, ◌∙◌, ap, sym, length, ◌==◌,
}
use caddy_blockchain_health.Common.Int.{pos, ltb_ℤ}
use caddy_blockchain_health.Types.{NodeConfig, ExternalReference}
use caddy_blockchain_health.Types.Config.{Config}
use caddy_blockchain_health.Environment.{
  Step, done, broke, ◌▷◌, blame, env_vars, discover, auto_discover_from_environment, add_lists,
  server_configs, parse_evm_web_socket_servers, process_server_lists, generate_external_references,
  preset_step, references_step, process_environment_configuration,
}
use caddy_blockchain_health.Environment.Nodes.{Host}
use caddy_blockchain_health.Environment.Chains.{add_defaults, apply_chain_preset}
use caddy_blockchain_health.Environment.Types.{IsTyped}
use caddy_blockchain_health.Environment.Adds.{
  IsGenerated, with_nodes, urls, SplitsFields, Unparsed, Adds, done-Adds, blame-Adds, ▷-Adds,
}
use caddy_blockchain_health.Environment.Servers.{
  fields_of, listed, discovered, add_lists-Adds, discover-Adds, add_web_sockets-Adds,
}

module _ {Url : Type 0} (host : Host Url) where
  web_sockets-Adds :
      (c : Config)
      → SplitsFields host
      → IsTyped c
      → Adds host c (fields_of host c.environment.evm_ws_servers) (
          if str_eq c.environment.evm_ws_servers ""
          then done c
          else blame "parsing EVM WebSocket servers: " (parse_evm_web_socket_servers host c))
  unfolding parse_evm_web_socket_servers
  web_sockets-Adds c splits typed =
      let sockets = host.fields c.environment.evm_ws_servers in
      elim (Bool-cases (str_eq c.environment.evm_ws_servers "")) [
        | inl missing ↦ rw missing (done-Adds host c)
        | inr given ↦ rw given (
            blame-Adds host c sockets "parsing EVM WebSocket servers: "
              (parse_evm_web_socket_servers host c)
              (add_web_sockets-Adds host sockets (host.fields c.environment.evm_servers) 0 sockets c
                typed (splits c.environment.evm_ws_servers)))
      ]

  -- The URLs of the server lists, in the order of the lists.
  abbrev pub list_texts : Config → List String
  list_texts c = listed host (server_configs host c) ++ fields_of host c.environment.evm_ws_servers

  -- The nodes of the server lists.
  pub process_server_lists-Adds :
      (c : Config)
      → SplitsFields host
      → IsTyped c
      → Adds host c (list_texts c) (process_server_lists host c)
  unfolding process_server_lists server_configs
  process_server_lists-Adds c splits typed =
      ▷-Adds host c (listed host (server_configs host c))
        (fields_of host c.environment.evm_ws_servers) (add_lists host (server_configs host c) c)
        (λ c.
          if str_eq c.environment.evm_ws_servers ""
          then done c
          else blame "parsing EVM WebSocket servers: " (parse_evm_web_socket_servers host c))
        (add_lists-Adds host (server_configs host c) c splits typed)
        (λ nodes. web_sockets-Adds (with_nodes nodes c) splits typed)

  -- The URLs that the environment gives.
  abbrev pub environment_texts :
      (List (String × String) → List (String × String)) → Config → List String
  environment_texts order c =
      (if str_eq c.chain.auto_discover_from_env ""
        then []
        else discovered host (order (env_vars host c.chain.auto_discover_from_env)))
      ++ list_texts c

  servers-Adds :
      (order : List (String × String) → List (String × String)) (c : Config)
      → SplitsFields host
      → IsTyped c
      → Adds host c (environment_texts order c) (
          (if str_eq c.chain.auto_discover_from_env ""
            then done c
            else blame "auto-discovery failed: "
                (auto_discover_from_environment host order c.chain.auto_discover_from_env c))
          ▷ (λ c. blame "processing server lists: " (process_server_lists host c)))
  unfolding auto_discover_from_environment server_configs
  servers-Adds order c splits typed =
      let vars = order (env_vars host c.chain.auto_discover_from_env) in
      let found = if str_eq c.chain.auto_discover_from_env "" then [] else discovered host vars in
      let first =
        if str_eq c.chain.auto_discover_from_env ""
        then done c
        else blame "auto-discovery failed: "
            (auto_discover_from_environment host order c.chain.auto_discover_from_env c) in
      ▷-Adds host c found (list_texts c) first
        (λ c. blame "processing server lists: " (process_server_lists host c))
        (elim (Bool-cases (str_eq c.chain.auto_discover_from_env "")) [
          | inl missing ↦ rw missing (done-Adds host c)
          | inr given ↦ rw given (
              blame-Adds host c (discovered host vars) "auto-discovery failed: "
                (discover host vars c) (discover-Adds host vars c splits typed))
        ])
        (λ nodes.
          blame-Adds host (with_nodes nodes c) (list_texts c) "processing server lists: "
            (process_server_lists host (with_nodes nodes c))
            (process_server_lists-Adds (with_nodes nodes c) splits typed))

-- The step leaves the nodes and the external references as they are, whether it is done or fails.
abbrev pub Keeps : Config → Step → Type 0
Keeps c (done c') = (c'.nodes ≡ c.nodes) × (c'.external_references ≡ c.external_references)
Keeps c (broke e c') = (c'.nodes ≡ c.nodes) × (c'.external_references ≡ c.external_references)

preset_step-Keeps : (c : Config) → Keeps c (preset_step c)
unfolding preset_step apply_chain_preset add_defaults
preset_step-Keeps c =
    let preset = c.chain.chain_preset in
    elim (Bool-cases (str_eq preset "")) [
      | inl no_preset ↦ rw (no_preset, preset_step) (refl, refl)
      | inr preset_given ↦
          elim (Bool-cases (str_eq preset "cosmos" || str_eq preset "cosmos-hub")) [
            | inl is_cosmos ↦
                rw (preset_given, is_cosmos, preset_step, apply_chain_preset) (refl, refl)
            | inr no_cosmos ↦ elim (Bool-cases (str_eq preset "ethereum")) [
              | inl is_evm ↦
                  rw (preset_given, no_cosmos, is_evm, preset_step, apply_chain_preset) (refl, refl)
              | inr no_evm ↦ elim (Bool-cases (str_eq preset "althea")) [
                | inl is_althea ↦
                    rw (preset_given, no_cosmos, no_evm, is_althea, preset_step, apply_chain_preset)
                      (refl, refl)
                | inr unknown ↦
                    rw (preset_given, no_cosmos, no_evm, unknown, preset_step, apply_chain_preset)
                      (refl, refl)
              ]
            ]
          ]
    ]

no_references : (refs : List ExternalReference) → (length refs == 0) ≡ true → refs ≡ []
no_references [] h = refl
no_references (r ∷ refs) h = absurd (grind arith)

references_step-Keeps : (c : Config) → Keeps c (references_step c)
unfolding references_step generate_external_references
references_step-Keeps c = elim (Bool-cases (length c.external_references == 0)) [
  | inl empty ↦ elim (Bool-cases (ltb_ℤ (pos 0) c.block_validation.external_reference_threshold)) [
    | inl checked ↦
        let missing = no_references c.external_references empty in
        rw (empty, checked, references_step)
          (
            refl,
            ap (map (λ ref. if str_eq ref.url "" then record ref { enabled = false } else ref))
                  missing
                ∙ sym missing,
          )
    | inr unchecked ↦ rw (empty, unchecked, references_step) (refl, refl)
  ]
  | inr some_given ↦ rw (some_given, references_step) (refl, refl)
]

module _ {Url : Type 0} (host : Host Url) where
  -- However the step ends, the nodes that were there come first, and after them generated ones; the
  -- external references are the same. If it is done, it generated one for each text, in their
  -- order. If it fails, it generated one for each text before the first that is no URL, or for all
  -- of them.
  abbrev pub Provides : Config → List String → Step → Type 0
  Provides c texts (done c') =
      (new : List NodeConfig) × (c'.nodes ≡ c.nodes ++ new)
      × All IsGenerated new
      × (c'.external_references ≡ c.external_references)
      × (urls new ≡ texts)
  Provides c texts (broke e c') =
      (new : List NodeConfig) × (c'.nodes ≡ c.nodes ++ new)
      × All IsGenerated new
      × (c'.external_references ≡ c.external_references)
      × ((urls new ≡ texts)
          ⊎ ((text : String) × (rest : List String) × (urls new ++ text ∷ rest ≡ texts)
              × Unparsed host text))

  Adds-Provides :
      (c : Config) (texts : List String) (m : Step) → Adds host c texts m → Provides c texts m
  Adds-Provides c texts (done c') h =
      (h.0, ap (λ d. d.nodes) h.1, h.2, ap (λ d. d.external_references) h.1, h.3)
  Adds-Provides c texts (broke e c') h =
      (h.0, ap (λ d. d.nodes) h.1, h.2, ap (λ d. d.external_references) h.1, inr h.3)

  Keeps-Provides :
      (c c' : Config) (texts : List String) (m : Step)
      → Provides c texts (done c')
      → Keeps c' m
      → Provides c texts m
  Keeps-Provides c c' texts (done d) h k = (h.0, k.0 ∙ h.1, h.2, k.1 ∙ h.3, h.4)
  Keeps-Provides c c' texts (broke e d) h k = (h.0, k.0 ∙ h.1, h.2, k.1 ∙ h.3, inl h.4)

  ▷-Provides :
      (c : Config) (texts : List String) (m : Step) (k : Config → Step)
      → ((c' : Config) → Keeps c' (k c'))
      → Provides c texts m
      → Provides c texts (m ▷ k)
  ▷-Provides c texts (done c') k keeps h = Keeps-Provides c c' texts (k c') h (keeps c')
  ▷-Provides c texts (broke e c') k keeps h = h

  -- If `strings.Fields` gives no empty fields, and the node type is empty or known, then whether
  -- `processEnvironmentConfiguration` succeeds or fails, in whatever order the variables are taken,
  -- the configured nodes come first and are unchanged, and the nodes after them have a URL, a known
  -- type, a positive weight and the source "environment". The external references are the same, so
  -- none is generated. On success there is one new node for each server of the variables and the
  -- lists, in their order; on failure, one for each server before the first that is no URL, or for
  -- all if none is.
  pub process_environment-Provides :
      (order : List (String × String) → List (String × String)) (c : Config)
      → SplitsFields host
      → IsTyped c
      → Provides c (environment_texts host order c) (process_environment_configuration host order c)
  unfolding process_environment_configuration
  process_environment-Provides order c splits typed =
      let servers =
        (if str_eq c.chain.auto_discover_from_env ""
          then done c
          else blame "auto-discovery failed: "
              (auto_discover_from_environment host order c.chain.auto_discover_from_env c))
        ▷ (λ c. blame "processing server lists: " (process_server_lists host c)) in
      let texts = environment_texts host order c in
      ▷-Provides c texts (servers ▷ preset_step) references_step references_step-Keeps (
        ▷-Provides c texts servers preset_step preset_step-Keeps
          (Adds-Provides c texts servers (servers-Adds host order c splits typed)))
