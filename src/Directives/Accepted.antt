-- ===== src/Directives/Accepted.antt =====
-- The nodes, references and configurations that the parser accepts, and the directives that leave
-- both lists alone.
use caddy_blockchain_health.Common.{
  ◌≡◌, Bool, true, false, List, [], ◌∷◌, ◌++◌, String, str_eq, All, ◌⊎◌,
}
use caddy_blockchain_health.Common.Int.{ℤ, pos, ◌<ℤ◌}
use caddy_blockchain_health.Types.{NodeConfig, ExternalReference}
use caddy_blockchain_health.Types.Config.{Config}
use caddy_blockchain_health.Settings.{is_known_type}
use caddy_blockchain_health.Directives.Fields.{
  set_text, set_number, set_flag, set_servers, TextField, NumberField, FlagField, ServerField,
}

-- A node that may stand in a configuration, and one that is being read.
abbrev pub NodeAccepted : NodeConfig → Type 0
NodeAccepted node =
    (str_eq node.url "" ≡ false) × (is_known_type node.type ≡ true) × (pos 0 <ℤ node.weight)

abbrev pub NodePart : NodeConfig → Type 0
NodePart node =
    ((str_eq node.type "" ≡ true) ⊎ (is_known_type node.type ≡ true)) × (pos 0 <ℤ node.weight)

abbrev pub ReferenceAccepted : ExternalReference → Type 0
ReferenceAccepted ref =
    (str_eq ref.name "" ≡ false) × (str_eq ref.url "" ≡ false) × (is_known_type ref.type ≡ true)

abbrev pub ReferencePart : ExternalReference → Type 0
ReferencePart ref = is_known_type ref.type ≡ true

abbrev pub ConfigAccepted : Config → Type 0
ConfigAccepted config =
    All NodeAccepted config.nodes × All ReferenceAccepted config.external_references

pub All-concat :
    {A : Type 0} (P : A → Type 0) (xs : List A) (x : A) → All P xs → P x → All P (xs ++ x ∷ [])
All-concat P [] x h p = (p, tt)
All-concat P (y ∷ xs) x h p = (h.0, All-concat P xs x h.1 p)

-- No other directive touches the nodes and the references.
pub text-Accepted :
    (field : TextField) (v : String) (config : Config)
    → ConfigAccepted config
    → ConfigAccepted (set_text field v config)
unfolding set_text
text-Accepted TextField.check_interval v config h = h
text-Accepted TextField.timeout v config h = h
text-Accepted TextField.retry_delay v config h = h
text-Accepted TextField.cache_duration v config h = h
text-Accepted TextField.grace_period v config h = h
text-Accepted TextField.log_level v config h = h
text-Accepted TextField.health_endpoint v config h = h
text-Accepted TextField.chain_type v config h = h
text-Accepted TextField.chain_preset v config h = h
text-Accepted TextField.auto_discover_from_env v config h = h
text-Accepted TextField.service_type v config h = h
text-Accepted TextField.fallback_behavior v config h = h
text-Accepted TextField.required_env_vars v config h = h
text-Accepted TextField.optional_env_vars v config h = h

pub number-Accepted :
    (field : NumberField) (n : ℤ) (config : Config)
    → ConfigAccepted config
    → ConfigAccepted (set_number field n config)
unfolding set_number
number-Accepted NumberField.retry_attempts n config h = h
number-Accepted NumberField.block_height_threshold n config h = h
number-Accepted NumberField.external_reference_threshold n config h = h
number-Accepted NumberField.max_concurrent_checks n config h = h
number-Accepted NumberField.min_healthy_nodes n config h = h

pub flag-Accepted :
    (field : FlagField) (b : Bool) (config : Config)
    → ConfigAccepted config
    → ConfigAccepted (set_flag field b config)
unfolding set_flag
flag-Accepted FlagField.metrics_enabled b config h = h
flag-Accepted FlagField.legacy_mode b config h = h

pub servers-Accepted :
    (field : ServerField) (v : String) (config : Config)
    → ConfigAccepted config
    → ConfigAccepted (set_servers field v config)
unfolding set_servers
servers-Accepted ServerField.any_servers v config h = h
servers-Accepted ServerField.rpc_servers v config h = h
servers-Accepted ServerField.api_servers v config h = h
servers-Accepted ServerField.websocket_servers v config h = h
servers-Accepted ServerField.evm_servers v config h = h
servers-Accepted ServerField.evm_ws_servers v config h = h
