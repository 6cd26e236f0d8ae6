-- ===== src/Directives.antt =====
-- config.go: `parseCaddyfile`, `parseNode` and `parseExternalReference`, over a dispenser. The
-- cases of each `switch` that treat their token alike are one constructor, with a field to say what
-- is set.
pub mod Fields
pub mod Accepted
pub mod Items
pub mod Ending
pub mod Print
pub mod Names
pub mod Nodes
pub mod Entries
pub mod References
pub mod RoundTrip
use Prim.Native.String.{◌++◌ as then_text}
use caddy_blockchain_health.Common.{
  ℕ, Bool, true, false, not, List, [], ◌∷◌, ◌++◌, String, str_eq, if◌then◌else◌,
}
use caddy_blockchain_health.Common.Int.{ℤ, pos, leb_ℤ}
use caddy_blockchain_health.Common.Dict.{insert}
use caddy_blockchain_health.Types.{NodeConfig, ExternalReference}
use caddy_blockchain_health.Types.Config.{Config}
use caddy_blockchain_health.Settings.{is_known_type}
use caddy_blockchain_health.Caddyfile.{
  Dispenser, Readers, Parsing, parsed, failed, errf, ◌>>=◌, in_context, reading, value, values,
  each,
}
use caddy_blockchain_health.Directives.Fields.{
  Directive, node_block, reference_block, text, number, flag, servers, threshold, node_type,
  unknown, directive_of, set_text, set_number, set_flag, set_servers, number_message, flag_message,
}

-- `strings.Join(values, " ")`
unfoldable pub join : List String → String
join [] = ""
join (x ∷ []) = x
join (x ∷ y ∷ xs) = then_text x (then_text " " (join (y ∷ xs)))

pub data NodeDirective : Type 0 where
  url_value api_url_value websocket_url_value chain_type_value : NodeDirective
  type_value weight_value metadata_block other : NodeDirective

unfoldable pub node_directive : String → NodeDirective
node_directive name =
    if str_eq name "url"
    then url_value
    else if str_eq name "api_url"
    then api_url_value
    else if str_eq name "websocket_url"
    then websocket_url_value
    else if str_eq name "type"
    then type_value
    else if str_eq name "chain_type"
    then chain_type_value
    else if str_eq name "weight"
    then weight_value
    else if str_eq name "metadata"
    then metadata_block
    else other

pub data ReferenceDirective : Type 0 where
  name_value url_value enabled_value other : ReferenceDirective

unfoldable pub reference_directive : String → ReferenceDirective
reference_directive name =
    if str_eq name "name"
    then name_value
    else if str_eq name "url"
    then ReferenceDirective.url_value
    else if str_eq name "enabled"
    then enabled_value
    else ReferenceDirective.other

module _ {S : Type 0} (d : Dispenser S) (readers : Readers) where
  -- One entry of a metadata block.
  unfoldable pub metadata_entry :
      ℕ → List (String × String) → S → Parsing S (List (String × String))
  metadata_entry fuel metadata s = value d s >>= λ v t. parsed (insert (d.val s) v metadata) t

  unfoldable pub known_type : String → NodeConfig → S → Parsing S NodeConfig
  known_type type node s =
      if is_known_type type
      then parsed (record node { type = type }) s
      else failed (
          errf (
            then_text "invalid node type: "
              (then_text type " (must be 'cosmos', 'evm', or 'beacon')")))

  unfoldable pub positive_weight : ℤ → NodeConfig → S → Parsing S NodeConfig
  positive_weight weight node s =
      if leb_ℤ weight (pos 0)
      then failed (errf "weight must be positive")
      else parsed (record node { weight = weight }) s

  -- The body of the loop of `parseNode`, by its directive.
  unfoldable pub node_line : NodeDirective → ℕ → NodeConfig → S → Parsing S NodeConfig
  unfolding metadata_entry known_type positive_weight
  node_line url_value fuel node s = value d s >>= λ v t. parsed (record node { url = v }) t
  node_line api_url_value fuel node s = value d s >>= λ v t. parsed (record node { api_url = v }) t
  node_line websocket_url_value fuel node s =
      value d s >>= λ v t. parsed (record node { websocket_url = v }) t
  node_line chain_type_value fuel node s =
      value d s >>= λ v t. parsed (record node { chain_type = v }) t
  node_line type_value fuel node s = value d s >>= λ v t. known_type v node t
  node_line weight_value fuel node s = value d s >>= λ v t.
      (reading "invalid weight: " (readers.atoi v) t >>= λ weight t. positive_weight weight node t)
  node_line metadata_block fuel node s =
      each metadata_entry (d.next_block 2) fuel node.metadata s >>= λ metadata t.
      parsed (record node { metadata = metadata }) t
  node_line NodeDirective.other fuel node s =
      failed (errf (then_text "unknown node directive: " (d.val s)))

  unfoldable pub new_node : String → NodeConfig
  new_node name = record {
    name = name;
    url = "";
    api_url = "";
    websocket_url = "";
    type = "";
    chain_type = "";
    weight = pos 100;
    metadata = [];
  }

  -- The required fields of a node.
  unfoldable pub complete_node : NodeConfig → S → Parsing S NodeConfig
  complete_node node s =
      if str_eq node.url ""
      then failed (errf (then_text "node " (then_text node.name ": url is required")))
      else if str_eq node.type ""
      then failed (errf (then_text "node " (then_text node.name ": type is required")))
      else parsed node s

  unfoldable pub parse_node : ℕ → S → Parsing S NodeConfig
  unfolding node_line new_node complete_node
  parse_node fuel s = value d s >>= λ name t.
      (each (λ left node s. node_line (node_directive (d.val s)) left node s) (d.next_block 1) fuel
          (new_node name) t
        >>= complete_node)

  -- The body of the loop of `parseExternalReference`, by its directive.
  unfoldable pub reference_line :
      ReferenceDirective → ℕ → ExternalReference → S → Parsing S ExternalReference
  reference_line name_value fuel ref s = value d s >>= λ v t. parsed (record ref { name = v }) t
  reference_line ReferenceDirective.url_value fuel ref s =
      value d s >>= λ v t. parsed (record ref { url = v }) t
  reference_line enabled_value fuel ref s = value d s >>= λ v t.
      (reading "invalid enabled value: " (readers.parse_bool v) t >>= λ enabled t.
      parsed (record ref { enabled = enabled }) t)
  reference_line ReferenceDirective.other fuel ref s =
      failed (errf (then_text "unknown external reference directive: " (d.val s)))

  unfoldable pub complete_reference : ExternalReference → S → Parsing S ExternalReference
  complete_reference ref s =
      if str_eq ref.name ""
      then failed (errf "external reference: name is required")
      else if str_eq ref.url ""
      then failed (errf (then_text "external reference " (then_text ref.name ": url is required")))
      else parsed ref s

  -- The type of a reference is checked before its block.
  unfoldable pub reference_block_of : ℕ → String → S → Parsing S ExternalReference
  unfolding reference_line complete_reference
  reference_block_of fuel type s =
      if is_known_type type
      then (each (λ left ref s. reference_line (reference_directive (d.val s)) left ref s)
            (d.next_block 1) fuel (record { name = ""; url = ""; type = type; enabled = true }) s
          >>= complete_reference)
      else failed (
          errf (
            then_text "invalid external reference type: "
              (then_text type " (must be 'cosmos', 'evm', or 'beacon')")))

  unfoldable pub parse_external_reference : ℕ → S → Parsing S ExternalReference
  unfolding reference_block_of
  parse_external_reference fuel s = value d s >>= reference_block_of fuel

  unfoldable pub known_node_type : String → Config → S → Parsing S Config
  known_node_type type config s =
      if is_known_type type
      then parsed (record config { chain = record config.chain { node_type = type } }) s
      else failed (
          errf (
            then_text "invalid node_type: "
              (then_text type " (must be 'cosmos', 'evm', or 'beacon')")))

  -- The body of the inner loop of `parseCaddyfile`, by its directive.
  unfoldable pub directive_line : Directive → ℕ → Config → S → Parsing S Config
  unfolding known_node_type
  directive_line node_block fuel config s =
      in_context "parsing node: " (parse_node fuel s) >>= λ node t.
      parsed (record config { nodes = config.nodes ++ node ∷ [] }) t
  directive_line reference_block fuel config s =
      in_context "parsing external reference: " (parse_external_reference fuel s) >>= λ ref t.
      parsed (record config { external_references = config.external_references ++ ref ∷ [] }) t
  directive_line (text field) fuel config s =
      value d s >>= λ v t. parsed (set_text field v config) t
  directive_line (number field) fuel config s = value d s >>= λ v t.
      (reading (number_message field) (readers.atoi v) t >>= λ n t.
      parsed (set_number field n config) t)
  directive_line (flag field) fuel config s = value d s >>= λ v t.
      (reading (flag_message field) (readers.parse_bool v) t >>= λ b t.
      parsed (set_flag field b config) t)
  directive_line (servers field) fuel config s =
      values d fuel [] s >>= λ found t. parsed (set_servers field (join found) config) t
  directive_line threshold fuel config s = value d s >>= λ v t.
      (reading "invalid circuit_breaker_threshold: " (readers.parse_float v) t >>= λ n t.
      parsed
        (record config {
          failure_handling = record config.failure_handling { circuit_breaker_threshold = n };
        })
        t)
  directive_line node_type fuel config s = value d s >>= λ v t. known_node_type v config t
  directive_line unknown fuel config s = failed (errf (then_text "unknown directive: " (d.val s)))

  -- `for d.NextBlock(0) { switch d.Val() { ... } }`
  unfoldable pub parse_block : ℕ → Config → S → Parsing S Config
  parse_block =
      each (λ left config s. directive_line (directive_of (d.val s)) left config s) (d.next_block 0)

  unfoldable pub parse_caddyfile : ℕ → Config → S → Parsing S Config
  unfolding parse_block
  parse_caddyfile = each parse_block d.next
