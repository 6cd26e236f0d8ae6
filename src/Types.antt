-- ===== src/Types.antt =====
-- types.go: the configuration of a node, the health of a node, and the store of shared health
-- records. Go's strings are native texts where they are only compared; a Go `int` is an integer; an
-- instant or a duration is a number of nanoseconds.
pub mod Config
pub mod Protocol
use caddy_blockchain_health.Common.{
  ℕ, Bool, false, List, [], ◌∷◌, ◌++◌, Option, none, some, String, length, get_elem?, if◌then◌else◌,
  str_eq,
}
use caddy_blockchain_health.Common.Int.{ℤ, pos}
use caddy_blockchain_health.Common.Dict.{lookup}

-- A `NodeType` is any text; these three are known.
abbrev pub NodeType : Type 0
NodeType = String

abbrev pub node_type_cosmos : NodeType
node_type_cosmos = "cosmos"

abbrev pub node_type_evm : NodeType
node_type_evm = "evm"

abbrev pub node_type_beacon : NodeType
node_type_beacon = "beacon"

pub record NodeConfig : Type 0 where
  pub name : String
  pub url : String
  pub api_url : String
  pub websocket_url : String
  pub type : NodeType
  pub chain_type : String
  pub weight : ℤ
  pub metadata : List (String × String)

abbrev pub or_empty : Option String → String
or_empty none = ""
or_empty (some s) = s

-- `node.Metadata[key]`: the empty text for a missing key.
unfoldable pub get_metadata : NodeConfig → String → String
unfolding lookup
get_metadata node key = or_empty (lookup key node.metadata)

pub record ExternalReference : Type 0 where
  pub name : String
  pub url : String
  pub type : NodeType
  pub enabled : Bool

pub record NodeHealth : Type 0 where
  pub name : String
  pub url : String
  pub healthy : Bool
  pub block_height : ℕ
  pub catching_up : Option Bool
  pub response_time : ℕ
  pub last_check : ℕ
  pub error_count : ℤ
  pub last_error : String
  pub height_valid : Bool
  pub external_reference_valid : Bool
  pub blocks_behind_pool : ℤ
  pub blocks_behind_external : ℤ

-- `&NodeHealth{Name: name, URL: url, LastCheck: now, LastError: message}`: an unhealthy node.
abbrev pub new_health : String → String → ℕ → String → NodeHealth
new_health name url now message = record {
  name = name;
  url = url;
  healthy = false;
  block_height = 0;
  catching_up = none;
  response_time = 0;
  last_check = now;
  error_count = pos 0;
  last_error = message;
  height_valid = false;
  external_reference_valid = false;
  blocks_behind_pool = pos 0;
  blocks_behind_external = pos 0;
}

-- A `*NodeHealth` is an index into the store of all health records made so far: the cache, the results
-- of a check and the groups of a validation share them.
abbrev pub Ref : Type 0
Ref = ℕ

abbrev pub Heap : Type 0
Heap = List NodeHealth

abbrev pub alloc : Heap → NodeHealth → Heap × Ref
alloc heap health = (heap ++ health ∷ [], length heap)

abbrev pub read : Heap → Ref → Option NodeHealth
read heap ref = get_elem? heap ref

-- `for i, node := range nodes { if node.Name == name { ...; break } }`
unfoldable pub find_node : String → List NodeConfig → Option NodeConfig
find_node name [] = none
find_node name (node ∷ nodes) = if str_eq node.name name then some node else find_node name nodes
