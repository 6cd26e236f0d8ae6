-- ===== src/Types/Protocol.antt =====
-- types.go's `ProtocolHandler`, the interface between the checker and the protocols, and what the
-- checker uses of Go's `context`. A call of a handler is made under a context at an instant, and
-- comes back with its answer and the instant of the return.
use caddy_blockchain_health.Common.{
  ℕ, Bool, false, Option, none, some, String, leb, if◌then◌else◌, str_eq,
}
use caddy_blockchain_health.Types.{
  NodeConfig, NodeHealth, NodeType, node_type_cosmos, node_type_evm, node_type_beacon,
}

-- A Go result: the value with a nil error, or the error's text.
pub data Reply (A : Type 0) : Type 0 where
  ok : A → Reply A
  err : String → Reply A

-- A context is done from an instant on, or never. `reason` is the text of its error.
pub record Context : Type 0 where
  pub done_at : Option ℕ
  pub reason : String

abbrev pub done_by : Option ℕ → ℕ → Bool
done_by none now = false
done_by (some t) now = leb t now

abbrev pub is_done : Context → ℕ → Bool
is_done ctx now = done_by ctx.done_at now

pub record ProtocolHandler : Type 0 where
  pub check_health : Context → ℕ → NodeConfig → Reply NodeHealth × ℕ
  pub get_block_height : Context → ℕ → String → Reply ℕ × ℕ

pub record Handlers : Type 0 where
  pub cosmos_handler : ProtocolHandler
  pub evm_handler : ProtocolHandler
  pub beacon_handler : ProtocolHandler

-- `switch node.Type`: none is the `default` branch.
unfoldable pub select_handler : Handlers → NodeType → Option ProtocolHandler
select_handler hs type =
    if str_eq type node_type_cosmos
    then some hs.cosmos_handler
    else if str_eq type node_type_evm
    then some hs.evm_handler
    else if str_eq type node_type_beacon
    then some hs.beacon_handler
    else none
