-- ===== src/Protocols.antt =====
-- handlers.go: the handlers for Cosmos, EVM and Beacon nodes. The network, the decoding of JSON and
-- Go's functions on numbers and texts are the parameter `Wire`. A request is made at an instant and
-- comes back at another. Logging is left out, and closing a body.
pub mod Cosmos
pub mod Evm
pub mod Beacon
pub mod Replies
pub mod WebSocket
use Prim.Native.String.{◌++◌ as then_text}
use caddy_blockchain_health.Common.{
  ℕ, ◌-◌, ◌==◌, Bool, true, false, not, ◌&&◌, ltb, Option, none, some, String, str_eq,
  if◌then◌else◌,
}
use caddy_blockchain_health.Common.Int.{ℤ}
use caddy_blockchain_health.Types.{NodeConfig, NodeHealth, new_health, get_metadata}
use caddy_blockchain_health.Types.Protocol.{Reply, ok, err, ProtocolHandler, Handlers}

pub record HttpResponse : Type 0 where
  pub status_code : ℕ
  pub body : String

pub record CosmosStatus : Type 0 where
  pub latest_block_height : String
  pub catching_up : Bool

-- `Result` is any JSON value; it matters whether it is a text.
pub record EvmJsonRpcResponse : Type 0 where
  pub result : Option String
  pub error : Option (String × String)

pub record BeaconSyncingResponse : Type 0 where
  pub is_syncing : Bool
  pub head_slot : String

-- `request_error` is the error of `http.NewRequestWithContext` for a URL, `do_request` is `client.Do` with a
-- body and a URL, `show` formats a number, and `talk` opens a WebSocket at a scheme and a URL,
-- writes a message and reads one.
pub record Wire : Type 0 where
  pub request_error : String → Option String
  pub do_request : ℕ → String → String → Reply HttpResponse × ℕ
  pub talk : ℕ → String → String → Bool × ℕ
  pub decode_status : String → Reply CosmosStatus
  pub decode_syncing : String → Reply Bool
  pub decode_block : String → Reply String
  pub decode_rpc : String → Reply EvmJsonRpcResponse
  pub decode_beacon_syncing : String → Reply BeaconSyncingResponse
  pub decode_beacon_header : String → Reply String
  pub parse_uint : ℕ → String → Reply ℕ
  pub parse_scheme : String → Option String
  pub trim_slash : String → String
  pub trim_0x : String → String
  pub contains : String → String → Bool
  pub show : ℕ → String
  pub rpc_request : String

-- `if err != nil { return ..., fmt.Errorf("...: %w", err) }`
abbrev pub reword : {A : Type 0} → String → Reply A → Reply A
reword message (ok x) = ok x
reword message (err e) = err (then_text message e)

abbrev pub on_ok : {A B : Type 0} → Reply A → (A → Reply B) → Reply B
on_ok (ok x) f = f x
on_ok (err e) f = err e

abbrev pub body_of : Wire → String → Reply HttpResponse → Reply String
body_of w status (ok response) =
    if response.status_code == 200
    then ok response.body
    else err (then_text status (w.show response.status_code))
body_of w status (err e) = err e

-- One exchange: the request is made and sent, and an answer but 200 is an error. The first three texts are
-- the beginnings of the three error messages.
unfoldable pub exchange : Wire → String → String → String → ℕ → String → String → Reply String × ℕ
exchange w creating failed status now body url = elim (w.request_error url) [
  | some e ↦ (err (then_text creating e), now)
  | none ↦
      let (reply, later) = w.do_request now body url in
      (body_of w status (reword failed reply), later)
]

-- The record of a failed check, and that of a check which found a height.
abbrev pub failed_health : NodeConfig → ℕ → ℕ → String → NodeHealth
failed_health node start now e = record (new_health node.name node.url start e) {
  response_time = now - start;
}

abbrev pub found_health : NodeConfig → ℕ → ℕ → ℕ → Option Bool → Bool → NodeHealth
found_health node start now height catching_up healthy =
    record (new_health node.name node.url start "") {
      healthy = healthy;
      block_height = height;
      catching_up = catching_up;
      response_time = now - start;
    }
