-- ===== src/Protocols/Evm.antt =====
-- handlers.go: `EVMHandler`.
use Prim.Native.String.{◌++◌ as then_text}
use caddy_blockchain_health.Common.{ℕ, ◌-◌, true, none, some, String, str_eq, if◌then◌else◌}
use caddy_blockchain_health.Types.{NodeConfig, NodeHealth, new_health, get_metadata}
use caddy_blockchain_health.Types.Protocol.{Reply, ok, err}
use caddy_blockchain_health.Protocols.{
  Wire, EvmJsonRpcResponse, exchange, reword, on_ok, failed_health, found_health,
}

-- What `GetBlockHeight` makes of a decoded response.
unfoldable pub height_in : Wire → EvmJsonRpcResponse → Reply ℕ
height_in w response = elim response.error [
  | some (code, message) ↦
      err (then_text "JSON-RPC error " (then_text code (then_text ": " message)))
  | none ↦ elim response.result [
    | none ↦ err "invalid block height response type"
    | some text ↦ reword "parsing block height: " (w.parse_uint 16 (w.trim_0x text))
  ]
]

-- The request is constant, and `json.Marshal` does not fail on it.
unfoldable pub evm_get_block_height : Wire → ℕ → String → Reply ℕ × ℕ
unfolding height_in
evm_get_block_height w now url =
    let (reply, later) =
      exchange w "creating request: " "JSON-RPC request failed: " "JSON-RPC status " now
        w.rpc_request url in
    (
      on_ok reply
          (λ body. on_ok (reword "decoding JSON-RPC response: " (w.decode_rpc body)) (height_in w)),
      later,
    )

-- The end of the block for a WebSocket node, by the answer at the HTTP URL in its metadata.
unfoldable pub websocket_health : NodeConfig → ℕ → Reply ℕ × ℕ → Reply NodeHealth × ℕ
websocket_health node start (err e, now) =
    (ok (record (new_health node.name node.url start e) { response_time = now - start }), now)
websocket_health node start (ok height, now) = (
  ok (record (new_health node.name node.url start "") {
    block_height = height;
    healthy = true;
    response_time = now - start;
  }),
  now,
)

-- The block for a WebSocket node.
unfoldable pub check_websocket_node : Wire → ℕ → NodeConfig → Reply NodeHealth × ℕ
unfolding websocket_health
check_websocket_node w now node =
    let http_url = get_metadata node "http_url" in
    let asked = websocket_health node now (evm_get_block_height w now http_url) in
    if str_eq http_url ""
    then (
      ok (
          failed_health node now now
            "no corresponding HTTP URL found for WebSocket node - check evm_servers configuration"),
      now,
    )
    else asked

-- The end of the function for any other node, by the answer at its URL.
unfoldable pub http_health : NodeConfig → ℕ → Reply ℕ × ℕ → Reply NodeHealth × ℕ
http_health node start (err e, now) = (ok (failed_health node start now e), now)
http_health node start (ok height, now) = (ok (found_health node start now height none true), now)

unfoldable pub evm_check_health : Wire → ℕ → NodeConfig → Reply NodeHealth × ℕ
unfolding check_websocket_node http_health
evm_check_health w now node =
    let over_http = http_health node now (evm_get_block_height w now node.url) in
    if str_eq (get_metadata node "service_type") "websocket"
    then check_websocket_node w now node
    else over_http
