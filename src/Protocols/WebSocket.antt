-- ===== src/Protocols/WebSocket.antt =====
-- The health of an EVM WebSocket node is that of its HTTP URL.
use caddy_blockchain_health.Common.{ℕ, ◌≡◌, refl, true, false, str_eq}
use caddy_blockchain_health.Types.{NodeConfig, NodeHealth, get_metadata}
use caddy_blockchain_health.Types.Protocol.{Reply, ok, err}
use caddy_blockchain_health.Protocols.{Wire}
use caddy_blockchain_health.Protocols.Evm.{
  evm_get_block_height, websocket_health, http_health, check_websocket_node, evm_check_health,
}

-- A reply with the record made out to the node.
abbrev pub made_out_to : NodeConfig → Reply NodeHealth × ℕ → Reply NodeHealth × ℕ
made_out_to node (ok health, now) = (ok (record health { name = node.name; url = node.url }), now)
made_out_to node (err e, now) = (err e, now)

health_made_out :
    (node http : NodeConfig) (start : ℕ) (r : Reply ℕ × ℕ)
    → websocket_health node start r ≡ made_out_to node (http_health http start r)
unfolding websocket_health http_health
health_made_out node http start (ok height, now) = refl
health_made_out node http start (err e, now) = refl

-- An EVM WebSocket node with an HTTP URL in its metadata gets the very reply that a node which is not a
-- WebSocket node gets at that URL, at the same instant and after the same time, but for the name and the
-- URL: these are its own, so requests are sent to the WebSocket.
pub evm_check_health-websocket :
    (w : Wire) (now : ℕ) (node http : NodeConfig)
    → str_eq (get_metadata node "service_type") "websocket" ≡ true
    → str_eq (get_metadata node "http_url") "" ≡ false
    → str_eq (get_metadata http "service_type") "websocket" ≡ false
    → http.url ≡ get_metadata node "http_url"
    → evm_check_health w now node ≡ made_out_to node (evm_check_health w now http)
unfolding evm_check_health check_websocket_node
evm_check_health-websocket w now node http ws has plain same =
    rw (ws, has, plain, same)
      (health_made_out node (record http { url = get_metadata node "http_url" }) now
        (evm_get_block_height w now (get_metadata node "http_url")))
