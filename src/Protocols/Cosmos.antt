-- ===== src/Protocols/Cosmos.antt =====
-- handlers.go: `CosmosHandler`.
use Prim.Native.String.{◌++◌ as then_text}
use caddy_blockchain_health.Common.{ℕ, Bool, false, not, none, some, String, str_eq, if◌then◌else◌}
use caddy_blockchain_health.Types.{NodeConfig, NodeHealth, get_metadata}
use caddy_blockchain_health.Types.Protocol.{Reply, ok, err}
use caddy_blockchain_health.Protocols.{Wire, exchange, reword, on_ok, failed_health, found_health}

unfoldable pub check_rpc_status : Wire → ℕ → String → Reply (ℕ × Bool) × ℕ
check_rpc_status w now url =
    let (reply, later) =
      exchange w "creating request: " "RPC request failed: " "RPC status " now ""
        (then_text (w.trim_slash url) "/status") in
    (
      on_ok reply (λ body.
          on_ok (reword "decoding RPC response: " (w.decode_status body)) (λ status.
            on_ok (reword "parsing block height: " (w.parse_uint 10 status.latest_block_height))
              (λ height. ok (height, status.catching_up)))),
      later,
    )

-- The second half of `checkRESTStatus`, for the latest block.
unfoldable pub check_latest_block : Wire → ℕ → String → Bool → Reply (ℕ × Bool) × ℕ
check_latest_block w now base_url syncing =
    let (reply, later) =
      exchange w "creating block request: " "REST block request failed: " "REST block status " now
        "" (then_text base_url "/cosmos/base/tendermint/v1beta1/blocks/latest") in
    (
      on_ok reply (λ body.
          on_ok (reword "decoding REST block response: " (w.decode_block body)) (λ text.
            on_ok (reword "parsing REST block height: " (w.parse_uint 10 text))
              (λ height. ok (height, syncing)))),
      later,
    )

unfoldable pub check_rest_status : Wire → ℕ → String → Reply (ℕ × Bool) × ℕ
check_rest_status w now url =
    let base_url = w.trim_slash url in
    let (reply, later) =
      exchange w "creating syncing request: " "REST syncing request failed: " "REST syncing status "
        now "" (then_text base_url "/cosmos/base/tendermint/v1beta1/syncing") in
    elim (on_ok reply (λ body. reword "decoding REST syncing response: " (w.decode_syncing body))) [
      | err e ↦ (err e, later)
      | ok syncing ↦ check_latest_block w later base_url syncing
    ]

-- The scheme is turned into that of a WebSocket; the conversation itself is the wire's.
unfoldable pub check_web_socket_health : Wire → ℕ → String → Bool × ℕ
check_web_socket_health w now url = elim (w.parse_scheme url) [
  | none ↦ (false, now)
  | some scheme ↦
      if str_eq scheme "http"
      then w.talk now "ws" url
      else if str_eq scheme "https"
      then w.talk now "wss" url
      else if str_eq scheme "ws"
      then w.talk now scheme url
      else if str_eq scheme "wss"
      then w.talk now scheme url
      else (false, now)
]

-- An RPC node's status, with the REST API where the RPC fails and there is one.
abbrev or_rest : Wire → String → Reply (ℕ × Bool) × ℕ → Reply (ℕ × Bool) × ℕ
or_rest w api_url (ok status, later) = (ok status, later)
or_rest w api_url (err e, later) =
    if str_eq api_url "" then (err e, later) else check_rest_status w later api_url

unfoldable pub cosmos_status : Wire → ℕ → NodeConfig → Reply (ℕ × Bool) × ℕ
cosmos_status w now node =
    if str_eq (get_metadata node "service_type") "api"
    then check_rest_status w now node.url
    else or_rest w node.api_url (check_rpc_status w now node.url)

abbrev pub after_web_socket : Wire → ℕ → String → ℕ
after_web_socket w now url = if str_eq url "" then now else (check_web_socket_health w now url).1

abbrev pub cosmos_health : Wire → NodeConfig → ℕ → Reply (ℕ × Bool) × ℕ → Reply NodeHealth × ℕ
cosmos_health w node start (err e, now) = (ok (failed_health node start now e), now)
cosmos_health w node start (ok (height, catching_up), now) =
    let later = after_web_socket w now node.websocket_url in
    (ok (found_health node start later height (some catching_up) (not catching_up)), later)

unfoldable pub cosmos_check_health : Wire → ℕ → NodeConfig → Reply NodeHealth × ℕ
cosmos_check_health w now node = cosmos_health w node now (cosmos_status w now node)

abbrev height_alone : Reply (ℕ × Bool) × ℕ → Reply ℕ × ℕ
height_alone (ok (height, catching_up), now) = (ok height, now)
height_alone (err e, now) = (err e, now)

abbrev or_rest_height : Wire → String → Reply (ℕ × Bool) × ℕ → Reply (ℕ × Bool) × ℕ
or_rest_height w url (ok status, later) = (ok status, later)
or_rest_height w url (err e, later) =
    if w.contains url "/cosmos/" then check_rest_status w later url else (err e, later)

unfoldable pub cosmos_get_block_height : Wire → ℕ → String → Reply ℕ × ℕ
cosmos_get_block_height w now url = height_alone (or_rest_height w url (check_rpc_status w now url))
