-- ===== src/Protocols/Replies.antt =====
-- What the three handlers owe to the checker.
use caddy_blockchain_health.Common.{
  ℕ, ◌≡◌, refl, arith, Bool, true, false, not, ◌&&◌, ltb, Option, none, some, String, str_eq,
  if◌then◌else◌, Bool-cases, inl, inr,
}
use Prim.Native.String.{◌++◌ as then_text}
use caddy_blockchain_health.Types.{NodeConfig, NodeHealth, get_metadata}
use caddy_blockchain_health.Types.Protocol.{Reply, ok, err, Handlers, Context}
use caddy_blockchain_health.Retry.Names.{ReplyNamed, HandlersKeepNames}
use caddy_blockchain_health.Protocols.{
  Wire, BeaconSyncingResponse, failed_health, found_health, exchange, on_ok, reword,
}
use caddy_blockchain_health.Protocols.Cosmos.{
  cosmos_health, cosmos_status, cosmos_check_health, cosmos_get_block_height,
}
use caddy_blockchain_health.Protocols.Evm.{
  evm_check_health, evm_get_block_height, websocket_health, http_health, check_websocket_node,
}
use caddy_blockchain_health.Protocols.Beacon.{
  beacon_check_health, get_head_slot, head_slot_of, beacon_found, beacon_health,
}

-- `NewHealthChecker`'s three handlers. How the network answers a call depends on its context: under one
-- that is done a request fails.
unfoldable pub handlers_of : (Context → Wire) → Handlers
handlers_of wire = record {
  cosmos_handler = record {
    check_health = λ ctx. cosmos_check_health (wire ctx);
    get_block_height = λ ctx. cosmos_get_block_height (wire ctx);
  };
  evm_handler = record {
    check_health = λ ctx. evm_check_health (wire ctx);
    get_block_height = λ ctx. evm_get_block_height (wire ctx);
  };
  beacon_handler = record {
    check_health = λ ctx. beacon_check_health (wire ctx);
    get_block_height = λ ctx. get_head_slot (wire ctx);
  };
}

-- What the answers to a check say of a node: nothing, or a height and whether the node is well.
abbrev height_of : Option (ℕ × Bool) → ℕ
height_of none = 0
height_of (some (height, well)) = height

abbrev is_well : Option (ℕ × Bool) → Bool
is_well none = false
is_well (some (height, well)) = well

-- A Cosmos node is well if it is not catching up.
abbrev pub cosmos_answer : Reply (ℕ × Bool) → Option (ℕ × Bool)
cosmos_answer (ok (height, catching_up)) = some (height, not catching_up)
cosmos_answer (err e) = none

-- An EVM node is well if it tells a height, a WebSocket node at the HTTP URL in its metadata.
abbrev pub evm_answer : Reply ℕ → Option (ℕ × Bool)
evm_answer (ok height) = some (height, true)
evm_answer (err e) = none

abbrev pub evm_answered : Wire → ℕ → NodeConfig → Option (ℕ × Bool)
evm_answered w now node =
    if str_eq (get_metadata node "service_type") "websocket"
    then (if str_eq (get_metadata node "http_url") ""
        then none
        else evm_answer (evm_get_block_height w now (get_metadata node "http_url")).0)
    else evm_answer (evm_get_block_height w now node.url).0

-- A Beacon node is well if it is not syncing and its head slot is not 0.
abbrev pub beacon_answer : Bool → Reply ℕ → Option (ℕ × Bool)
beacon_answer syncing (ok slot) = some (slot, not syncing && ltb 0 slot)
beacon_answer syncing (err e) = none

abbrev pub beacon_answered : Wire → NodeConfig → Reply BeaconSyncingResponse × ℕ → Option (ℕ × Bool)
beacon_answered w node (ok response, now) =
    beacon_answer response.is_syncing (head_slot_of w now node.url response).0
beacon_answered w node (err e, now) = none

-- The answer to the first request of a Beacon check.
abbrev pub syncing_reply : Wire → ℕ → NodeConfig → Reply BeaconSyncingResponse × ℕ
syncing_reply w now node =
    let (reply, later) =
      exchange w "creating syncing request: " "syncing request failed: " "syncing status " now ""
        (then_text (w.trim_slash node.url) "/eth/v1/node/syncing") in
    (
      on_ok reply (λ body. reword "decoding syncing response: " (w.decode_beacon_syncing body)),
      later,
    )

-- A record of the node that says what the answers say, and is not healthy if it has an error or says that
-- the node is catching up.
pub record IsReport (node : NodeConfig) (answer : Option (ℕ × Bool)) (health : NodeHealth)
    : Type 0 where
  pub same_name : health.name ≡ node.name
  pub same_url : health.url ≡ node.url
  pub healthy_if_well : health.healthy ≡ is_well answer
  pub same_height : health.block_height ≡ height_of answer
  pub no_error : health.healthy ≡ true → health.last_error ≡ ""
  pub caught_up : health.catching_up ≡ some true → health.healthy ≡ false

abbrev pub Reports : NodeConfig → Option (ℕ × Bool) → Reply NodeHealth → Type 0
Reports node answer (ok health) = IsReport node answer health
Reports node answer (err e) = ⊥

failed-IsReport :
    (node : NodeConfig) (start now : ℕ) (e : String)
    → IsReport node none (failed_health node start now e)
failed-IsReport node start now e = record {
  same_name = refl;
  same_url = refl;
  healthy_if_well = refl;
  same_height = refl;
  no_error = λ h. absurd (cc h);
  caught_up = λ h. refl;
}

found-IsReport :
    (node : NodeConfig) (start now height : ℕ) (catching_up : Option Bool) (well : Bool)
    → (catching_up ≡ some true → well ≡ false)
    → IsReport node (some (height, well)) (found_health node start now height catching_up well)
found-IsReport node start now height catching_up well h = record {
  same_name = refl;
  same_url = refl;
  healthy_if_well = refl;
  same_height = refl;
  no_error = λ up. refl;
  caught_up = h;
}

http-Reports :
    (node : NodeConfig) (start : ℕ) (r : Reply ℕ × ℕ)
    → Reports node (evm_answer r.0) (http_health node start r).0
unfolding http_health
http-Reports node start (err e, now) = failed-IsReport node start now e
http-Reports node start (ok height, now) =
    found-IsReport node start now height none true (λ h. absurd (cc h))

websocket-Reports :
    (node : NodeConfig) (start : ℕ) (r : Reply ℕ × ℕ)
    → Reports node (evm_answer r.0) (websocket_health node start r).0
unfolding websocket_health
websocket-Reports node start (err e, now) = failed-IsReport node start now e
websocket-Reports node start (ok height, now) =
    found-IsReport node start now height none true (λ h. absurd (cc h))

evm_checked :
    (w : Wire) (now : ℕ) (node : NodeConfig)
    → Reports node (evm_answered w now node) (evm_check_health w now node).0
unfolding evm_check_health check_websocket_node
evm_checked w now node = elim (Bool-cases (str_eq (get_metadata node "service_type") "websocket")) [
  | inl socket ↦ elim (Bool-cases (str_eq (get_metadata node "http_url") "")) [
    | inl lacks ↦
        rw (socket, lacks)
          (failed-IsReport node now now
            "no corresponding HTTP URL found for WebSocket node - check evm_servers configuration")
    | inr has ↦
        rw (socket, has)
          (websocket-Reports node now (evm_get_block_height w now (get_metadata node "http_url")))
  ]
  | inr plain ↦ rw plain (http-Reports node now (evm_get_block_height w now node.url))
]

cosmos-Reports :
    (w : Wire) (node : NodeConfig) (start : ℕ) (r : Reply (ℕ × Bool) × ℕ)
    → Reports node (cosmos_answer r.0) (cosmos_health w node start r).0
cosmos-Reports w node start (err e, now) = failed-IsReport node start now e
cosmos-Reports w node start (ok (height, catching_up), now) =
    found-IsReport node start _ height (some catching_up) (not catching_up) (λ h. ground arith)

found-Reports :
    (node : NodeConfig) (start : ℕ) (syncing : Bool) (r : Reply ℕ × ℕ)
    → Reports node (beacon_answer syncing r.0) (beacon_found node start syncing r).0
found-Reports node start syncing (err e, now) = failed-IsReport node start now e
found-Reports node start syncing (ok slot, now) =
    found-IsReport node start now slot (some syncing) (not syncing && ltb 0 slot)
      (λ h. ground arith)

beacon-Reports :
    (w : Wire) (node : NodeConfig) (start : ℕ) (r : Reply BeaconSyncingResponse × ℕ)
    → Reports node (beacon_answered w node r) (beacon_health w node start r).0
beacon-Reports w node start (err e, now) = failed-IsReport node start now e
beacon-Reports w node start (ok response, now) =
    found-Reports node start response.is_syncing (head_slot_of w now node.url response)

-- Whatever the network, the decoders and the parsers answer, `CheckHealth` of each of the three handlers
-- returns no error, but a record with the name and the URL of the node. It is healthy exactly if the
-- answers say that the node is well, and has the height that they tell, or 0 if they tell none: a Cosmos
-- node is well if its status is read and it is not catching up, an EVM node if `GetBlockHeight` succeeds
-- at its URL, or at the HTTP URL in the metadata of a WebSocket node, a Beacon node if it answers, is not
-- syncing and has a head slot above 0. A healthy record has no error text, and one that says that the
-- node is catching up is not healthy.
pub check_health-Reports :
    (wire : Context → Wire) (ctx : Context) (now : ℕ) (node : NodeConfig)
    → let hs = handlers_of wire in
      let w = wire ctx in
      Reports node
        (cosmos_answer (cosmos_status w now node).0)
        (hs.cosmos_handler.check_health ctx now node).0
      × Reports node (evm_answered w now node) (hs.evm_handler.check_health ctx now node).0
      × Reports node
          (beacon_answered w node (syncing_reply w now node))
          (hs.beacon_handler.check_health ctx now node).0
unfolding handlers_of cosmos_check_health beacon_check_health
check_health-Reports wire ctx now node = (
  cosmos-Reports (wire ctx) node now (cosmos_status (wire ctx) now node),
  evm_checked (wire ctx) now node,
  beacon-Reports (wire ctx) node now (syncing_reply (wire ctx) now node),
)

named_report :
    (node : NodeConfig) (answer : Option (ℕ × Bool)) (r : Reply NodeHealth)
    → Reports node answer r
    → ReplyNamed node r
named_report node answer (ok health) h = h.same_name
named_report node answer (err e) h = absurd h

pub handlers_of-KeepNames : (wire : Context → Wire) → HandlersKeepNames (handlers_of wire)
handlers_of-KeepNames wire = record {
  cosmos = record {
    keeps = λ ctx now node. named_report node _ _ (check_health-Reports wire ctx now node).0;
  };
  evm = record {
    keeps = λ ctx now node. named_report node _ _ (check_health-Reports wire ctx now node).1;
  };
  beacon = record {
    keeps = λ ctx now node. named_report node _ _ (check_health-Reports wire ctx now node).2;
  };
}
