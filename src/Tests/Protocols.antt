-- ===== src/Tests/Protocols.antt =====
-- The handlers on a network where every request is answered.
use caddy_blockchain_health.Common.{
  [], ◌∷◌, ◌+◌, ◌≡◌, refl, true, false, none, some, str_eq, if◌then◌else◌,
}
use caddy_blockchain_health.Types.{NodeConfig, get_metadata}
use caddy_blockchain_health.Common.Dict.{lookup}
use caddy_blockchain_health.Types.Protocol.{ok, err, Context, is_done}
use caddy_blockchain_health.Protocols.{Wire, exchange}
use caddy_blockchain_health.Protocols.Evm.{evm_check_health, evm_get_block_height, height_in}
use caddy_blockchain_health.Protocols.Replies.{
  handlers_of, Reports, check_health-Reports, cosmos_answer, evm_answered, beacon_answered,
  syncing_reply,
}
use caddy_blockchain_health.Protocols.Cosmos.{cosmos_status}
use caddy_blockchain_health.Protocols.WebSocket.{made_out_to, evm_check_health-websocket}
use caddy_blockchain_health.Tests.Data.{node_a, up_at, background}

abbrev wire : Wire
wire = record {
  request_error = λ url. none;
  do_request = λ now body url. (ok (record { status_code = 200; body = "0x64" }), now + 2);
  talk = λ now scheme url. (true, now);
  decode_status = λ body. ok (record { latest_block_height = "100"; catching_up = false });
  decode_syncing = λ body. ok false;
  decode_block = λ body. ok "100";
  decode_rpc = λ body. ok (record { result = some body; error = none });
  decode_beacon_syncing = λ body. ok (record { is_syncing = false; head_slot = "" });
  decode_beacon_header = λ body. ok "100";
  parse_uint = λ base text. if str_eq text "" then err "invalid syntax" else ok 100;
  parse_scheme = λ url. some "ws";
  trim_slash = λ url. url;
  trim_0x = λ text. text;
  contains = λ text part. false;
  show = λ n. "";
  rpc_request = "";
}

-- A network on which a request under a context that is done at its instant fails.
abbrev network : Context → Wire
network ctx = record wire {
  do_request = λ now body url.
      if is_done ctx now then (err ctx.reason, now) else wire.do_request now body url;
}

check_health-Reports_example :
    let hs = handlers_of network in
    let w = network background in
    Reports node_a
      (cosmos_answer (cosmos_status w 1000 node_a).0)
      (hs.cosmos_handler.check_health background 1000 node_a).0
    × Reports node_a
        (evm_answered w 1000 node_a)
        (hs.evm_handler.check_health background 1000 node_a).0
    × Reports node_a
        (beacon_answered w node_a (syncing_reply w 1000 node_a))
        (hs.beacon_handler.check_health background 1000 node_a).0
check_health-Reports_example = check_health-Reports network background 1000 node_a

found :
    evm_check_health wire 1000 node_a
    ≡ (ok (record (up_at "a" "http://a:8545" 100) { last_check = 1000; response_time = 2 }), 1002)
unfolding evm_check_health evm_get_block_height height_in exchange get_metadata lookup
found = refl

-- A WebSocket node with the HTTP URL of node a.
abbrev socket : NodeConfig
socket = record node_a {
  name = "ws";
  url = "ws://a:8546";
  metadata = ("service_type", "websocket") ∷ ("http_url", "http://a:8545") ∷ [];
}

evm_check_health-websocket_example :
    evm_check_health wire 1000 socket ≡ made_out_to socket (evm_check_health wire 1000 node_a)
evm_check_health-websocket_example =
    evm_check_health-websocket wire 1000 socket node_a (unfold get_metadata lookup in refl)
      (unfold get_metadata lookup in refl) (unfold get_metadata lookup in refl)
      (unfold get_metadata lookup in refl)
