-- ===== src/Protocols/Beacon.antt =====
-- handlers.go: `BeaconHandler`.
use Prim.Native.String.{◌++◌ as then_text}
use caddy_blockchain_health.Common.{
  ℕ, ◌==◌, Bool, not, ◌&&◌, ltb, some, String, str_eq, if◌then◌else◌,
}
use caddy_blockchain_health.Types.{NodeConfig, NodeHealth}
use caddy_blockchain_health.Types.Protocol.{Reply, ok, err}
use caddy_blockchain_health.Protocols.{
  Wire, BeaconSyncingResponse, exchange, reword, on_ok, failed_health, found_health,
}

unfoldable pub get_head_slot : Wire → ℕ → String → Reply ℕ × ℕ
get_head_slot w now base_url =
    let (reply, later) =
      exchange w "creating headers request: " "headers request failed: " "headers status " now ""
        (then_text (w.trim_slash base_url) "/eth/v1/beacon/headers/head") in
    (
      on_ok reply (λ body.
          on_ok (reword "decoding headers response: " (w.decode_beacon_header body)) (λ slot.
            if str_eq slot ""
            then err "empty head slot in headers response"
            else reword "parsing head slot: " (w.parse_uint 10 slot))),
      later,
    )

abbrev number_or_zero : Reply ℕ → ℕ
number_or_zero (ok n) = n
number_or_zero (err e) = 0

-- The head slot of the syncing response; 0 if it has none or one that does not parse.
unfoldable pub synced_slot : Wire → BeaconSyncingResponse → ℕ
synced_slot w response =
    if str_eq response.head_slot "" then 0 else number_or_zero (w.parse_uint 10 response.head_slot)

-- The head slot, from the header if the syncing response has none.
unfoldable pub head_slot_of : Wire → ℕ → String → BeaconSyncingResponse → Reply ℕ × ℕ
unfolding synced_slot
head_slot_of w now url response =
    if synced_slot w response == 0
    then get_head_slot w now url
    else (ok (synced_slot w response), now)

abbrev pub beacon_found : NodeConfig → ℕ → Bool → Reply ℕ × ℕ → Reply NodeHealth × ℕ
beacon_found node start syncing (err e, now) = (ok (failed_health node start now e), now)
beacon_found node start syncing (ok slot, now) =
    (ok (found_health node start now slot (some syncing) (not syncing && ltb 0 slot)), now)

abbrev pub beacon_health :
    Wire → NodeConfig → ℕ → Reply BeaconSyncingResponse × ℕ → Reply NodeHealth × ℕ
beacon_health w node start (err e, now) = (ok (failed_health node start now e), now)
beacon_health w node start (ok response, now) =
    beacon_found node start response.is_syncing (head_slot_of w now node.url response)

unfoldable pub beacon_check_health : Wire → ℕ → NodeConfig → Reply NodeHealth × ℕ
beacon_check_health w now node =
    let (reply, later) =
      exchange w "creating syncing request: " "syncing request failed: " "syncing status " now ""
        (then_text (w.trim_slash node.url) "/eth/v1/node/syncing") in
    beacon_health w node now (
      on_ok reply (λ body. reword "decoding syncing response: " (w.decode_beacon_syncing body)),
      later,
    )
