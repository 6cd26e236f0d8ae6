-- ===== src/Upstream/Filter.antt =====
-- Which node may serve a request, and with which upstream: a description of what `GetUpstreams`
-- looks for.
use caddy_blockchain_health.Common.{
  Bool, true, false, not, ◌&&◌, List, [], ◌∷◌, Option, none, some, String, str_eq, if◌then◌else◌,
  cons_some,
}
use caddy_blockchain_health.Common.Int.{ℤ, pos, ltb_ℤ}
use caddy_blockchain_health.Types.{NodeConfig, NodeHealth, Heap, Ref, read, find_node}
use caddy_blockchain_health.Upstream.{Upstream, service_of, weight_of}

-- The health records behind the results.
unfoldable pub records : Heap → List Ref → List NodeHealth
records heap [] = []
records heap (ref ∷ refs) = cons_some (read heap ref) (records heap refs)

-- The upstream of a host: the weight above 1 bounds its requests.
abbrev pub upstream_at : ℤ → Option String → Option Upstream
upstream_at weight none = none
upstream_at weight (some host) =
    if str_eq host ""
    then none
    else some
        (record { dial = host; max_requests = if ltb_ℤ (pos 1) weight then weight else pos 0 })

-- May a node of the service type serve the request? A WebSocket request gets the WebSocket nodes, any
-- other request all the others, and both get a node that the configuration does not know.
abbrev pub serves : Bool → Option NodeConfig → Bool
serves is_websocket none = true
serves true (some node) = str_eq (service_of (some node)) "websocket"
serves false (some node) = not (str_eq (service_of (some node)) "websocket")

-- A healthy node that may serve the request.
abbrev pub fits : List NodeConfig → Bool → NodeHealth → Bool
fits nodes is_websocket health = health.healthy && serves is_websocket (find_node health.name nodes)

-- The upstream of a node, if its URL has a host.
abbrev pub usable : (String → Option String) → List NodeConfig → NodeHealth → Option Upstream
usable parse_host nodes health =
    upstream_at (weight_of (find_node health.name nodes)) (parse_host health.url)

abbrev pub offer : (String → Option String) → List NodeConfig → Bool → NodeHealth → Option Upstream
offer parse_host nodes is_websocket health =
    if fits nodes is_websocket health then usable parse_host nodes health else none
