-- ===== src/Upstream.antt =====
-- upstream.go: `GetUpstreams` with `getCachedHealthResults` and `isWebSocketUpgradeRequest`. Caddy's
-- `reverseproxy.Upstream` is the two fields that the code sets. `url.Parse` is a parameter: the host
-- of a URL, or no value where it gives an error. Logging is left out.
pub mod Filter
pub mod Loops
pub mod Offers
pub mod Requests
pub mod Total
use caddy_blockchain_health.Common.{
  ℕ, suc, ◌+◌, ◌*◌, ◌^◌, Bool, true, false, not, ◌&&◌, ◌==◌, List, [], ◌∷◌, ◌++◌, Option, none,
  some, String, str_eq, any, length, if◌then◌else◌,
}
use caddy_blockchain_health.Common.Int.{ℤ, pos, pos_part, ltb_ℤ}
use caddy_blockchain_health.Common.Text.{
  Text, codes, is_empty, text_eq, to_lower, trim_space, split,
}
use caddy_blockchain_health.Types.{NodeConfig, NodeHealth, Heap, Ref, read, find_node, get_metadata}
use caddy_blockchain_health.Types.Config.{Config}
use caddy_blockchain_health.Types.Protocol.{Context}
use caddy_blockchain_health.Cache
use caddy_blockchain_health.Cache.{HealthCache}
use caddy_blockchain_health.Metrics.{Metrics, Labels}
use caddy_blockchain_health.Checker.{
  Env, HealthChecker, Turn, Checked, no_nodes, nil_result, bad_semaphore, checked, check_all_nodes,
}

pub record Upstream : Type 0 where
  pub dial : String
  pub max_requests : ℤ

-- `r.Header.Get` of the two headers that the code reads.
pub record Request : Type 0 where
  pub connection : Text
  pub upgrade : Text

unfoldable pub is_websocket_upgrade_request : Request → Bool
unfolding to_lower trim_space split
is_websocket_upgrade_request r =
    let is_upgrade =
      not (is_empty r.connection)
      && any (λ conn. text_eq (trim_space conn) (codes "upgrade"))
          (split b',' (to_lower r.connection)) in
    is_upgrade && text_eq (to_lower (trim_space r.upgrade)) (codes "websocket")

-- The loop of `getCachedHealthResults`: no results if one node has none.
unfoldable pub cached_results : ℕ → HealthCache → List NodeConfig → Option (List Ref)
cached_results now cache [] = some []
cached_results now cache (node ∷ nodes) = elim (Cache.get now node.name cache) [
  | none ↦ none
  | some ref ↦ elim (cached_results now cache nodes) [ none ↦ none | some refs ↦ some (ref ∷ refs) ]
]

abbrev or_nil : Option (List Ref) → List Ref
or_nil none = []
or_nil (some refs) = refs

unfoldable pub get_cached_health_results : Env → HealthChecker → List Ref
unfolding cached_results
get_cached_health_results env h = or_nil (cached_results h.clock h.cache env.config.nodes)

-- The variables of the loops of `GetUpstreams`, with the exclusions it counts, newest first.
pub record Selection : Type 0 where
  pub upstreams : List Upstream
  pub healthy_count : ℕ
  pub selected_infos : List Labels
  pub excluded : List Labels

unfoldable pub no_selection : Selection
no_selection = record { upstreams = []; healthy_count = 0; selected_infos = []; excluded = [] }

abbrev pub labels : String → String → String → Labels
labels name service_type reason = record {
  node_name = name;
  service_type = service_type;
  reason = reason;
}

-- The service type and the weight of the node behind a result: "" and 1 for an unknown node.
unfoldable pub service_of : Option NodeConfig → String
unfolding get_metadata
service_of none = ""
service_of (some node) = get_metadata node "service_type"

unfoldable pub weight_of : Option NodeConfig → ℤ
weight_of none = pos 1
weight_of (some node) = node.weight

unfoldable pub exclude : NodeHealth → Option NodeConfig → String → Selection → Selection
exclude health node reason s = record s {
  excluded = labels health.name (service_of node) reason ∷ s.excluded;
}

-- The end of a loop's body, from `url.Parse` on, by the host that it gives; `reason` is the label of
-- the selection.
unfoldable pub add_host :
    Option String → NodeHealth → Option NodeConfig → String → Selection → Selection
unfolding exclude
add_host none health node reason s = exclude health node "invalid_url" s
add_host (some host) health node reason s =
    if str_eq host "" then exclude health node "empty_host" s else record s {
      upstreams =
          s.upstreams
          ++ record {
            dial = host;
            max_requests = if ltb_ℤ (pos 1) (weight_of node) then weight_of node else pos 0;
          }
            ∷ [];
      selected_infos = s.selected_infos ++ labels health.name (service_of node) reason ∷ [];
    }

unfoldable pub add_upstream :
    (String → Option String) → NodeHealth → Option NodeConfig → String → Selection → Selection
add_upstream parse_host health node reason = add_host (parse_host health.url) health node reason

-- Why a healthy node is passed over for the request: the filter by service type, which an unknown
-- node passes.
unfoldable pub filtered : Bool → Option NodeConfig → Option String
unfolding service_of
filtered is_websocket none = none
filtered true (some node) =
    if str_eq (service_of (some node)) "websocket" then none else some "filtered_websocket"
filtered false (some node) =
    if str_eq (service_of (some node)) "websocket" then some "filtered_http" else none

-- The body of the first loop for a healthy node, by the outcome of the filter.
unfoldable pub select_healthy :
    (String → Option String)
    → Option String
    → Option NodeConfig
    → NodeHealth
    → Selection
    → Selection
select_healthy parse_host (some reason) node health s = exclude health node reason s
select_healthy parse_host none node health s =
    add_upstream parse_host health node "healthy" (record s { healthy_count = suc s.healthy_count })

-- The body of the first loop.
unfoldable pub select_one :
    (String → Option String) → List NodeConfig → Bool → NodeHealth → Selection → Selection
select_one parse_host nodes is_websocket health s =
    let node = find_node health.name nodes in
    if health.healthy
    then select_healthy parse_host (filtered is_websocket node) node health s
    else exclude health node "unhealthy" s

-- A loop over the results.
unfoldable pub for_results :
    (NodeHealth → Selection → Selection) → Heap → List Ref → Selection → Selection
for_results body heap [] s = s
for_results body heap (ref ∷ refs) s =
    for_results body heap refs (elim (read heap ref) [ none ↦ s | some health ↦ body health s ])

unfoldable pub select_all :
    (String → Option String) → List NodeConfig → Bool → Heap → List Ref → Selection
select_all parse_host nodes is_websocket heap refs =
    for_results (select_one parse_host nodes is_websocket) heap refs no_selection

-- The second loop, over all results, with no filter; the count and the exclusions go on.
unfoldable pub fall_back :
    (String → Option String) → List NodeConfig → Heap → List Ref → Selection → Selection
fall_back parse_host nodes heap refs s =
    for_results
      (λ health. add_upstream parse_host health (find_node health.name nodes) "fallback_all") heap
      refs (record s { upstreams = []; selected_infos = [] })

-- `healthyCount < MinHealthyNodes` and `healthyCount == 0`.
unfoldable pub needs_fallback : Config → Selection → Bool
needs_fallback config s =
    ltb_ℤ (pos s.healthy_count) config.failure_handling.min_healthy_nodes && s.healthy_count == 0

unfoldable pub select_upstreams :
    (String → Option String) → Config → Bool → Heap → List Ref → Selection
select_upstreams parse_host config is_websocket heap refs =
    let s = select_all parse_host config.nodes is_websocket heap refs in
    if needs_fallback config s then fall_back parse_host config.nodes heap refs s else s

pub data Upstreams : Type 0 where
  not_provisioned health_check_failed nil_health check_panicked no_available : Upstreams
  selected : List Upstream → Upstreams

abbrev count_excluded : List Labels → Option Metrics → Option Metrics
count_excluded excluded none = none
count_excluded excluded (some m) =
    some (record m { upstreams_excluded = excluded ++ m.upstreams_excluded })

abbrev count_included : List Labels → Option Metrics → Option Metrics
count_included included none = none
count_included included (some m) =
    some (record m { upstreams_included = included ++ m.upstreams_included })

-- The end of `GetUpstreams`, by the upstreams selected: the exclusions are counted in the loops, the
-- selection only if it is not empty.
unfoldable pub answer_with : List Upstream → Selection → HealthChecker → HealthChecker × Upstreams
answer_with [] s h = (record h { metrics = count_excluded s.excluded h.metrics }, no_available)
answer_with (u ∷ us) s h = (
  record h { metrics = count_included s.selected_infos (count_excluded s.excluded h.metrics) },
  selected (u ∷ us),
)

unfoldable pub answer : Selection → HealthChecker → HealthChecker × Upstreams
unfolding answer_with
answer s h = answer_with s.upstreams s h

unfoldable pub serve :
    (String → Option String) → Env → Request → List Ref → HealthChecker → HealthChecker × Upstreams
serve parse_host env r refs h =
    answer (select_upstreams parse_host env.config (is_websocket_upgrade_request r) h.heap refs) h

-- The timeout of the check at request time: 5 seconds, or the configured one if that is shorter.
unfoldable pub quick_timeout : Env → ℤ
quick_timeout env =
    let five_seconds = pos (5 * 10 ^ 9) in
    if str_eq env.config.health_check.timeout ""
    then five_seconds
    else (elim (env.parse_duration env.config.health_check.timeout) [
      | none ↦ five_seconds
      | some timeout ↦ if ltb_ℤ timeout five_seconds then timeout else five_seconds
    ])

-- `context.WithTimeout(context.Background(), timeout)`
abbrev pub with_timeout : ℕ → ℤ → Context
with_timeout now timeout = record {
  done_at = some (now + pos_part timeout);
  reason = "context deadline exceeded";
}

unfoldable pub serve_checked :
    (String → Option String) → Env → Request → HealthChecker → Checked → HealthChecker × Upstreams
serve_checked parse_host env r h no_nodes = (h, health_check_failed)
serve_checked parse_host env r h nil_result = (h, nil_health)
serve_checked parse_host env r h bad_semaphore = (h, check_panicked)
serve_checked parse_host env r h (checked refs h') = serve parse_host env r refs h'

-- `GetUpstreams` of a provisioned module; the turns are those of the check that it may start.
unfoldable pub get_upstreams_of :
    (String → Option String) → Env → Request → List Turn → HealthChecker → HealthChecker × Upstreams
get_upstreams_of parse_host env r turns h = elim (get_cached_health_results env h) [
  | [] ↦
      serve_checked parse_host env r h
        (check_all_nodes env (with_timeout h.clock (quick_timeout env)) turns h)
  | ref ∷ refs ↦ serve parse_host env r (ref ∷ refs) h
]

-- `GetUpstreams`; the module is not provisioned if it has no checker.
unfoldable pub get_upstreams :
    (String → Option String)
    → Env
    → Request
    → List Turn
    → Option HealthChecker
    → Option HealthChecker × Upstreams
get_upstreams parse_host env r turns none = (none, not_provisioned)
get_upstreams parse_host env r turns (some h) =
    let (h', result) = get_upstreams_of parse_host env r turns h in (some h', result)
