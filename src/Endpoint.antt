-- ===== src/Endpoint.antt =====
-- health_endpoint.go: the handler of the health endpoint. Timestamps and the JSON encoding are left out;
-- the map of external references is an association list.
pub mod Report
use caddy_blockchain_health.Common.{
  ℕ, suc, ◌+◌, ◌*◌, ◌^◌, Bool, true, false, List, [], ◌∷◌, ◌++◌, Option, none, some, String, str_eq,
  length, if◌then◌else◌,
}
use Prim.Native.String.{◌++◌ as then_text}
use caddy_blockchain_health.Common.Int.{ℤ, pos, ltb_ℤ}
use caddy_blockchain_health.Common.Dict.{insert}
use caddy_blockchain_health.Types.{Heap, Ref, ExternalReference, node_type_cosmos, node_type_evm}
use caddy_blockchain_health.Types.Config.{Config}
use caddy_blockchain_health.Types.Protocol.{Reply, ok, err, Handlers, Context}
use caddy_blockchain_health.Cache.{CacheStats, get_stats}
use caddy_blockchain_health.Metrics.{count_healthy, count_unhealthy}
use caddy_blockchain_health.Checker.{
  Env, HealthChecker, Turn, Checked, no_nodes, nil_result, bad_semaphore, checked, check_all_nodes,
}

pub data Status : Type 0 where
  healthy unhealthy : Status

pub record NodesStatus : Type 0 where
  pub total : ℕ
  pub healthy_nodes : ℕ
  pub unhealthy_nodes : ℕ

pub record ExternalRefStatus : Type 0 where
  pub reachable : Bool
  pub block_height : ℕ
  pub error : String

pub record HealthEndpointResponse : Type 0 where
  pub status : Status
  pub nodes : NodesStatus
  pub external_references : List (String × ExternalRefStatus)
  pub cache : Option CacheStats

abbrev pub unreachable : String → ExternalRefStatus
unreachable error = record { reachable = false; block_height = 0; error = error }

abbrev pub status_of : Reply ℕ → ExternalRefStatus
status_of (ok height) = record { reachable = true; block_height = height; error = "" }
status_of (err e) = unreachable e

-- `checkExternalReference`: its switch has no case for beacon references.
unfoldable pub check_external_reference :
    Handlers → Context → ExternalReference → ℕ → ExternalRefStatus × ℕ
check_external_reference hs ctx ref now =
    if str_eq ref.type node_type_cosmos
    then (let (reply, later) = hs.cosmos_handler.get_block_height ctx now ref.url in
        (status_of reply, later))
    else if str_eq ref.type node_type_evm
    then (let (reply, later) = hs.evm_handler.get_block_height ctx now ref.url in
        (status_of reply, later))
    else (unreachable (then_text "unsupported type: " ref.type), now)

-- The loop over the enabled external references.
unfoldable pub check_external_references :
    Handlers
    → Context
    → List ExternalReference
    → List (String × ExternalRefStatus)
    → ℕ
    → List (String × ExternalRefStatus) × ℕ
check_external_references hs ctx [] found now = (found, now)
check_external_references hs ctx (ref ∷ refs) found now =
    let (status, later) = check_external_reference hs ctx ref now in
    let (found', now') =
      if ref.enabled then (insert ref.name status found, later) else (found, now) in
    check_external_references hs ctx refs found' now'

unfoldable pub overall : Config → ℕ → Status
overall config healthy_count =
    if ltb_ℤ (pos healthy_count) config.failure_handling.min_healthy_nodes
    then unhealthy
    else healthy

-- `buildHealthResponse` after a check that succeeded.
unfoldable pub build_checked :
    Env → Context → List Ref → HealthChecker → HealthEndpointResponse × HealthChecker
unfolding overall
build_checked env ctx refs h =
    let (found, now) =
      check_external_references env.handlers ctx env.config.external_references [] h.clock in
    (
      record {
        status = overall env.config (count_healthy h.heap refs);
        nodes = record {
          total = length env.config.nodes;
          healthy_nodes = count_healthy h.heap refs;
          unhealthy_nodes = count_unhealthy h.heap refs;
        };
        external_references = found;
        cache = some (get_stats now h.cache);
      },
      record h { clock = now },
    )

-- `buildHealthResponse` after the error of the check.
unfoldable pub build_failed : Env → HealthEndpointResponse
build_failed env = record {
  status = unhealthy;
  nodes = record {
    total = length env.config.nodes;
    healthy_nodes = 0;
    unhealthy_nodes = length env.config.nodes;
  };
  external_references = [];
  cache = none;
}

abbrev build_from :
    Env → Context → HealthChecker → Checked → Option (HealthEndpointResponse × HealthChecker)
build_from env ctx h no_nodes = some (build_failed env, h)
build_from env ctx h nil_result = none
build_from env ctx h bad_semaphore = none
build_from env ctx h (checked refs h') = some (build_checked env ctx refs h')

-- `buildHealthResponse`; none is a panic of the check.
unfoldable pub build_health_response :
    Env → Context → List Turn → HealthChecker → Option (HealthEndpointResponse × HealthChecker)
build_health_response env ctx turns h = build_from env ctx h (check_all_nodes env ctx turns h)

-- What goes over the wire: the status code, and the body unless the code is 405.
pub data Response : Type 0 where
  method_not_allowed : Response
  panicked : Response
  replied : ℕ → HealthEndpointResponse → Response

abbrev pub status_code : Status → ℕ
status_code healthy = 200
status_code unhealthy = 503

unfoldable pub unprovisioned : HealthEndpointResponse
unprovisioned = record {
  status = unhealthy;
  nodes = record { total = 0; healthy_nodes = 0; unhealthy_nodes = 0 };
  external_references = [];
  cache = none;
}

abbrev reply_with :
    HealthChecker
    → Option (HealthEndpointResponse × HealthChecker)
    → Option HealthChecker × Response
reply_with h none = (some h, panicked)
reply_with h (some (response, h')) = (some h', replied (status_code response.status) response)

-- The handler of `ServeHealthEndpoint`; a module that is not provisioned has no checker. The context of
-- a request is done after 10 seconds.
unfoldable pub serve_health_endpoint :
    Env → String → List Turn → Option HealthChecker → Option HealthChecker × Response
unfolding unprovisioned
serve_health_endpoint env method turns none =
    (none, if str_eq method "GET" then replied 503 unprovisioned else method_not_allowed)
serve_health_endpoint env method turns (some h) =
    if str_eq method "GET"
    then reply_with h (
        build_health_response env
          (record { done_at = some (h.clock + 10 * 10 ^ 9); reason = "context deadline exceeded" })
          turns h)
    else (some h, method_not_allowed)
