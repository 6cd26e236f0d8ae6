-- ===== src/Metrics.antt =====
-- The `Metrics` of types.go, and what `updateMetrics` of healthchecker.go and `RecordCheckDuration` of
-- metrics.go write to it. A gauge is the integer that the code converts to `float64`; a counter
-- vector is the list of the label values that were counted, newest first.
use caddy_blockchain_health.Common.{
  ℕ, suc, List, [], ◌∷◌, none, some, String, str_eq, if◌then◌else◌,
}
use caddy_blockchain_health.Common.Dict.{insert}
use caddy_blockchain_health.Types.{NodeHealth, Heap, Ref, read}

-- The label values node_name, service_type and reason.
pub record Labels : Type 0 where
  pub node_name : String
  pub service_type : String
  pub reason : String

pub record Metrics : Type 0 where
  pub total_checks : ℕ
  pub healthy_nodes : ℕ
  pub unhealthy_nodes : ℕ
  pub check_duration : List ℕ
  pub block_height_gauge : List (String × ℕ)
  pub error_count : List (String × String)
  pub configured_nodes : ℕ
  pub upstreams_included : List Labels
  pub upstreams_excluded : List Labels

unfoldable pub new_metrics : Metrics
new_metrics = record {
  total_checks = 0;
  healthy_nodes = 0;
  unhealthy_nodes = 0;
  check_duration = [];
  block_height_gauge = [];
  error_count = [];
  configured_nodes = 0;
  upstreams_included = [];
  upstreams_excluded = [];
}

unfoldable pub record_check_duration : ℕ → Metrics → Metrics
record_check_duration duration m = record m { check_duration = duration ∷ m.check_duration }

unfoldable pub increment_total_checks : Metrics → Metrics
increment_total_checks m = record m { total_checks = suc m.total_checks }

unfoldable pub set_healthy_nodes : ℕ → Metrics → Metrics
set_healthy_nodes count m = record m { healthy_nodes = count }

unfoldable pub set_unhealthy_nodes : ℕ → Metrics → Metrics
set_unhealthy_nodes count m = record m { unhealthy_nodes = count }

unfoldable pub set_block_height : String → ℕ → Metrics → Metrics
set_block_height node_name height m = record m {
  block_height_gauge = insert node_name height m.block_height_gauge;
}

unfoldable pub increment_error : String → String → Metrics → Metrics
increment_error node_name error_type m = record m {
  error_count = (node_name, error_type) ∷ m.error_count;
}

-- The two counts of `updateMetrics`, by one pass each.
unfoldable pub count_healthy : Heap → List Ref → ℕ
count_healthy heap [] = 0
count_healthy heap (ref ∷ refs) =
    let rest = count_healthy heap refs in
    elim (read heap ref) [ none ↦ rest | some health ↦ if health.healthy then suc rest else rest ]

unfoldable pub count_unhealthy : Heap → List Ref → ℕ
count_unhealthy heap [] = 0
count_unhealthy heap (ref ∷ refs) =
    let rest = count_unhealthy heap refs in
    elim (read heap ref) [ none ↦ rest | some health ↦ if health.healthy then rest else suc rest ]

-- The metrics of one node.
unfoldable pub update_node : NodeHealth → Metrics → Metrics
update_node health m =
    let m' = record m {
      block_height_gauge = insert health.name health.block_height m.block_height_gauge;
    } in
    if str_eq health.last_error ""
    then m'
    else record m' { error_count = (health.name, "health_check") ∷ m'.error_count }

unfoldable pub update_nodes : Heap → List Ref → Metrics → Metrics
update_nodes heap [] m = m
update_nodes heap (ref ∷ refs) m =
    update_nodes heap refs (elim (read heap ref) [ none ↦ m | some health ↦ update_node health m ])

unfoldable pub update_metrics : Heap → List Ref → Metrics → Metrics
update_metrics heap results m =
    let m' = update_nodes heap results m in
    record m' {
      healthy_nodes = count_healthy heap results;
      unhealthy_nodes = count_unhealthy heap results;
      total_checks = suc m'.total_checks;
    }
