-- ===== src/Endpoint/Report.antt =====
-- What the health endpoint reports.
use caddy_blockchain_health.Common.{
  ℕ, ◌+◌, ◌≡◌, arith, List, [], ◌∷◌, length, subst, inl, inr, Option-cases, ◌↔◌,
}
use caddy_blockchain_health.Common.Int.{pos, ◌≤ℤ◌}
use caddy_blockchain_health.Types.{NodeConfig, Heap, Ref, read}
use caddy_blockchain_health.Types.Config.{Config}
use caddy_blockchain_health.Metrics.{count_healthy, count_unhealthy}
use caddy_blockchain_health.Checker.{Env, HealthChecker, Turn, checked, check_all_nodes}
use caddy_blockchain_health.Retry.Names.{HandlersKeepNames}
use caddy_blockchain_health.Checker.Names.{IsNamed, CellNamed}
use caddy_blockchain_health.Checker.All.{ResultsNamed, check_all_nodes-IsNamed}
use caddy_blockchain_health.Endpoint.{overall, status_code, Context, build_checked}

counts_total :
    (heap : Heap) (nodes : List NodeConfig) (refs : List Ref)
    → ResultsNamed heap nodes refs
    → count_healthy heap refs + count_unhealthy heap refs ≡ length nodes
unfolding count_healthy count_unhealthy
counts_total heap [] [] h = omega arith
counts_total heap [] (ref ∷ refs) h = absurd h
counts_total heap (node ∷ nodes) [] h = absurd h
counts_total heap (node ∷ nodes) (ref ∷ refs) h = elim (Option-cases (read heap ref)) [
  | inl absent ↦ absurd (subst (CellNamed node.name) absent h.0)
  | inr (health, present) ↦
      rw (present, count_healthy, count_unhealthy)
        (ground (arith, counts_total heap nodes refs h.1))
]

overall_iff :
    (config : Config) (n : ℕ)
    → (status_code (overall config n) ≡ 200) ↔ (config.failure_handling.min_healthy_nodes ≤ℤ pos n)
unfolding overall
overall_iff config n = (λ e. ground arith, λ e. ground arith)

-- A successful check's response counts every configured node once: the healthy and the unhealthy ones
-- add up to the total. The status is healthy, and so the code 200, exactly if the healthy ones reach the
-- required minimum.
pub build_checked-status :
    (env : Env) (ctx : Context) (turns : List Turn) (h h' : HealthChecker) (refs : List Ref)
    → HandlersKeepNames env.handlers
    → IsNamed h
    → check_all_nodes env ctx turns h ≡ checked refs h'
    → let response = (build_checked env ctx refs h').0 in
      (response.nodes.healthy_nodes + response.nodes.unhealthy_nodes ≡ response.nodes.total)
      × ((status_code response.status ≡ 200)
          ↔ (env.config.failure_handling.min_healthy_nodes ≤ℤ pos response.nodes.healthy_nodes))
unfolding build_checked
build_checked-status env ctx turns h h' refs law v e =
    let named = (check_all_nodes-IsNamed env ctx turns h h' refs law v e).0 in
    (
      counts_total h'.heap env.config.nodes refs named,
      overall_iff env.config (count_healthy h'.heap refs),
    )
