-- ===== src/Lifecycle/Panics.antt =====
-- upstream.go, cache.go, healthchecker.go: settings that `provision` accepts and that panic later.
use caddy_blockchain_health.Common.{
  ℕ, ◌<◌, ◌≡◌, refl, arith, true, false, List, Option, none, some, String, length, ap, ◌∙◌, sym,
  ◌==◌,
}
use caddy_blockchain_health.Common.Int.{ℤ, pos, negsuc, ltb_ℤ}
use caddy_blockchain_health.Types.Config.{Config, PerformanceConfig}
use caddy_blockchain_health.Types.Protocol.{Handlers, Context}
use caddy_blockchain_health.Settings.{set_defaults, or_default, or_number}
use caddy_blockchain_health.Environment.Nodes.{Host}
use caddy_blockchain_health.Registry.{Prometheus, Globals}
use caddy_blockchain_health.Checker.{Env, HealthChecker, Turn, check_all_nodes, bad_semaphore}
use caddy_blockchain_health.Lifecycle.{Module, preserved, internal_config, provision}
use caddy_blockchain_health.Lifecycle.Start.{provision-config_lem}

negative_stays : (value n : ℤ) → ltb_ℤ n (pos 0) ≡ true → ltb_ℤ (or_number value n) (pos 0) ≡ true
negative_stays value (pos n) h = absurd (ground arith)
negative_stays value (negsuc n) h = ground arith

check_panics :
    (env : Env) (ctx : Context) (turns : List Turn) (h : HealthChecker)
    → 0 < length env.config.nodes
    → ltb_ℤ env.config.performance.max_concurrent_checks (pos 0) ≡ true
    → check_all_nodes env ctx turns h ≡ bad_semaphore
unfolding check_all_nodes
check_panics env ctx turns h some_node negative =
    rw (nonzero (length env.config.nodes) some_node, negative) refl
  where
    nonzero : (n : ℕ) → 0 < n → (n == 0) ≡ false
    nonzero n h = ground arith

module _ {Reg World Url : Type 0} (prometheus : Prometheus Reg World) (host : Host Url)
    (order : List (String × String) → List (String × String))
    (parse_duration : String → Option ℤ) where
  performance_of : Option Config → Option PerformanceConfig
  performance_of none = none
  performance_of (some c) = some c.performance

  preserved_performance :
      (old : Option Config) (c : Config) → (preserved old c).performance ≡ c.performance
  unfolding preserved
  preserved_performance none c = refl
  preserved_performance (some old) c = refl

  -- The settings for performance that the checker works with are those of the module's fields,
  -- completed by the defaults.
  same_performance :
      (reg : Option Reg) (m : Module) (g : Globals Reg) (w : World) (config : Config)
      → (provision prometheus host order parse_duration reg m g w).0 ≡ none
      → (provision prometheus host order parse_duration reg m g w).1.0.config ≡ some config
      → some config.performance ≡ some (set_defaults m.fields).performance
  unfolding internal_config set_defaults performance_of
  same_performance reg m g w config h is =
      ap performance_of
        (sym is ∙ (provision-config_lem prometheus host order parse_duration reg m g w h).1)
      ∙ ap
          (λ (p : PerformanceConfig). some (record {
            cache_duration = or_default "30s" p.cache_duration;
            max_concurrent_checks = or_number (pos 10) p.max_concurrent_checks;
          }))
          (preserved_performance m.config m.fields)

  -- If `provision` succeeds with at least one node and a maximum of concurrent checks below 0, then
  -- every check of all nodes panics, whatever the handlers, the context and the state.
  pub provision-check_panics :
      (reg : Option Reg) (m : Module) (g : Globals Reg) (w : World) (config : Config)
      (handlers : Handlers) (ctx : Context) (turns : List Turn) (checker : HealthChecker)
      → (provision prometheus host order parse_duration reg m g w).0 ≡ none
      → (provision prometheus host order parse_duration reg m g w).1.0.config ≡ some config
      → 0 < length config.nodes
      → ltb_ℤ m.fields.performance.max_concurrent_checks (pos 0) ≡ true
      → check_all_nodes
          (record { config = config; handlers = handlers; parse_duration = parse_duration })
          ctx
          turns
          checker
        ≡ bad_semaphore
  unfolding set_defaults
  provision-check_panics reg m g w config handlers ctx turns checker h is some_node negative =
      check_panics _ ctx turns checker some_node (
        ap (λ n. ltb_ℤ n (pos 0)) (maximum_of (same_performance reg m g w config h is))
        ∙ negative_stays (pos 10) m.fields.performance.max_concurrent_checks negative)
    where
      maximum_of :
          some config.performance ≡ some (set_defaults m.fields).performance
          → config.performance.max_concurrent_checks
            ≡ (set_defaults m.fields).performance.max_concurrent_checks
      maximum_of e = ground (arith, e)
