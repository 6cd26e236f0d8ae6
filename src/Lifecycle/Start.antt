-- ===== src/Lifecycle/Start.antt =====
-- upstream.go: what `provision` gives the checker to work with, and what its background loop does.
use caddy_blockchain_health.Common.{
  ◌≡◌, refl, Bool, true, false, List, ◌++◌, Option, none, some, String, str_eq, if◌then◌else◌, map,
  All, Bool-cases, Option-cases, ap, ◌∙◌, sym, subst, inl, inr,
}
use caddy_blockchain_health.Common.Int.{ℤ, pos, leb_ℤ}
use caddy_blockchain_health.Types.{NodeConfig}
use caddy_blockchain_health.Types.Config.{Config}
use caddy_blockchain_health.Settings.{set_defaults, default_weight, or_default}
use caddy_blockchain_health.Environment.{Step, done, broke, process_environment_configuration}
use caddy_blockchain_health.Environment.Nodes.{Host}
use caddy_blockchain_health.Environment.Types.{IsTyped}
use caddy_blockchain_health.Environment.Adds.{IsGenerated, SplitsFields}
use caddy_blockchain_health.Environment.Provides.{
  Provides, environment_texts, process_environment-Provides,
}
use caddy_blockchain_health.Environment.Servers.{reply_cases}
use caddy_blockchain_health.Registry.{Prometheus, Globals, acquire_global_metrics}
use caddy_blockchain_health.Lifecycle.{
  Module, Failure, config_after, preserved, fallback, internal_config, provision_metrics,
  provision_config, provision, LoopEvent, panicked, or_nothing, background_health_check,
}

-- What the environment provides, however the step ended.
pub after-Provides :
    {Url : Type 0} (host : Host Url) (c : Config) (texts : List String) (step : Step)
    → Provides host c texts step
    → (new : List NodeConfig) × ((config_after step).nodes ≡ c.nodes ++ new)
      × All IsGenerated new
      × ((config_after step).external_references ≡ c.external_references)
after-Provides host c texts (done c') h = (h.0, h.1, h.2, h.3)
after-Provides host c texts (broke e c') h = (h.0, h.1, h.2, h.3)

-- Without an error, the fallback keeps the nodes and the references.
fallback_lem :
    (step : Step)
    → (fallback step).0 ≡ none
    → (fallback step ≡ (none, (fallback step).1))
      × ((fallback step).1.nodes ≡ (config_after step).nodes)
      × ((fallback step).1.external_references ≡ (config_after step).external_references)
unfolding fallback
fallback_lem (done c) h = (refl, refl, refl)
fallback_lem (broke e c) h = elim (Bool-cases (str_eq c.legacy.fallback_behavior "fail_startup")) [
  | inl fails ↦ absurd (cc (subst (λ b. (fallback_of b).0 ≡ none) fails h))
  | inr goes_on ↦ rw (goes_on, fallback) (refl, refl, refl)
]
  where
    fallback_of : Bool → Option Failure × Config
    fallback_of b =
        if b
        then (some (Failure.environment_failed e), c)
        else (none, record c { legacy = record c.legacy { legacy_mode = true } })

module _ {Reg World Url : Type 0} (prometheus : Prometheus Reg World) (host : Host Url)
    (order : List (String × String) → List (String × String))
    (parse_duration : String → Option ℤ) where
  metrics_config :
      (reg : Option Reg) (duration : ℤ) (config : Config) (m : Module) (g : Globals Reg) (w : World)
      → (provision_metrics prometheus host order parse_duration reg duration config m g
          w).1.0.config
        ≡ m.config
  unfolding provision_metrics
  metrics_config reg duration config m g w =
      elim (reply_cases (acquire_global_metrics prometheus reg g w).0) [
        | inl failed ↦ rw (failed.1, provision_metrics) refl
        | inr acquired ↦ rw (acquired.1, provision_metrics) refl
      ]

  provision_config_lem :
      (reg : Option Reg) (given c : Config) (m : Module) (g : Globals Reg) (w : World)
      → (provision_config prometheus host order parse_duration reg given (none, c) m g w).1.0.config
        ≡ some (internal_config given c)
  unfolding provision_config
  provision_config_lem reg given c m g w =
      let config = internal_config given c in
      let ready = record m { fields = record c { nodes = config.nodes }; config = some config } in
      elim (Option-cases (parse_duration config.performance.cache_duration)) [
        | inl unreadable ↦ rw (unreadable, provision_config) refl
        | inr duration ↦
            rw (duration.1, provision_config) (metrics_config reg duration.0 config ready g w)
      ]

  provision_config-fails :
      (reg : Option Reg) (given : Config) (o : Option Failure × Config) (m : Module)
      (g : Globals Reg) (w : World)
      → (provision_config prometheus host order parse_duration reg given o m g w).0 ≡ none
      → o.0 ≡ none
  unfolding provision_config
  provision_config-fails reg given (some failure, c) m g w h = h
  provision_config-fails reg given (none, c) m g w h = refl

  -- The configuration that the checker works with, when provisioning succeeds.
  pub provision-config_lem :
      (reg : Option Reg) (m : Module) (g : Globals Reg) (w : World)
      → (provision prometheus host order parse_duration reg m g w).0 ≡ none
      → let given = preserved m.config m.fields in
        let step = process_environment_configuration host order given in
        ((fallback step).0 ≡ none)
        × ((provision prometheus host order parse_duration reg m g w).1.0.config
            ≡ some (internal_config given (fallback step).1))
  unfolding provision
  provision-config_lem reg m g w h =
      let given = preserved m.config m.fields in
      let step = process_environment_configuration host order given in
      let goes_on = provision_config-fails reg given (fallback step) m g w h in
      (
        goes_on,
        ap
              (λ o.
                (provision_config prometheus host order parse_duration reg given o m g
                  w).1.0.config)
              (fallback_lem step goes_on).0
            ∙ provision_config_lem reg given (fallback step).1 m g w,
      )

  -- If `strings.Fields` gives no empty fields, the node type is empty or known and `provision`
  -- succeeds, then the checker works with the module's own nodes, in their order, and after them
  -- nodes generated from the environment, all with the default weight in place of none; with the
  -- module's own external references; and with the settings of the module's fields, completed by
  -- the defaults. What a chain preset sets does not reach it, nor does the legacy mode that a
  -- failed environment sets.
  pub provision-config :
      (reg : Option Reg) (m : Module) (g : Globals Reg) (w : World)
      → SplitsFields host
      → IsTyped (preserved m.config m.fields)
      → (provision prometheus host order parse_duration reg m g w).0 ≡ none
      → let given = preserved m.config m.fields in
        (config : Config) × ((provision prometheus host order parse_duration reg m g w).1.0.config
          ≡ some config)
        × ((new : List NodeConfig) × (config.nodes ≡ map default_weight (given.nodes ++ new))
            × All IsGenerated new)
        × (config.external_references ≡ given.external_references)
        × (config ≡ record (set_defaults given) {
          nodes = config.nodes;
          external_references = config.external_references;
        })
  unfolding internal_config set_defaults
  provision-config reg m g w splits typed h =
      let given = preserved m.config m.fields in
      let step = process_environment_configuration host order given in
      let found = provision-config_lem reg m g w h in
      let kept = fallback_lem step found.0 in
      let env =
        after-Provides host given (environment_texts host order given) step
          (process_environment-Provides host order given splits typed) in
      (
        internal_config given (fallback step).1,
        found.1,
        (env.0, ap (map default_weight) (kept.1 ∙ env.1), env.2),
        kept.2 ∙ env.3,
        refl,
      )

  preserved_interval :
      (old : Option Config) (c : Config)
      → (preserved old c).health_check.interval ≡ c.health_check.interval
  unfolding preserved
  preserved_interval none c = refl
  preserved_interval (some old) c = refl

  -- If `provision` succeeds and the module's check interval is given, but it does not parse or is not
  -- positive, then the background loop that it started panics, whatever events come.
  pub provision-background_panics :
      {S : Type 0} (reg : Option Reg) (m : Module) (g : Globals Reg) (w : World) (config : Config)
      (check : S → S) (events : List LoopEvent) (s : S)
      → (provision prometheus host order parse_duration reg m g w).0 ≡ none
      → (provision prometheus host order parse_duration reg m g w).1.0.config ≡ some config
      → str_eq m.fields.health_check.interval "" ≡ false
      → leb_ℤ (or_nothing (parse_duration m.fields.health_check.interval)) (pos 0) ≡ true
      → background_health_check parse_duration check config events s ≡ panicked
  unfolding background_health_check internal_config set_defaults
  provision-background_panics reg m g w config check events s h is given small =
      rw (same, small) refl
    where
      completed : Config
      completed =
          internal_config (preserved m.config m.fields)
            (fallback
              (process_environment_configuration host order (preserved m.config m.fields))).1

      interval_of : Option Config → String
      interval_of none = ""
      interval_of (some c) = c.health_check.interval

      kept : completed.health_check.interval ≡ m.fields.health_check.interval
      kept = ap (or_default "15s") (preserved_interval m.config m.fields) ∙ (rw given refl)

      same : config.health_check.interval ≡ m.fields.health_check.interval
      same = ap interval_of (sym is ∙ (provision-config_lem reg m g w h).1) ∙ kept
