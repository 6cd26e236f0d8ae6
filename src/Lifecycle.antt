-- ===== src/Lifecycle.antt =====
-- upstream.go: `provision`, `validate` with its pass over the environment, `cleanup` and
-- `backgroundHealthCheck` of one module. A module is its exported fields, its internal configuration,
-- and what it holds while it runs. Logging is left out.
pub mod Start
pub mod Panics
pub mod Stop
use caddy_blockchain_health.Common.{
  ℕ, Bool, true, false, not, List, [], ◌∷◌, Option, none, some, String, str_eq, if◌then◌else◌,
  length, ◌==◌,
}
use caddy_blockchain_health.Common.Int.{ℤ, pos, leb_ℤ}
use caddy_blockchain_health.Types.{NodeConfig, ExternalReference}
use caddy_blockchain_health.Types.Config.{Config}
use caddy_blockchain_health.Types.Protocol.{Reply, ok, err}
use caddy_blockchain_health.Settings
use caddy_blockchain_health.Settings.{set_defaults, Invalid, no_nodes}
use caddy_blockchain_health.Environment.{Step, done, broke, process_environment_configuration}
use caddy_blockchain_health.Environment.Nodes.{Host}
use caddy_blockchain_health.Registry.{
  Collector, Prometheus, Globals, acquire_global_metrics, release_global_metrics,
}

-- The channel `shutdown`: nil, open while the background loop runs, or closed.
pub data Channel : Type 0 where
  absent open_channel closed_channel : Channel

-- `cache_duration` is that of the cache the module made, `metrics` what it acquired, and
-- `configured_nodes` what it reported.
pub record Module : Type 0 where
  pub fields : Config
  pub config : Option Config
  pub cache_duration : Option ℤ
  pub metrics : Option (List Collector)
  pub configured_nodes : Option ℕ
  pub shutdown : Channel

pub data Failure : Type 0 where
  environment_failed : String → Failure
  invalid_cache_duration : Failure
  metrics_failed : String → Failure
  invalid : Invalid → Failure

abbrev pub config_after : Step → Config
config_after (done c) = c
config_after (broke e c) = c

-- Nodes and references of a configuration that is there already stand in for missing ones.
unfoldable pub preserved : Option Config → Config → Config
preserved none c = c
preserved (some old) c = record c {
  nodes = if length c.nodes == 0 then old.nodes else c.nodes;
  external_references =
      if length c.external_references == 0 then old.external_references else c.external_references;
}

-- A failure of the environment is an error only under "fail_startup".
unfoldable pub fallback : Step → Option Failure × Config
fallback (done c) = (none, c)
fallback (broke e c) =
    if str_eq c.legacy.fallback_behavior "fail_startup"
    then (some (environment_failed e), c)
    else (none, record c { legacy = record c.legacy { legacy_mode = true } })

-- The internal configuration: made of the fields as they were before the environment, with the
-- nodes and references of those after it, and completed.
unfoldable pub internal_config : Config → Config → Config
internal_config given c =
    set_defaults (record given { nodes = c.nodes; external_references = c.external_references })

module _ {Reg World Url : Type 0} (prometheus : Prometheus Reg World) (host : Host Url)
    (order : List (String × String) → List (String × String))
    (parse_duration : String → Option ℤ) where
  -- `provision` from the initialization of the metrics on, with a duration for the cache.
  unfoldable pub provision_metrics :
      Option Reg
      → ℤ
      → Config
      → Module
      → Globals Reg
      → World
      → Option Failure × (Module × (Globals Reg × World))
  provision_metrics reg duration config m g w =
      let acquired = acquire_global_metrics prometheus reg g w in
      let cached = record m { cache_duration = some duration } in
      elim acquired.0 [
        | err e ↦ (some (metrics_failed e), (cached, acquired.1))
        | ok metrics ↦ (
          none,
          (
            record cached {
              metrics = some metrics;
              configured_nodes = some (length config.nodes);
              shutdown = open_channel;
            },
            acquired.1,
          ),
        )
      ]

  -- The default weights are written to an array that the fields share with the configuration.
  unfoldable pub provision_config :
      Option Reg
      → Config
      → Option Failure × Config
      → Module
      → Globals Reg
      → World
      → Option Failure × (Module × (Globals Reg × World))
  unfolding internal_config provision_metrics
  provision_config reg given (some failure, c) m g w =
      (some failure, (record m { fields = c; config = some given }, (g, w)))
  provision_config reg given (none, c) m g w =
      let config = internal_config given c in
      let ready = record m { fields = record c { nodes = config.nodes }; config = some config } in
      elim (parse_duration config.performance.cache_duration) [
        | none ↦ (some invalid_cache_duration, (ready, (g, w)))
        | some duration ↦ provision_metrics reg duration config ready g w
      ]

  -- `provision`, with the registry of the context, if it has one.
  unfoldable pub provision :
      Option Reg → Module → Globals Reg → World → Option Failure × (Module × (Globals Reg × World))
  unfolding preserved fallback provision_config
  provision reg m g w =
      let given = preserved m.config m.fields in
      provision_config reg given (fallback (process_environment_configuration host order given)) m g
        w

  -- `validate`: the checks of the nodes with those of the environment, which then are taken back.
  unfoldable pub validate : (String → Option String) → Module → Option Failure × Module
  validate parse_host m =
      let step = process_environment_configuration host order m.fields in
      let c = config_after step in
      if length c.nodes == 0
      then (
        elim step [ done d ↦ some (invalid no_nodes) | broke e d ↦ some (environment_failed e) ],
        record m { fields = c },
      )
      else (
        elim (Settings.validate parse_host parse_duration c) [
          | none ↦ none
          | some e ↦ some (invalid e)
        ],
        record m { fields = record c { nodes = m.fields.nodes } },
      )

-- `cleanup`: none is the panic of closing a closed channel.
unfoldable pub close_channel : Channel → Option Channel
close_channel absent = some absent
close_channel open_channel = some closed_channel
close_channel closed_channel = none

unfoldable pub cleanup : {Reg : Type 0} → Module → Globals Reg → Option (Module × Globals Reg)
unfolding close_channel
cleanup m g = elim (close_channel m.shutdown) [
  | none ↦ none
  | some channel ↦ elim m.metrics [
    | none ↦ some (record m { shutdown = channel }, g)
    | some metrics ↦
        some (record m { shutdown = channel; metrics = none }, release_global_metrics g)
  ]
]

-- What the background loop waits for: a tick, and the end.
pub data LoopEvent : Type 0 where
  tick stop : LoopEvent

-- How the loop stands: `NewTicker` has panicked, or it waits, or it has returned.
pub data Loop (S : Type 0) : Type 0 where
  panicked : Loop S
  waiting : S → Loop S
  returned : S → Loop S

-- The `select` in its loop, over the events in their order; `check` is one call of `CheckAllNodes`.
unfoldable pub serve_events : {S : Type 0} → (S → S) → List LoopEvent → S → Loop S
serve_events check [] s = waiting s
serve_events check (tick ∷ events) s = serve_events check events (check s)
serve_events check (stop ∷ events) s = returned s

abbrev pub or_nothing : Option ℤ → ℤ
or_nothing none = pos 0
or_nothing (some z) = z

-- `backgroundHealthCheck`: an interval that does not parse is 0, and `time.NewTicker` panics unless
-- it is positive.
unfoldable pub background_health_check :
    {S : Type 0} → (String → Option ℤ) → (S → S) → Config → List LoopEvent → S → Loop S
unfolding serve_events
background_health_check parse_duration check config events s =
    if leb_ℤ (or_nothing (parse_duration config.health_check.interval)) (pos 0)
    then panicked
    else serve_events check events s
