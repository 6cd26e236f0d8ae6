-- ===== src/Lifecycle/Stop.antt =====
-- upstream.go: `cleanup` gives back what `provision` took, and `validate` takes back its nodes.
use caddy_blockchain_health.Common.{
  ℕ, ◌-◌, ◌≡◌, refl, arith, true, List, [], ◌∷◌, ◌++◌, Option, none, some, String, length, ◌==◌,
  Bool-cases, Option-cases, ap, ◌∙◌, sym, inl, inr,
}
use caddy_blockchain_health.Common.Int.{ℤ}
use caddy_blockchain_health.Types.{NodeConfig}
use caddy_blockchain_health.Types.Config.{Config}
use caddy_blockchain_health.Environment.{process_environment_configuration}
use caddy_blockchain_health.Environment.Nodes.{Host}
use caddy_blockchain_health.Environment.Types.{IsTyped}
use caddy_blockchain_health.Environment.Adds.{SplitsFields}
use caddy_blockchain_health.Environment.Servers.{reply_cases}
use caddy_blockchain_health.Environment.Provides.{environment_texts, process_environment-Provides}
use caddy_blockchain_health.Registry.{
  Prometheus, Globals, acquire_global_metrics, release_global_metrics,
}
use caddy_blockchain_health.Registry.Shared.{refs_after, acquire-refs, release-refs}
use caddy_blockchain_health.Lifecycle
use caddy_blockchain_health.Lifecycle.{
  Module, Channel, absent, open_channel, closed_channel, Failure, config_after, preserved, fallback,
  internal_config, provision_metrics, provision_config, provision, close_channel, cleanup,
}
use caddy_blockchain_health.Lifecycle.Start.{after-Provides}

-- Cleaning up the module ends with no metrics held, and with this number of references.
abbrev pub Balances : {Reg : Type 0} → ℕ → Module → Globals Reg → Type 0
Balances n m g =
    (m' : Module) × (g' : Globals _) × (cleanup m g ≡ some (m', g'))
    × (m'.metrics ≡ none)
    × (g'.refs ≡ n)

idle-Balances :
    {Reg : Type 0} (m : Module) (g : Globals Reg) (n : ℕ)
    → m.shutdown ≡ absent
    → m.metrics ≡ none
    → g.refs ≡ n
    → Balances n m g
unfolding cleanup close_channel
idle-Balances m g n off idle same = (
  record m { metrics = none; shutdown = absent },
  g,
  rw (off, idle, cleanup)
      (ap (λ held. some (record m { metrics = held; shutdown = absent }, g)) idle),
  refl,
  same,
)

module _ {Reg World Url : Type 0} (prometheus : Prometheus Reg World) (host : Host Url)
    (order : List (String × String) → List (String × String))
    (parse_duration : String → Option ℤ) where
  metrics-Balances :
      (reg : Option Reg) (duration : ℤ) (config : Config) (m : Module) (g : Globals Reg) (w : World)
      → m.shutdown ≡ absent
      → m.metrics ≡ none
      → let r = provision_metrics prometheus host order parse_duration reg duration config m g w in
        Balances g.refs r.1.0 r.1.1.0
  unfolding provision_metrics
  metrics-Balances reg duration config m g w off idle =
      let acquired = acquire_global_metrics prometheus reg g w in
      elim (reply_cases acquired.0) [
        | inl failed ↦
            rw (failed.1, provision_metrics)
              (idle-Balances (record m { cache_duration = some duration }) acquired.1.0 g.refs off
                idle
                (acquire-refs prometheus reg g w
                  ∙ ap (λ r. refs_after prometheus r g.refs) failed.1))
        | inr taken ↦
            rw (taken.1, provision_metrics)
              (
                record m {
                  cache_duration = some duration;
                  metrics = none;
                  configured_nodes = some (length config.nodes);
                  shutdown = closed_channel;
                },
                release_global_metrics acquired.1.0,
                (unfold cleanup close_channel in refl),
                refl,
                release-refs acquired.1.0
                    ∙ ap (λ n. n - 1)
                        (acquire-refs prometheus reg g w
                          ∙ ap (λ r. refs_after prometheus r g.refs) taken.1)
                    ∙ omega arith,
              )
      ]

  config-Balances :
      (reg : Option Reg) (given : Config) (o : Option Failure × Config) (m : Module)
      (g : Globals Reg) (w : World)
      → m.shutdown ≡ absent
      → m.metrics ≡ none
      → let r = provision_config prometheus host order parse_duration reg given o m g w in
        Balances g.refs r.1.0 r.1.1.0
  unfolding provision_config
  config-Balances reg given (some failure, c) m g w off idle =
      idle-Balances (record m { fields = c; config = some given }) g g.refs off idle refl
  config-Balances reg given (none, c) m g w off idle =
      let config = internal_config given c in
      let ready = record m { fields = record c { nodes = config.nodes }; config = some config } in
      elim (Option-cases (parse_duration config.performance.cache_duration)) [
        | inl unreadable ↦
            rw (unreadable, provision_config) (idle-Balances ready g g.refs off idle refl)
        | inr duration ↦
            rw (duration.1, provision_config)
              (metrics-Balances reg duration.0 config ready g w off idle)
      ]

  -- A module that does not run and holds no metrics: after `provision`, whether it succeeds or
  -- fails at any step, one `cleanup` does not panic, leaves the module without metrics, and gives
  -- the global metrics as many references as they had before.
  pub provision-cleanup :
      (reg : Option Reg) (m : Module) (g : Globals Reg) (w : World)
      → m.shutdown ≡ absent
      → m.metrics ≡ none
      → let r = provision prometheus host order parse_duration reg m g w in
        Balances g.refs r.1.0 r.1.1.0
  unfolding provision
  provision-cleanup reg m g w off idle =
      let given = preserved m.config m.fields in
      config-Balances reg given (fallback (process_environment_configuration host order given)) m g
        w off idle

  append_empty : (xs ys zs : List NodeConfig) → zs ≡ xs ++ ys → (length zs == 0) ≡ true → zs ≡ xs
  append_empty [] [] zs e h = e
  append_empty [] (y ∷ ys) zs e h = absurd (grind (arith, ap (λ l. length l == 0) (sym e) ∙ h))
  append_empty (x ∷ xs) ys zs e h = absurd (grind (arith, ap (λ l. length l == 0) (sym e) ∙ h))

  -- If `strings.Fields` gives no empty fields and the node type is empty or known, `validate`
  -- leaves the module with the nodes and the external references it had, whether it accepts the
  -- module or not.
  pub validate-nodes :
      (parse_host : String → Option String) (m : Module)
      → SplitsFields host
      → IsTyped m.fields
      → let fields =
          (Lifecycle.validate prometheus host order parse_duration parse_host m).1.fields in
        (fields.nodes ≡ m.fields.nodes)
        × (fields.external_references ≡ m.fields.external_references)
  unfolding Lifecycle.validate
  validate-nodes parse_host m splits typed =
      let step = process_environment_configuration host order m.fields in
      let env =
        after-Provides host m.fields (environment_texts host order m.fields) step
          (process_environment-Provides host order m.fields splits typed) in
      elim (Bool-cases (length (config_after step).nodes == 0)) [
        | inl empty ↦
            rw (empty, Lifecycle.validate)
              (append_empty m.fields.nodes env.0 (config_after step).nodes env.1 empty, env.3)
        | inr nodes_given ↦ rw (nodes_given, Lifecycle.validate) (refl, env.3)
      ]
