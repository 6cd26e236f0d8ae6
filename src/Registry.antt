-- ===== src/Registry.antt =====
-- metrics.go: the collectors, their registration, and the global metrics that the modules share.
-- `prometheus` is the parameter `Prometheus`, over registerers `Reg` and the state `World` of their
-- registries.
pub mod Shared
use caddy_blockchain_health.Common.{
  ℕ, suc, ◌+◌, ◌-◌, ◌≡◌, Bool, true, false, not, ◌||◌, List, [], ◌∷◌, Option, none, some, String,
  if◌then◌else◌, ltb, ◌==◌,
}
use caddy_blockchain_health.Types.Protocol.{Reply, ok, err}

pub data Kind : Type 0 where
  counter gauge histogram counter_vec gauge_vec histogram_vec : Kind

-- A collector by its kind and its name without the namespace; `made` tells the objects apart that
-- have them in common.
pub record Collector : Type 0 where
  pub kind : Kind
  pub name : String
  pub made : ℕ

-- What `Register` answers: nil, an `AlreadyRegisteredError` with the existing collector, or another
-- error.
pub data Registration : Type 0 where
  registered : Registration
  already_registered : Collector → Registration
  refused : String → Registration

pub record Prometheus (Reg World : Type 0) : Type 0 where
  pub register : Reg → Collector → World → Registration × World
  pub unregister : Reg → Collector → World → World
  pub default_registerer : Reg
  pub same : Reg → Reg → Bool

-- Whether the type assertion on a collector of the first kind to the interface or the type of the second
-- succeeds: a gauge has all methods of a counter.
abbrev pub satisfies : Kind → Kind → Bool
satisfies gauge counter = true
satisfies counter counter = true
satisfies gauge gauge = true
satisfies histogram histogram = true
satisfies counter_vec counter_vec = true
satisfies gauge_vec gauge_vec = true
satisfies histogram_vec histogram_vec = true
satisfies _ _ = false

-- What `NewMetrics` makes: its collectors in the order in which they are registered.
unfoldable pub new_collectors : ℕ → List Collector
new_collectors n =
    record { kind = counter; name = "checks_total"; made = n }
    ∷ record { kind = gauge; name = "healthy_nodes"; made = n }
    ∷ record { kind = gauge; name = "unhealthy_nodes"; made = n }
    ∷ record { kind = gauge; name = "configured_nodes"; made = n }
    ∷ record { kind = histogram; name = "check_duration_seconds"; made = n }
    ∷ record { kind = gauge_vec; name = "block_height"; made = n }
    ∷ record { kind = counter_vec; name = "errors_total"; made = n }
    ∷ record { kind = counter_vec; name = "upstreams_included_total"; made = n }
    ∷ record { kind = counter_vec; name = "upstreams_excluded_total"; made = n }
    ∷ []

-- What `NewRequestDeadlineMetrics` makes.
unfoldable pub new_deadline_collectors : ℕ → List Collector
new_deadline_collectors n =
    record { kind = counter_vec; name = "applied_total"; made = n }
    ∷ record { kind = histogram_vec; name = "applied_seconds"; made = n }
    ∷ record { kind = counter_vec; name = "timeouts_total"; made = n }
    ∷ record { kind = histogram_vec; name = "duration_seconds"; made = n }
    ∷ []

-- The variables `globalMetrics`, `globalMetricsRefs` and `globalMetricsRegisterer`, and how many
-- times metrics have been made.
pub record Globals (Reg : Type 0) : Type 0 where
  pub metrics : Option (List Collector)
  pub refs : ℕ
  pub registerer : Option Reg
  pub count : ℕ

-- `rdMetrics` and `requestDeadlineMetricsRegisterer`, and how many times metrics have been made.
pub record DeadlineGlobals (Reg : Type 0) : Type 0 where
  pub metrics : Option (List Collector)
  pub registerer : Option Reg
  pub count : ℕ

-- At the start of the process.
abbrev pub no_globals : {Reg : Type 0} → Globals Reg
no_globals = record { metrics = none; refs = 0; registerer = none; count = 0 }

-- `if globalMetricsRefs > 0 { globalMetricsRefs-- }`, and then the reset at zero.
unfoldable pub release_global_metrics : {Reg : Type 0} → Globals Reg → Globals Reg
release_global_metrics g =
    if g.refs - 1 == 0
    then record g { metrics = none; refs = 0; registerer = none }
    else record g { refs = g.refs - 1 }

module _ {Reg World : Type 0} (prometheus : Prometheus Reg World) where
  -- The collector that a helper for collectors of one kind returns; the kind stands for the type
  -- assertion on the existing collector.
  abbrev pub existing_or : Kind → Collector → Registration → Reply Collector
  existing_or kind c registered = ok c
  existing_or kind c (already_registered e) =
      if satisfies e.kind kind then ok e else err "existing collector of another type"
  existing_or kind c (refused message) = err message

  unfoldable pub register_counter : Reg → Collector → World → Reply Collector × World
  register_counter reg c w =
      (existing_or counter c (prometheus.register reg c w).0, (prometheus.register reg c w).1)

  unfoldable pub register_gauge : Reg → Collector → World → Reply Collector × World
  register_gauge reg c w =
      (existing_or gauge c (prometheus.register reg c w).0, (prometheus.register reg c w).1)

  unfoldable pub register_histogram : Reg → Collector → World → Reply Collector × World
  register_histogram reg c w =
      (existing_or histogram c (prometheus.register reg c w).0, (prometheus.register reg c w).1)

  unfoldable pub register_counter_vec : Reg → Collector → World → Reply Collector × World
  register_counter_vec reg c w =
      (existing_or counter_vec c (prometheus.register reg c w).0, (prometheus.register reg c w).1)

  unfoldable pub register_gauge_vec : Reg → Collector → World → Reply Collector × World
  register_gauge_vec reg c w =
      (existing_or gauge_vec c (prometheus.register reg c w).0, (prometheus.register reg c w).1)

  unfoldable pub register_histogram_vec : Reg → Collector → World → Reply Collector × World
  register_histogram_vec reg c w =
      (existing_or histogram_vec c (prometheus.register reg c w).0, (prometheus.register reg c w).1)

  -- The helper for the kind of a field.
  unfoldable pub register_one : Kind → Reg → Collector → World → Reply Collector × World
  unfolding register_counter register_gauge register_histogram register_counter_vec
      register_gauge_vec register_histogram_vec
  register_one counter = register_counter
  register_one gauge = register_gauge
  register_one histogram = register_histogram
  register_one counter_vec = register_counter_vec
  register_one gauge_vec = register_gauge_vec
  register_one histogram_vec = register_histogram_vec

  -- `registerWith`: each field in turn, up to the first error; an existing collector takes the
  -- place of the one that was made.
  unfoldable pub register_with : Reg → List Collector → World → Reply (List Collector) × World
  unfolding register_one
  register_with reg [] w = (ok [], w)
  register_with reg (c ∷ cs) w =
      let first = register_one c.kind reg c w in
      let rest = register_with reg cs first.1 in
      elim first.0 [
        | err e ↦ (err e, first.1)
        | ok d ↦ elim rest.0 [ err e ↦ (err e, rest.1) | ok ds ↦ (ok (d ∷ ds), rest.1) ]
      ]

  abbrev pub default_of : Option Reg → Reg
  default_of none = prometheus.default_registerer
  default_of (some reg) = reg

  -- `globalMetrics == nil || globalMetricsRegisterer != reg`, when it is false the metrics.
  abbrev pub current : Reg → Option (List Collector) → Option Reg → Option (List Collector)
  current reg none registerer = none
  current reg (some m) none = none
  current reg (some m) (some r) = if prometheus.same r reg then some m else none

  -- The metrics that are made and registered, with a first reference more.
  abbrev pub adopt :
      Reg
      → Globals Reg
      → Reply (List Collector) × World
      → Reply (List Collector) × (Globals Reg × World)
  adopt reg g (err e, w) = (err e, (record g { count = suc g.count }, w))
  adopt reg g (ok m, w) = (
    ok m,
    (record { metrics = some m; refs = suc g.refs; registerer = some reg; count = suc g.count }, w),
  )

  unfoldable pub acquire_global_metrics :
      Option Reg → Globals Reg → World → Reply (List Collector) × (Globals Reg × World)
  unfolding register_with new_collectors
  acquire_global_metrics given g w =
      let reg = default_of given in
      elim (current reg g.metrics g.registerer) [
        | none ↦ adopt reg g (register_with reg (new_collectors g.count) w)
        | some m ↦ (ok m, (record g { refs = suc g.refs }, w))
      ]

  -- The loops of `Register` and `Unregister`, with the default registerer: an error other than that a
  -- collector is registered already ends the first.
  unfoldable pub register_all : List Collector → World → Option String × World
  register_all [] w = (none, w)
  register_all (c ∷ cs) w =
      let answer = prometheus.register prometheus.default_registerer c w in
      let rest = register_all cs answer.1 in
      elim answer.0 [
        | registered ↦ rest
        | already_registered e ↦ rest
        | refused message ↦ (some message, answer.1)
      ]

  unfoldable pub unregister_all : List Collector → World → World
  unregister_all [] w = w
  unregister_all (c ∷ cs) w =
      unregister_all cs (prometheus.unregister prometheus.default_registerer c w)

  -- `acquireRequestDeadlineMetrics`: no references are counted.
  unfoldable pub acquire_request_deadline_metrics :
      Option Reg
      → DeadlineGlobals Reg
      → World
      → Reply (List Collector) × (DeadlineGlobals Reg × World)
  unfolding register_with new_deadline_collectors
  acquire_request_deadline_metrics given g w =
      let reg = default_of given in
      let made = register_with reg (new_deadline_collectors g.count) w in
      elim (current reg g.metrics g.registerer) [
        | some m ↦ (ok m, (g, w))
        | none ↦ elim made.0 [
          | err e ↦ (err e, (record g { count = suc g.count }, made.1))
          | ok m ↦ (
            ok m,
            (record { metrics = some m; registerer = some reg; count = suc g.count }, made.1),
          )
        ]
      ]
