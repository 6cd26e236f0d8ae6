-- ===== src/Lib.antt =====
-- A model of the Caddy module `blockchain_health`, a source of upstreams for the reverse proxy, and of
-- the middleware `request_deadline`.
--
-- The module knows a list of nodes, each of one of three protocols. A health checker probes them
-- through protocol handlers, with retries, a cache and one circuit breaker for each node; it then
-- compares block heights within each chain and with external references. `GetUpstreams` answers a
-- request with the upstreams of the nodes that may serve it, from the cache if it can. A health endpoint
-- reports the same checks. The middleware, which is independent of the rest, puts requests under a
-- deadline by the plan of their sender.
--
-- The parts:
-- - Breaker (circuit_breaker.go, types.go): `CircuitBreaker` with `CanExecute`, `RecordSuccess` and
--   `RecordFailure`. `can_execute_among` has the critical sections of `CanExecute` one by one;
--   `can_execute` is the case that no other goroutine acts between them.
-- - Types, Types/Config, Types/Protocol (types.go): the records of the configuration, `NodeHealth`,
--   the interface `ProtocolHandler`. A `*NodeHealth` is an index into a list of records, `Heap`, since
--   the cache, the results of a check and the groups of a validation share the records and write to
--   them.
-- - Cache (cache.go): `HealthCache`, an association list from node names to references.
-- - Heights (healthchecker.go): `validateBlockHeights`, `validateNodeGroup`,
--   `validateAgainstExternal`. Heights are `uint64` and distances `int64`, with their wrap-around.
-- - Retry (healthchecker.go): `checkWithRetry`, by recursion on the number of attempts left.
-- - Metrics (metrics.go, healthchecker.go): what is recorded, and `updateMetrics`.
-- - Checker (healthchecker.go): `HealthChecker`, `getCircuitBreaker`, `checkSingleNode`,
--   `CheckAllNodes`. A panic of the check is a result of its own.
-- - Upstream (upstream.go): `GetUpstreams`, `getCachedHealthResults`, `isWebSocketUpgradeRequest`.
-- - Endpoint (health_endpoint.go): `ServeHealthEndpoint`, `buildHealthResponse`,
--   `checkExternalReference`.
-- - Deadline (request_deadline.go): `RequestDeadline` with `Provision`, `Validate` and `ServeHTTP`.
--   Deadline/Caddyfile (request_deadline_caddyfile.go): its `UnmarshalCaddyfile`.
-- - Protocols (handlers.go): the handlers for Cosmos, EVM and Beacon nodes, each in a module of its
--   own, over `Wire`, which stands for the network, JSON and the functions on texts and numbers.
-- - Settings (upstream.go): `setDefaults`, and the checks of `validate`.
-- - Caddyfile: what a parser of a Caddyfile is made of, over Caddy's `Dispenser`; rules for its loops
--   (Ends), and token trees with what a loop makes of them (Reads).
-- - Directives (config.go): `parseCaddyfile`, `parseNode` and `parseExternalReference`. Print writes a
--   configuration as a token tree.
-- - Environment (config.go): `processEnvironmentConfiguration` and what it calls. A step is done, or it
--   fails and leaves the module changed as far as it came.
-- - Registry (metrics.go): the collectors, their registration, and the global metrics with their
--   count of references.
-- - Lifecycle (upstream.go): `provision`, `validate`, `cleanup` and `backgroundHealthCheck` of a
--   module.
-- - Common: numbers, lists, association lists and ASCII texts. Tests: the development at concrete
--   inputs.
--
-- Time is a number of nanoseconds that calls pass on: a call of a handler comes back at an instant of
-- its own. The goroutines of `CheckAllNodes` take turns in any order, and a turn is the whole check
-- of one node: checks of nodes with different names touch different entries of the cache and
-- different circuit breakers. The loops of the Caddyfile parser take fuel, since the dispenser ends
-- them; each turn takes a token, so more fuel than there are tokens left is enough, and the parser's
-- theorems prove that. Every other loop is one over a list or a count.
--
-- Parameters are what is not in the repository: `time.ParseDuration`, `url.Parse`, Caddy's
-- replacer, the headers of a request, and the fields of `Wire`, `Dispenser`, `Readers`, `Verbs`,
-- `Host` and `Prometheus`. The checker takes its protocol handlers as an interface, with one law,
-- `HandlersKeepNames`: a record bears the name of the node that was asked. The theorems that rely
-- on it say so. How `Wire` answers depends on the context of a call. The background loop takes one
-- call of `CheckAllNodes` as a function of its state. Laws of parameters that theorems assume: a dispenser has finitely many tokens (`IsFinite`), `strings.Fields` has no
-- empty fields (`SplitsFields`), and printed numbers are read back (`ReadsBack`). Tests has
-- parameters that keep them.
--
-- Not modelled: the registration of the modules with Caddy (plugin.go), the counters of the middleware,
-- logging, JSON.
pub mod Common
pub mod Breaker
pub mod Types
pub mod Heights
pub mod Retry
pub mod Metrics
pub mod Checker
pub mod Upstream
pub mod Deadline
pub mod Endpoint
pub mod Cache
pub mod Settings
pub mod Protocols
pub mod Caddyfile
pub mod Directives
pub mod Environment
pub mod Registry
pub mod Lifecycle
mod Tests
