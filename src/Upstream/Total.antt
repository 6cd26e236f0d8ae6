-- ===== src/Upstream/Total.antt =====
-- `GetUpstreams` comes to an answer, whether the cache is warm or cold.
use caddy_blockchain_health.Common.{
  ℕ, ◌<◌, ◌≡◌, refl, true, false, List, [], ◌∷◌, Option, some, String, length,
}
use caddy_blockchain_health.Common.Int.{pos, ltb_ℤ}
use caddy_blockchain_health.Types.{Ref}
use caddy_blockchain_health.Checker.{Env, HealthChecker, Turn, checked, check_all_nodes}
use caddy_blockchain_health.Checker.Turns.{has_turn, check_all_nodes-total}
use caddy_blockchain_health.Upstream.{
  Request, Upstreams, is_websocket_upgrade_request, serve, serve_checked, quick_timeout,
  with_timeout, get_cached_health_results, get_upstreams_of, get_upstreams,
}
use caddy_blockchain_health.Upstream.Filter.{records}
use caddy_blockchain_health.Upstream.Offers.{offered, answer_of, serve-offered}

-- Where the results of a request come from, by the cached ones: from a check under the request's timeout
-- if there are none, and else they are the cached ones, in the state as it is.
abbrev pub ComesFrom :
    Env → List Turn → HealthChecker → List Ref → List Ref → HealthChecker → Type 0
ComesFrom env turns h [] refs h' =
    check_all_nodes env (with_timeout h.clock (quick_timeout env)) turns h ≡ checked refs h'
ComesFrom env turns h (ref ∷ cached) refs h' = (refs ≡ ref ∷ cached) × (h' ≡ h)

-- With at least one node, a turn for each of them in the check that the request may start, and a maximum
-- of concurrent checks that is not negative, a request to a provisioned module never fails on its health
-- checks. There are results, the cached ones or those of the check, and the answer is by one filter
-- over their records: the upstreams of the healthy nodes of the right service type, or those of all
-- nodes if there is no such node and one is required, or the error that none is available if that
-- leaves nothing.
pub get_upstreams-offered :
    (parse_host : String → Option String) (env : Env) (r : Request) (turns : List Turn)
    (h : HealthChecker)
    → 0 < length env.config.nodes
    → ltb_ℤ env.config.performance.max_concurrent_checks (pos 0) ≡ false
    → ((i : ℕ) → i < length env.config.nodes → has_turn i turns ≡ true)
    → (refs : List Ref) × (h' : HealthChecker) × ComesFrom env turns h
        (get_cached_health_results env h)
        refs
        h'
      × ((get_upstreams parse_host env r turns (some h)).1
          ≡ answer_of (
              offered parse_host env.config
                (is_websocket_upgrade_request r)
                (records h'.heap refs)))
unfolding get_upstreams get_upstreams_of serve_checked
get_upstreams-offered parse_host env r turns h some_node semaphore each =
    by_cache (get_cached_health_results env h)
  where
    by_cache :
        (cached : List Ref)
        → (refs : List Ref) × (h' : HealthChecker) × ComesFrom env turns h cached refs h'
          × ((elim cached as (λ _. HealthChecker × Upstreams) [
            | [] ↦
                serve_checked parse_host env r h
                  (check_all_nodes env (with_timeout h.clock (quick_timeout env)) turns h)
            | ref ∷ refs ↦ serve parse_host env r (ref ∷ refs) h
          ]).1
              ≡ answer_of (
                  offered parse_host env.config
                    (is_websocket_upgrade_request r)
                    (records h'.heap refs)))
    by_cache [] =
        let (refs, h', e) =
          check_all_nodes-total env (with_timeout h.clock (quick_timeout env)) turns h some_node
            semaphore each in
        (refs, h', e, rw e (serve-offered parse_host env r refs h'))
    by_cache (ref ∷ refs) =
        (ref ∷ refs, h, (refl, refl), serve-offered parse_host env r (ref ∷ refs) h)
