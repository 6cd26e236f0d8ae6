-- ===== src/Tests/Breakers.antt =====
-- The circuit breaker and the cache at concrete histories.
use caddy_blockchain_health.Common.{◌+◌, ◌≡◌, ◌↔◌, refl, arith, true, false, List, [], ◌∷◌, some}
use caddy_blockchain_health.Common.Int.{pos}
use caddy_blockchain_health.Breaker.{
  circuit_closed, circuit_open, circuit_half_open, new_circuit_breaker, report_all, handle_all,
  succeeded, failed, reported, polled, can_execute, record_success, record_failure,
  can_execute_among,
}
use caddy_blockchain_health.Breaker.Invariant.{IsConsistent, handle_all-IsConsistent}
use caddy_blockchain_health.Breaker.Trips.{HasRun, open_iff_run}
use caddy_blockchain_health.Breaker.Recovery.{
  poll_all, open_refuses, open_recovers, closed_may_refuse,
}
use caddy_blockchain_health.Cache
use caddy_blockchain_health.Cache.History.{Write, sets, sweeps, write_all, expected, get-write_all}
use caddy_blockchain_health.Cache.Stats.{stats-remove_expired}
use caddy_blockchain_health.Tests.Data.{opened, warm}

open_iff_run_example :
    ((report_all
        (new_circuit_breaker (pos 2))
        (failed 1 ∷ succeeded ∷ failed 3 ∷ failed 4 ∷ [])).state
      ≡ circuit_open)
    ↔ HasRun 2 (failed 1 ∷ succeeded ∷ failed 3 ∷ failed 4 ∷ [])
open_iff_run_example =
    open_iff_run 2 (failed 1 ∷ succeeded ∷ failed 3 ∷ failed 4 ∷ []) (omega arith)

two_failures_open :
    (report_all
      (new_circuit_breaker (pos 2))
      (failed 1 ∷ succeeded ∷ failed 3 ∷ failed 4 ∷ [])).state
    ≡ circuit_open
two_failures_open =
    (open_iff_run 2 (failed 1 ∷ succeeded ∷ failed 3 ∷ failed 4 ∷ []) (omega arith)).1
      (failed 1 ∷ succeeded ∷ [], 3 ∷ 4 ∷ [], [], refl, refl)

handle_all-IsConsistent_example :
    let cb =
      handle_all
        (new_circuit_breaker (pos 2))
        (reported (failed 1) ∷ reported (failed 2) ∷ polled 9 ∷ []) in
    IsConsistent cb
    × IsConsistent
        (can_execute_among
          (λ c. handle_all c (reported succeeded ∷ []))
          (λ c. handle_all c [])
          99
          99
          cb).0
handle_all-IsConsistent_example =
    handle_all-IsConsistent 1 (reported (failed 1) ∷ reported (failed 2) ∷ polled 9 ∷ [])
      (reported succeeded ∷ []) [] 99 99

open_refuses_example : poll_all opened (6 ∷ 60000000005 ∷ []) ≡ (opened, false ∷ false ∷ [])
open_refuses_example = open_refuses opened (6 ∷ 60000000005 ∷ []) refl (omega arith)

open_recovers_example :
    (can_execute 60000000006 opened ≡ (record opened { state = circuit_half_open }, true))
    × (record_success (can_execute 60000000006 opened).0
        ≡ record opened { state = circuit_closed; failure_count = 0 })
    × ((record_failure 60000000007 (can_execute 60000000006 opened).0).state ≡ circuit_open)
    × ((can_execute 60000000008 (record_failure 60000000007 (can_execute 60000000006 opened).0)).1
        ≡ false)
open_recovers_example =
    open_recovers opened 60000000006 60000000007 60000000008 refl (omega arith) (omega arith)

closed_may_refuse_example :
    let r = can_execute_among (λ c. c) record_success 60000000006 60000000006 opened in
    (r.0.state ≡ circuit_closed) × (r.1 ≡ false)
closed_may_refuse_example = closed_may_refuse opened 60000000006 refl (omega arith)

abbrev history : List Write
history = sweeps 20 ∷ sets 15 "b" 1 ∷ sets 10 "a" 0 ∷ []

get-write_all_example :
    Cache.get 40 "a" (write_all (Cache.new_health_cache 30) history) ≡ expected 30 40 "a" history
get-write_all_example = get-write_all 30 40 "a" history (omega arith)

still_live : Cache.get 40 "a" (write_all (Cache.new_health_cache 30) history) ≡ some 0
unfolding expected
still_live = get-write_all 30 40 "a" history (omega arith)

stats-remove_expired_example :
    ((Cache.get_stats 2000 warm.cache).valid_entries
        + (Cache.get_stats 2000 warm.cache).expired_entries
      ≡ (Cache.get_stats 2000 warm.cache).total_entries)
    × (Cache.size (Cache.remove_expired 2000 warm.cache)
        ≡ (Cache.get_stats 2000 warm.cache).valid_entries)
    × ((Cache.get_stats 2000 (Cache.remove_expired 2000 warm.cache)).expired_entries ≡ 0)
stats-remove_expired_example = stats-remove_expired 2000 warm.cache
