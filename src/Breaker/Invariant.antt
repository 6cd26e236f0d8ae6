-- ===== src/Breaker/Invariant.antt =====
-- What holds of a circuit breaker between two calls, whatever its callers do.
use caddy_blockchain_health.Common.{ℕ, ◌≡◌, refl, ◌≢◌, arith, List, [], ◌∷◌, suc}
use caddy_blockchain_health.Common.Int.{pos, ◌≤ℤ◌, ◌<ℤ◌}
use caddy_blockchain_health.Breaker.{
  CircuitBreaker, circuit_closed, new_circuit_breaker, can_execute_among, can_execute,
  record_success, record_failure, report, handle, handle_all, Report, succeeded, failed, Event,
  reported, polled, promote, look,
}

-- The threshold is at least 1, and the breaker is closed exactly while the failures counted are below
-- it.
pub record IsConsistent (cb : CircuitBreaker) : Type 0 where
  pub positive : pos 1 ≤ℤ cb.failure_threshold
  pub below : cb.state ≡ circuit_closed → pos cb.failure_count <ℤ cb.failure_threshold
  pub reached : cb.state ≢ circuit_closed → cb.failure_threshold ≤ℤ pos cb.failure_count

pub new-IsConsistent : (k : ℕ) → IsConsistent (new_circuit_breaker (pos (suc k)))
unfolding new_circuit_breaker
new-IsConsistent k = record {
  positive = omega arith;
  below = λ _. omega arith;
  reached = λ h. absurd (h refl);
}

promote-IsConsistent :
    (now : ℕ) (cb : CircuitBreaker) → IsConsistent cb → IsConsistent (promote now cb)
unfolding promote
promote-IsConsistent now cb v = ground arith

report-IsConsistent :
    (cb : CircuitBreaker) (r : Report) → IsConsistent cb → IsConsistent (report cb r)
unfolding report record_success record_failure
report-IsConsistent cb succeeded v = ground arith
report-IsConsistent cb (failed now) v = ground arith

can_execute_among-IsConsistent :
    (between after : CircuitBreaker → CircuitBreaker) (now later : ℕ) (cb : CircuitBreaker)
    → ((c : CircuitBreaker) → IsConsistent c → IsConsistent (between c))
    → ((c : CircuitBreaker) → IsConsistent c → IsConsistent (after c))
    → IsConsistent cb
    → IsConsistent (can_execute_among between after now later cb).0
unfolding can_execute_among look
can_execute_among-IsConsistent between after now later cb hb ha v =
    ground
      (arith, ha (promote later (between cb)), promote-IsConsistent later (between cb), hb cb v)

handle-IsConsistent :
    (cb : CircuitBreaker) (e : Event) → IsConsistent cb → IsConsistent (handle cb e)
unfolding handle can_execute
handle-IsConsistent cb (reported r) v = report-IsConsistent cb r v
handle-IsConsistent cb (polled now) v =
    can_execute_among-IsConsistent (λ c. c) (λ c. c) now now cb (λ c h. h) (λ c h. h) v

from-IsConsistent :
    (cb : CircuitBreaker) (es : List Event) → IsConsistent cb → IsConsistent (handle_all cb es)
unfolding handle_all
from-IsConsistent cb [] v = v
from-IsConsistent cb (e ∷ es) v = from-IsConsistent (handle cb e) es (handle-IsConsistent cb e v)

-- A breaker made with a threshold of at least 1, after any calls in any order, is closed exactly while
-- it counts fewer failures than the threshold. This holds also after one more `CanExecute` during
-- which other goroutines make any calls while no lock is held.
pub handle_all-IsConsistent :
    (k : ℕ) (es between after : List Event) (now later : ℕ)
    → let cb = handle_all (new_circuit_breaker (pos (suc k))) es in
      IsConsistent cb
      × IsConsistent
          (can_execute_among (λ c. handle_all c between) (λ c. handle_all c after) now later cb).0
handle_all-IsConsistent k es between after now later =
    let v = from-IsConsistent (new_circuit_breaker (pos (suc k))) es (new-IsConsistent k) in
    (
      v,
      can_execute_among-IsConsistent (λ c. handle_all c between) (λ c. handle_all c after) now later
          _ (λ c. from-IsConsistent c between) (λ c. from-IsConsistent c after) v,
    )
