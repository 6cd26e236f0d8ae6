-- ===== src/Breaker/Recovery.antt =====
-- How an open breaker comes back: it refuses for the cooldown, lets calls through after it, and the
-- next report decides.
use caddy_blockchain_health.Common.{
  ℕ, ◌+◌, ◌≤◌, ◌<◌, ◌≡◌, refl, arith, List, [], ◌∷◌, Bool, true, false, All, map,
}
use caddy_blockchain_health.Breaker.{
  CircuitBreaker, circuit_closed, circuit_open, circuit_half_open, cooldown, record_success,
  record_failure, can_execute, can_execute_among,
}

-- Poll a breaker at each instant in turn, and gather the answers.
pub poll_all : CircuitBreaker → List ℕ → CircuitBreaker × List Bool
poll_all cb [] = (cb, [])
poll_all cb (now ∷ instants) =
    let (cb', b) = can_execute now cb in let (last, bs) = poll_all cb' instants in (last, b ∷ bs)

refuses :
    (cb : CircuitBreaker) (now : ℕ)
    → cb.state ≡ circuit_open
    → now ≤ cb.last_failure_time + cooldown
    → can_execute now cb ≡ (cb, false)
unfolding can_execute
refuses cb now o early = ground arith

-- An open breaker refuses every call in the 60 seconds after its last failure, however often it is
-- polled, and stays as it is.
pub open_refuses :
    (cb : CircuitBreaker) (instants : List ℕ)
    → cb.state ≡ circuit_open
    → All (λ now. now ≤ cb.last_failure_time + cooldown) instants
    → poll_all cb instants ≡ (cb, map (λ _. false) instants)
unfolding poll_all
open_refuses cb [] o early = refl
open_refuses cb (now ∷ instants) o early =
    rw (refuses cb now o early.0, open_refuses cb instants o early.1)

-- More than 60 seconds after its last failure an open breaker lets a call through and is half open. A
-- success then closes it and clears its count. A failure opens it again, and it refuses a call in the
-- 60 seconds after that failure.
pub open_recovers :
    (cb : CircuitBreaker) (now again later : ℕ)
    → cb.state ≡ circuit_open
    → cb.last_failure_time + cooldown < now
    → later ≤ again + cooldown
    → (can_execute now cb ≡ (record cb { state = circuit_half_open }, true))
      × (record_success (can_execute now cb).0
          ≡ record cb { state = circuit_closed; failure_count = 0 })
      × ((record_failure again (can_execute now cb).0).state ≡ circuit_open)
      × ((can_execute later (record_failure again (can_execute now cb).0)).1 ≡ false)
unfolding can_execute record_success record_failure
open_recovers cb now again later o late soon =
    (ground arith, ground arith, ground arith, ground arith)

-- A call finds an open breaker more than 60 seconds after its last failure. If another goroutine reports
-- a success between the call's section under the write lock and its last read, then the call is
-- refused, by a breaker that is closed.
pub closed_may_refuse :
    (cb : CircuitBreaker) (now : ℕ)
    → cb.state ≡ circuit_open
    → cb.last_failure_time + cooldown < now
    → let r = can_execute_among (λ c. c) record_success now now cb in
      (r.0.state ≡ circuit_closed) × (r.1 ≡ false)
unfolding can_execute_among record_success
closed_may_refuse cb now o late = (ground arith, ground arith)
