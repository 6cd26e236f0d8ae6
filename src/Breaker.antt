-- ===== src/Breaker.antt =====
-- circuit_breaker.go, with the `CircuitState` and `CircuitBreaker` of types.go. A method on
-- `*CircuitBreaker` returns the new record. An instant is a number of nanoseconds; an instant
-- given to an operation is what `time.Now()` answers in it. `failureCount` counts up from 0 and is
-- taken not to reach 2^63; the threshold is any `int`.
pub mod Invariant
pub mod Trips
pub mod Recovery
use caddy_blockchain_health.Common.{
  ℕ, ◌+◌, ◌-◌, ◌*◌, ◌^◌, Bool, true, false, ◌&&◌, List, [], ◌∷◌, ltb, if◌then◌else◌,
}
use caddy_blockchain_health.Common.Int.{ℤ, pos, leb_ℤ}

pub data CircuitState : Type 0 where
  circuit_closed circuit_open circuit_half_open : CircuitState

pub record CircuitBreaker : Type 0 where
  pub failure_threshold : ℤ
  pub failure_count : ℕ
  pub last_failure_time : ℕ
  pub state : CircuitState

unfoldable pub new_circuit_breaker : ℤ → CircuitBreaker
new_circuit_breaker failure_threshold = record {
  failure_threshold = failure_threshold;
  failure_count = 0;
  last_failure_time = 0;
  state = circuit_closed;
}

-- 60 * time.Second
abbrev pub cooldown : ℕ
cooldown = 60 * 10 ^ 9

abbrev pub is_open : CircuitState → Bool
is_open circuit_open = true
is_open _ = false

abbrev pub is_half_open : CircuitState → Bool
is_half_open circuit_half_open = true
is_half_open _ = false

-- `time.Since(cb.lastFailureTime) > 60*time.Second`
abbrev pub has_cooled : ℕ → CircuitBreaker → Bool
has_cooled now cb = ltb cooldown (now - cb.last_failure_time)

-- What `CanExecute` decides under its first read lock.
pub data Look : Type 0 where
  answer : Bool → Look
  try_promote : Look

unfoldable pub look : ℕ → CircuitState → CircuitBreaker → Look
look now circuit_closed cb = answer true
look now circuit_open cb = if has_cooled now cb then try_promote else answer false
look now circuit_half_open cb = answer true

-- What it does under the write lock, after the double check.
unfoldable pub promote : ℕ → CircuitBreaker → CircuitBreaker
promote now cb =
    if is_open cb.state && has_cooled now cb then record cb { state = circuit_half_open } else cb

-- `CanExecute` with its three critical sections. `between` and `after` are what other goroutines do
-- to the breaker while no lock is held, before and after the section under the write lock.
unfoldable pub can_execute_among :
    (CircuitBreaker → CircuitBreaker)
    → (CircuitBreaker → CircuitBreaker)
    → ℕ
    → ℕ
    → CircuitBreaker
    → CircuitBreaker × Bool
unfolding look promote
can_execute_among between after now later cb = elim (look now cb.state cb) [
  | answer b ↦ (cb, b)
  | try_promote ↦ let cb' = after (promote later (between cb)) in (cb', is_half_open cb'.state)
]

-- `CanExecute` with no other goroutine at work, at one instant.
unfoldable pub can_execute : ℕ → CircuitBreaker → CircuitBreaker × Bool
unfolding can_execute_among
can_execute now = can_execute_among (λ cb. cb) (λ cb. cb) now now

success_in : CircuitState → CircuitBreaker → CircuitBreaker
success_in circuit_half_open cb = record cb { state = circuit_closed; failure_count = 0 }
success_in circuit_closed cb = record cb { failure_count = 0 }
success_in circuit_open cb = cb

unfoldable pub record_success : CircuitBreaker → CircuitBreaker
unfolding success_in
record_success cb = success_in cb.state cb

-- The `switch` of `RecordFailure`, on the breaker whose count and time are already updated.
failure_in : CircuitState → CircuitBreaker → CircuitBreaker
failure_in circuit_closed cb =
    if leb_ℤ cb.failure_threshold (pos cb.failure_count)
    then record cb { state = circuit_open }
    else cb
failure_in circuit_half_open cb = record cb { state = circuit_open }
failure_in circuit_open cb = cb

unfoldable pub record_failure : ℕ → CircuitBreaker → CircuitBreaker
unfolding failure_in
record_failure now cb =
    failure_in cb.state
      (record cb { failure_count = cb.failure_count + 1; last_failure_time = now })

unfoldable pub get_state : CircuitBreaker → CircuitState
get_state cb = cb.state

unfoldable pub get_failure_count : CircuitBreaker → ℕ
get_failure_count cb = cb.failure_count

-- What callers do to a breaker.
pub data Report : Type 0 where
  succeeded : Report
  failed : ℕ → Report

pub data Event : Type 0 where
  reported : Report → Event
  polled : ℕ → Event

unfoldable pub report : CircuitBreaker → Report → CircuitBreaker
report cb succeeded = record_success cb
report cb (failed now) = record_failure now cb

unfoldable pub report_all : CircuitBreaker → List Report → CircuitBreaker
report_all cb [] = cb
report_all cb (r ∷ rs) = report_all (report cb r) rs

unfoldable pub handle : CircuitBreaker → Event → CircuitBreaker
handle cb (reported r) = report cb r
handle cb (polled now) = (can_execute now cb).0

unfoldable pub handle_all : CircuitBreaker → List Event → CircuitBreaker
handle_all cb [] = cb
handle_all cb (e ∷ es) = handle_all (handle cb e) es
