-- ===== src/Breaker/Trips.antt =====
-- When a breaker that nobody polls is open: exactly after a run of failures of the threshold's
-- length.
use caddy_blockchain_health.Common.{
  ℕ, ◌+◌, ◌≤◌, ◌<◌, ◌≡◌, refl, ap, ◌⊎◌, inl, inr, ◌↔◌, arith, List, [], ◌∷◌, ◌++◌, map, suc, length,
  leb, Bool-cases,
}
use caddy_blockchain_health.Common.Int.{pos}
use caddy_blockchain_health.Breaker.{
  CircuitBreaker, circuit_closed, circuit_open, new_circuit_breaker, record_success, record_failure,
  report, report_all, Report, succeeded, failed,
}

-- Somewhere in the history stand `k` failures in a row.
abbrev pub HasRun : ℕ → List Report → Type 0
HasRun k rs =
    (before : List Report) × (instants : List ℕ) × (after : List Report) × (rs
      ≡ before ++ (map failed instants ++ after))
    × (length instants ≡ k)

-- The history begins with `k` failures.
abbrev pub Begins : ℕ → List Report → Type 0
Begins k rs =
    (instants : List ℕ) × (after : List Report) × (rs ≡ map failed instants ++ after)
    × (length instants ≡ k)

-- A breaker that is closed, with `c` failures counted and the threshold `k`.
record IsCounting (k c : ℕ) (cb : CircuitBreaker) : Type 0 where
  closed : cb.state ≡ circuit_closed
  counted : cb.failure_count ≡ c
  limit : cb.failure_threshold ≡ pos k

success-IsCounting :
    {k c : ℕ} (cb : CircuitBreaker) → IsCounting k c cb → IsCounting k 0 (record_success cb)
unfolding record_success
success-IsCounting cb v = ground arith

failure-IsCounting :
    {k c : ℕ} (cb : CircuitBreaker) (now : ℕ)
    → c + 1 < k
    → IsCounting k c cb
    → IsCounting k (c + 1) (record_failure now cb)
unfolding record_failure
failure-IsCounting cb now h v = ground arith

failure_opens :
    {k c : ℕ} (cb : CircuitBreaker) (now : ℕ)
    → k ≤ c + 1
    → IsCounting k c cb
    → (record_failure now cb).state ≡ circuit_open
unfolding record_failure
failure_opens cb now h v = ground arith

report_open :
    (cb : CircuitBreaker) (r : Report)
    → cb.state ≡ circuit_open
    → (report cb r).state ≡ circuit_open
unfolding report record_success record_failure
report_open cb succeeded h = ground arith
report_open cb (failed now) h = ground arith

report_all_open :
    (cb : CircuitBreaker) (rs : List Report)
    → cb.state ≡ circuit_open
    → (report_all cb rs).state ≡ circuit_open
unfolding report_all
report_all_open cb [] h = h
report_all_open cb (r ∷ rs) h = report_all_open (report cb r) rs (report_open cb r h)

extend_run : (k : ℕ) (r : Report) (rs : List Report) → HasRun k rs → HasRun k (r ∷ rs)
extend_run k r rs (before, instants, after, e, n) = (r ∷ before, instants, after, ap (◌∷◌ r) e, n)

open-HasRun :
    (k c : ℕ) (cb : CircuitBreaker) (rs : List Report)
    → c < k
    → IsCounting k c cb
    → (report_all cb rs).state ≡ circuit_open
    → ((d : ℕ) × (d + c ≡ k) × Begins d rs) ⊎ HasRun k rs
unfolding report_all report
open-HasRun k c cb [] small v h = absurd (cc (v.closed))
open-HasRun k c cb (succeeded ∷ rs) small v h =
    elim (open-HasRun k 0 (record_success cb) rs (omega arith) (success-IsCounting cb v) h) [
      | inl (d, e, (instants, after, same, n)) ↦
          inr (succeeded ∷ [], instants, after, ap (◌∷◌ succeeded) same, omega arith)
      | inr run ↦ inr (extend_run k succeeded rs run)
    ]
open-HasRun k c cb (failed now ∷ rs) small v h = elim (Bool-cases (leb k (c + 1))) [
  | inl full ↦ inl (1, ground arith, (now ∷ [], rs, refl, omega arith))
  | inr room ↦
      elim (open-HasRun k (c + 1) (record_failure now cb) rs (ground arith)
        (failure-IsCounting cb now (ground arith) v) h) [
          | inl (d, e, (instants, after, same, n)) ↦
              inl (
                suc d,
                omega arith,
                (now ∷ instants, after, ap (◌∷◌ (failed now)) same, omega arith),
              )
          | inr run ↦ inr (extend_run k (failed now) rs run)
        ]
]

-- A breaker that is closed or open, and if closed counts fewer failures than its threshold.
IsRunning : ℕ → CircuitBreaker → Type 0
IsRunning k cb = (cb.state ≡ circuit_open) ⊎ ((c : ℕ) × (c < k) × IsCounting k c cb)

report_all-IsRunning :
    (k : ℕ) (cb : CircuitBreaker) (rs : List Report)
    → IsRunning k cb
    → IsRunning k (report_all cb rs)
unfolding report_all report IsRunning
report_all-IsRunning k cb [] v = v
report_all-IsRunning k cb (r ∷ rs) (inl h) =
    inl (report_all_open (report cb r) rs (report_open cb r h))
report_all-IsRunning k cb (succeeded ∷ rs) (inr (c, small, v)) =
    report_all-IsRunning k (record_success cb) rs (inr (0, omega arith, success-IsCounting cb v))
report_all-IsRunning k cb (failed now ∷ rs) (inr (c, small, v)) =
    elim (Bool-cases (leb k (c + 1))) [
      | inl full ↦
          inl (report_all_open (record_failure now cb) rs (failure_opens cb now (ground arith) v))
      | inr room ↦
          report_all-IsRunning k (record_failure now cb) rs
            (inr (c + 1, ground arith, failure-IsCounting cb now (ground arith) v))
    ]

-- Enough failures open a closed breaker, and what follows leaves it open.
run_opens :
    (k c : ℕ) (cb : CircuitBreaker) (instants : List ℕ) (after : List Report)
    → c < k
    → k ≤ length instants + c
    → IsCounting k c cb
    → (report_all cb (map failed instants ++ after)).state ≡ circuit_open
unfolding report_all report
run_opens k c cb [] after small enough v = absurd (omega arith)
run_opens k c cb (now ∷ instants) after small enough v = elim (Bool-cases (leb k (c + 1))) [
  | inl full ↦
      report_all_open (record_failure now cb) (map failed instants ++ after)
        (failure_opens cb now (ground arith) v)
  | inr room ↦
      run_opens k (c + 1) (record_failure now cb) instants after (ground arith) (ground arith)
        (failure-IsCounting cb now (ground arith) v)
]

report_all-append :
    (cb : CircuitBreaker) (rs ss : List Report)
    → report_all cb (rs ++ ss) ≡ report_all (report_all cb rs) ss
unfolding report_all
report_all-append cb [] ss = refl
report_all-append cb (r ∷ rs) ss = report_all-append (report cb r) rs ss

running_opens :
    (k : ℕ) (cb : CircuitBreaker) (instants : List ℕ) (after : List Report)
    → length instants ≡ k
    → IsRunning k cb
    → (report_all cb (map failed instants ++ after)).state ≡ circuit_open
unfolding IsRunning
running_opens k cb instants after n (inl h) = report_all_open cb (map failed instants ++ after) h
running_opens k cb instants after n (inr (c, small, v)) =
    run_opens k c cb instants after small (omega arith) v

new-IsCounting : (k : ℕ) → IsCounting k 0 (new_circuit_breaker (pos k))
unfolding new_circuit_breaker
new-IsCounting k = record { closed = refl; counted = refl; limit = refl }

-- A new breaker with a threshold `k` of at least 1, to which outcomes are reported and which is
-- not polled, is open exactly if `k` failures in a row stand somewhere in its history.
pub open_iff_run :
    (k : ℕ) (rs : List Report)
    → 0 < k
    → ((report_all (new_circuit_breaker (pos k)) rs).state ≡ circuit_open) ↔ HasRun k rs
unfolding IsRunning
open_iff_run k rs h = (forth, back)
  where
    forth : (report_all (new_circuit_breaker (pos k)) rs).state ≡ circuit_open → HasRun k rs
    forth o = elim (open-HasRun k 0 (new_circuit_breaker (pos k)) rs h (new-IsCounting k) o) [
      | inl (d, e, (instants, after, same, n)) ↦ ([], instants, after, same, omega arith)
      | inr run ↦ run
    ]

    back : HasRun k rs → (report_all (new_circuit_breaker (pos k)) rs).state ≡ circuit_open
    back (before, instants, after, e, n) =
        rw
          (e, report_all-append (new_circuit_breaker (pos k)) before (map failed instants ++ after))
          (running_opens k (report_all (new_circuit_breaker (pos k)) before) instants after n (
            report_all-IsRunning k (new_circuit_breaker (pos k)) before
              (inr (0, h, new-IsCounting k))))
