-- ===== src/Retry.antt =====
-- healthchecker.go: `checkWithRetry`. The loop runs over the attempts left. The backoff factor 1.5
-- is exact on `float64` below 2^52 nanoseconds (52 days). A delay below 0 waits as 0 does.
pub mod Picks
pub mod Names
use Prim.Native.String.{◌++◌ as then_text}
use caddy_blockchain_health.Common.{
  ℕ, zero, suc, ◌+◌, ◌*◌, ◌/◌, Bool, true, false, Option, none, some, String, leb, if◌then◌else◌,
}
use caddy_blockchain_health.Common.Int.{ℤ, pos, pos_part}
use caddy_blockchain_health.Types.{NodeConfig, NodeHealth, new_health}
use caddy_blockchain_health.Types.Protocol.{
  Reply, ok, err, ProtocolHandler, Handlers, Context, select_handler,
}

-- `lastHealth` and `lastErr`.
pub record Tried : Type 0 where
  pub last_health : Option NodeHealth
  pub last_err : Option String

unfoldable pub note : Reply NodeHealth → Tried → Tried
note (ok health) tried = record tried { last_health = some health }
note (err e) tried = record tried { last_err = some e }

abbrev pub is_success : Reply NodeHealth → Bool
is_success (ok health) = health.healthy
is_success (err e) = false

-- The `select` between two attempts: the instant at which it is over, and the next delay. Its `break`
-- leaves the `select` alone, so the loop goes on after `ctx.Done()` too. Where both channels are
-- ready Go takes either; from there on both choices wait for no later instant.
unfoldable pub wait_for : Option ℕ → ℕ → ℕ → ℕ × ℕ
wait_for none now delay = (now + delay, delay * 3 / 2)
wait_for (some done) now delay =
    if leb done (now + delay)
    then (if leb done now then now else done, delay)
    else (now + delay, delay * 3 / 2)

-- `if attempt < maxAttempts`, by the number of attempts left.
unfoldable pub pause : Context → ℕ → ℕ → ℕ → ℕ × ℕ
unfolding wait_for
pause ctx zero now delay = (now, delay)
pause ctx (suc left) now delay = wait_for ctx.done_at now delay

-- How the loop ends: it returns from the `default` of its switch, or it is over.
pub data Ended : Type 0 where
  unsupported : Ended
  over : Tried → Ended

unfoldable pub attempts : Handlers → Context → NodeConfig → ℕ → ℕ → ℕ → Tried → Ended × ℕ
attempts hs ctx node zero delay now tried = (over tried, now)
attempts hs ctx node (suc left) delay now tried = elim (select_handler hs node.type) [
  | none ↦ (unsupported, now)
  | some handler ↦
      let (reply, later) = handler.check_health ctx now node in
      let (next, longer) = pause ctx left later delay in
      let rest = attempts hs ctx node left longer next (note reply tried) in
      if is_success reply then (over (note reply tried), later) else rest
]

-- `%v` of an error that may be nil.
abbrev pub show_err : Option String → String
show_err none = "<nil>"
show_err (some e) = e

unfoldable pub conclude : NodeConfig → Ended → ℕ → NodeHealth
conclude node unsupported now =
    new_health node.name node.url now (then_text "unsupported node type: " node.type)
conclude node (over tried) now = elim tried.last_health [
  | some health ↦ health
  | none ↦
      new_health node.name node.url now
        (then_text "all attempts failed: " (show_err tried.last_err))
]

-- `retry_delay` is what `time.ParseDuration` makes of the configured delay, 0 after an error.
unfoldable pub check_with_retry : Handlers → ℤ → ℤ → Context → NodeConfig → ℕ → NodeHealth × ℕ
check_with_retry hs max_attempts retry_delay ctx node now =
    let (ended, later) =
      attempts hs ctx node (pos_part max_attempts) (pos_part retry_delay) now
        (record { last_health = none; last_err = none }) in
    (conclude node ended later, later)
