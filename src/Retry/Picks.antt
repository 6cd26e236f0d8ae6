-- ===== src/Retry/Picks.antt =====
-- Which health record the retries end with, by the replies that the node would give to all attempts.
use Prim.Native.String.{◌++◌ as then_text}
use caddy_blockchain_health.Common.{
  ℕ, zero, suc, ◌≡◌, refl, List, [], ◌∷◌, Option, none, some, String, if◌then◌else◌, Bool-cases,
  inl, inr,
}
use caddy_blockchain_health.Common.Int.{ℤ, pos_part}
use caddy_blockchain_health.Types.{NodeConfig, NodeHealth, new_health}
use caddy_blockchain_health.Types.Protocol.{
  Reply, ok, err, ProtocolHandler, Handlers, Context, select_handler,
}
use caddy_blockchain_health.Retry.{
  Tried, note, is_success, pause, Ended, over, attempts, conclude, check_with_retry, show_err,
}

-- The replies to a number of attempts, were none of them to end the loop, and the instant of the
-- last.
pub replies : ProtocolHandler → Context → NodeConfig → ℕ → ℕ → ℕ → List (Reply NodeHealth)
replies handler ctx node zero delay now = []
replies handler ctx node (suc left) delay now =
    let (reply, later) = handler.check_health ctx now node in
    let (next, longer) = pause ctx left later delay in
    reply ∷ replies handler ctx node left longer next

pub first_success : List (Reply NodeHealth) → Option NodeHealth
first_success [] = none
first_success (ok health ∷ rs) =
    let rest = first_success rs in if health.healthy then some health else rest
first_success (err e ∷ rs) = first_success rs

-- The last health record of the replies, and the given one if there is none.
pub last_record : Option NodeHealth → List (Reply NodeHealth) → Option NodeHealth
last_record found [] = found
last_record found (ok health ∷ rs) = last_record (some health) rs
last_record found (err e ∷ rs) = last_record found rs

pub last_error : Option String → List (Reply NodeHealth) → Option String
last_error found [] = found
last_error found (ok health ∷ rs) = last_error found rs
last_error found (err e ∷ rs) = last_error (some e) rs

-- The first healthy record, or else the last record, or else a failure with the last error, at some
-- instant.
abbrev pub choose :
    NodeConfig → Option NodeHealth → Option NodeHealth → Option String → ℕ → NodeHealth
choose node (some health) found e now = health
choose node none (some health) e now = health
choose node none none e now =
    new_health node.name node.url now (then_text "all attempts failed: " (show_err e))

-- The loop's result agrees with the choice among some replies.
abbrev Agrees : NodeConfig → Tried → List (Reply NodeHealth) → Ended × ℕ → Type 0
Agrees node tried rs r =
    conclude node r.0 r.1
    ≡ choose node (first_success rs) (last_record tried.last_health rs)
        (last_error tried.last_err rs) r.1

one_more :
    (node : NodeConfig) (tried : Tried) (reply : Reply NodeHealth) (later : ℕ) (rest : Ended × ℕ)
    (rs : List (Reply NodeHealth))
    → Agrees node (note reply tried) rs rest
    → Agrees node tried
        (reply ∷ rs)
        (if is_success reply then (over (note reply tried), later) else rest)
unfolding note first_success last_record last_error conclude
one_more node tried (err e) later rest rs ih = ih
one_more node tried (ok health) later rest rs ih = elim (Bool-cases health.healthy) [
  | inl up ↦ simp up
  | inr down ↦ simp down ih
]

attempts-choose :
    (hs : Handlers) (handler : ProtocolHandler) (ctx : Context) (node : NodeConfig)
    (left delay now : ℕ) (tried : Tried)
    → select_handler hs node.type ≡ some handler
    → Agrees node tried
        (replies handler ctx node left delay now)
        (attempts hs ctx node left delay now tried)
unfolding attempts replies
attempts-choose hs handler ctx node zero delay now tried e = base tried.last_health tried.last_err
  where
    base :
        (found : Option NodeHealth) (failure : Option String)
        → Agrees node
            (record { last_health = found; last_err = failure })
            []
            (over (record { last_health = found; last_err = failure }), now)
    base none failure = unfold conclude first_success last_record last_error in refl
    base (some health) failure = unfold conclude first_success last_record last_error in refl
attempts-choose hs handler ctx node (suc left) delay now tried e =
    let reply = (handler.check_health ctx now node).0 in
    let later = (handler.check_health ctx now node).1 in
    let longer = (pause ctx left later delay).1 in
    let next = (pause ctx left later delay).0 in
    rw (e, attempts)
      (one_more node tried reply later (attempts hs ctx node left longer next (note reply tried))
        (replies handler ctx node left longer next)
        (attempts-choose hs handler ctx node left longer next (note reply tried) e))

-- For a node of a known type the check with retries ends with the first healthy record among the replies
-- to all attempts, or else with the last record, or else with an unhealthy record that carries the
-- node's name and URL and the last error. An attempt count of 0 or less makes no attempt.
pub check_with_retry-choose :
    (hs : Handlers) (handler : ProtocolHandler) (max_attempts retry_delay : ℤ) (ctx : Context)
    (node : NodeConfig) (now : ℕ)
    → select_handler hs node.type ≡ some handler
    → let rs = replies handler ctx node (pos_part max_attempts) (pos_part retry_delay) now in
      let r = check_with_retry hs max_attempts retry_delay ctx node now in
      r.0 ≡ choose node (first_success rs) (last_record none rs) (last_error none rs) r.1
unfolding check_with_retry
check_with_retry-choose hs handler max_attempts retry_delay ctx node now e =
    attempts-choose hs handler ctx node (pos_part max_attempts) (pos_part retry_delay) now
      (record { last_health = none; last_err = none }) e
