-- ===== src/Retry/Names.antt =====
-- The law of the protocol handlers that the checker relies on, and what it gives for the retries.
use caddy_blockchain_health.Common.{
  ℕ, zero, suc, ◌≡◌, refl, Bool, true, false, Option, none, some, String, if◌then◌else◌, str_eq,
  subst, inl, inr, Option-cases,
}
use caddy_blockchain_health.Common.Int.{ℤ, pos_part}
use caddy_blockchain_health.Types.{NodeConfig, NodeHealth}
use caddy_blockchain_health.Types.Protocol.{
  Context, Handlers, ProtocolHandler, Reply, ok, err, select_handler,
}
use caddy_blockchain_health.Retry.{
  Tried, note, is_success, pause, Ended, over, attempts, conclude, check_with_retry,
}

-- What the checker relies on in the protocol handlers: a health record that one returns bears the
-- name of the node that was asked.
abbrev pub ReplyNamed : NodeConfig → Reply NodeHealth → Type 0
ReplyNamed node (ok health) = health.name ≡ node.name
ReplyNamed node (err e) = Unit

pub record KeepsName (handler : ProtocolHandler) : Type 0 where
  pub keeps :
      (ctx : Context) (now : ℕ) (node : NodeConfig)
      → ReplyNamed node (handler.check_health ctx now node).0

pub record HandlersKeepNames (hs : Handlers) : Type 0 where
  pub cosmos : KeepsName hs.cosmos_handler
  pub evm : KeepsName hs.evm_handler
  pub beacon : KeepsName hs.beacon_handler

abbrev SelectedKeeps : Option ProtocolHandler → Type 0
SelectedKeeps none = Unit
SelectedKeeps (some handler) = KeepsName handler

select-KeepsName :
    (hs : Handlers) (type : String) → HandlersKeepNames hs → SelectedKeeps (select_handler hs type)
unfolding select_handler
select-KeepsName hs type law =
    choose (str_eq type "cosmos") (str_eq type "evm") (str_eq type "beacon")
  where
    choose :
        (a b c : Bool)
        → SelectedKeeps (
            if a
            then some hs.cosmos_handler
            else if b
            then some hs.evm_handler
            else if c
            then some hs.beacon_handler
            else none)
    choose true b c = law.cosmos
    choose false true c = law.evm
    choose false false true = law.beacon
    choose false false false = tt

abbrev FoundNamed : NodeConfig → Option NodeHealth → Type 0
FoundNamed node none = Unit
FoundNamed node (some health) = health.name ≡ node.name

conclude_named :
    (node : NodeConfig) (found : Option NodeHealth) (e : Option String) (now : ℕ)
    → FoundNamed node found
    → (conclude node (over (record { last_health = found; last_err = e })) now).name ≡ node.name
unfolding conclude
conclude_named node none e now h = refl
conclude_named node (some health) e now h = h

note_named :
    (node : NodeConfig) (reply : Reply NodeHealth) (tried : Tried)
    → ReplyNamed node reply
    → FoundNamed node tried.last_health
    → FoundNamed node (note reply tried).last_health
unfolding note
note_named node (ok health) tried r h = r
note_named node (err e) tried r h = h

either :
    (node : NodeConfig) (stop : Bool) (tried : Tried) (later : ℕ) (rest : Ended × ℕ)
    → FoundNamed node tried.last_health
    → (conclude node rest.0 rest.1).name ≡ node.name
    → let r = if stop then (over tried, later) else rest in (conclude node r.0 r.1).name ≡ node.name
either node true tried later rest h ih =
    conclude_named node tried.last_health tried.last_err later h
either node false tried later rest h ih = ih

attempts_named :
    (hs : Handlers) (ctx : Context) (node : NodeConfig) (left delay now : ℕ) (tried : Tried)
    → SelectedKeeps (select_handler hs node.type)
    → FoundNamed node tried.last_health
    → let r = attempts hs ctx node left delay now tried in (conclude node r.0 r.1).name ≡ node.name
unfolding attempts
attempts_named hs ctx node zero delay now tried law h =
    conclude_named node tried.last_health tried.last_err now h
attempts_named hs ctx node (suc left) delay now tried law h =
    elim (Option-cases (select_handler hs node.type)) [
      | inl unknown ↦ rw (unknown, attempts) (unfold conclude in refl)
      | inr (handler, known) ↦
          let keeps : KeepsName handler = subst SelectedKeeps known law in
          let reply = (handler.check_health ctx now node).0 in
          let later = (handler.check_health ctx now node).1 in
          let paused = pause ctx left later delay in
          let named = note_named node reply tried (keeps.keeps ctx now node) h in
          rw (known, attempts)
            (either node (is_success reply) (note reply tried) later
              (attempts hs ctx node left paused.1 paused.0 (note reply tried)) named
              (attempts_named hs ctx node left paused.1 paused.0 (note reply tried) law named))
    ]

-- What a check of a node ends with bears the node's name.
pub check_with_retry_named :
    (hs : Handlers) (max_attempts retry_delay : ℤ) (ctx : Context) (node : NodeConfig) (now : ℕ)
    → HandlersKeepNames hs
    → (check_with_retry hs max_attempts retry_delay ctx node now).0.name ≡ node.name
unfolding check_with_retry
check_with_retry_named hs max_attempts retry_delay ctx node now law =
    attempts_named hs ctx node (pos_part max_attempts) (pos_part retry_delay) now
      (record { last_health = none; last_err = none }) (select-KeepsName hs node.type law) tt
