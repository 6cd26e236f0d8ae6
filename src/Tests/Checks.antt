-- ===== src/Tests/Checks.antt =====
-- Checks of the two nodes: block heights, retries, and the whole.
use caddy_blockchain_health.Common.{
  leb, ℕ, zero, suc, ◌<◌, ◌^◌, ◌≡◌, refl, arith, true, List, [], ◌∷◌, none, some, length,
  if◌then◌else◌,
}
use caddy_blockchain_health.Common.Int.{pos}
use caddy_blockchain_health.Common.Dict.{lookup}
use caddy_blockchain_health.Types.{Ref, read}
use caddy_blockchain_health.Types.Config.{breaker_threshold}
use caddy_blockchain_health.Types.Protocol.{select_handler}
use caddy_blockchain_health.Breaker.{new_circuit_breaker, can_execute}
use caddy_blockchain_health.Cache
use caddy_blockchain_health.Heights.{
  max_height, higher, validate_pool, external_height, validate_against_external,
  validate_node_group, validate_block_heights,
}
use caddy_blockchain_health.Heights.Store.{member, update}
use caddy_blockchain_health.Heights.Pool.{
  pool_verdict, read-validate_pool, is_healthy, pool_keeps_leader,
}
use caddy_blockchain_health.Heights.External.{
  external_verdict, read-validate_against_external, traffic_view, external_informational,
}
use caddy_blockchain_health.Heights.Demotion.{HeapDemotes, validate_block_heights-Demotes}
use caddy_blockchain_health.Retry.{check_with_retry}
use caddy_blockchain_health.Retry.Picks.{
  replies, first_success, last_record, last_error, choose, check_with_retry-choose,
}
use caddy_blockchain_health.Checker.{
  HealthChecker, check_single_node, check_uncached, get_circuit_breaker, check_all_nodes, admitted,
  turned_away, checked,
}
use caddy_blockchain_health.Checker.Single.{breaker_of, after, check_single_node_twice}
use caddy_blockchain_health.Retry.Names.{KeepsName, HandlersKeepNames}
use caddy_blockchain_health.Checker.Names.{IsNamed, StepOk, check_single_node-StepOk}
use caddy_blockchain_health.Checker.All.{ResultsNamed, check_all_nodes-IsNamed}
use caddy_blockchain_health.Checker.Turns.{has_turn, check_all_nodes-total}
use caddy_blockchain_health.Tests.Data.{
  config, answering, waking, handlers, waking_handlers, env, background, fresh, warm, two_healths,
  node_a, node_b, reference, up_at,
}

answering-KeepsName : KeepsName answering
answering-KeepsName = record { keeps = λ ctx now node. refl }

pub handlers-KeepNames : HandlersKeepNames handlers
handlers-KeepNames = record {
  cosmos = answering-KeepsName;
  evm = answering-KeepsName;
  beacon = answering-KeepsName;
}

heights_small : max_height 0 (0 ∷ 1 ∷ []) two_healths < 2 ^ 63
unfolding max_height higher
heights_small = omega arith

read-validate_pool_example :
    read (validate_pool config (0 ∷ 1 ∷ []) two_healths) 1
    ≡ update (pool_verdict (max_height 0 (0 ∷ 1 ∷ []) two_healths) 5) (read two_healths 1)
read-validate_pool_example =
    read-validate_pool config (0 ∷ 1 ∷ []) two_healths 1 5 refl (omega arith) heights_small

pool_keeps_leader_example :
    (ref : Ref) × (member ref (0 ∷ 1 ∷ []) ≡ true)
    × (is_healthy (validate_pool config (0 ∷ 1 ∷ []) two_healths) ref ≡ is_healthy two_healths ref)
pool_keeps_leader_example =
    pool_keeps_leader config 0 (1 ∷ []) two_healths 5 refl (omega arith) heights_small

reference_height : (external_height handlers reference 1000).0 ≡ some 104
unfolding external_height select_handler
reference_height = refl

read-validate_against_external_example :
    read (validate_against_external handlers config (0 ∷ 1 ∷ []) reference (two_healths, 1000)).0 1
    ≡ some (external_verdict 104 10 (up_at "b" "http://b:8545" 90))
read-validate_against_external_example =
    read-validate_against_external handlers config (0 ∷ 1 ∷ []) reference two_healths 1000 10 104 1
      (up_at "b" "http://b:8545" 90) refl (omega arith) reference_height (omega arith) refl
      (omega arith)

external_informational_example :
    update traffic_view
      (read (validate_node_group handlers config (0 ∷ 1 ∷ []) "evm" (two_healths, 1000)).0 1)
    ≡ update traffic_view (read (validate_pool config (0 ∷ 1 ∷ []) two_healths) 1)
external_informational_example =
    external_informational handlers config (0 ∷ 1 ∷ []) "evm" two_healths 1000 1

validate_block_heights-Demotes_example :
    HeapDemotes two_healths
      (validate_block_heights handlers config (0 ∷ 1 ∷ []) (two_healths, 1000)).0
validate_block_heights-Demotes_example =
    validate_block_heights-Demotes handlers config (0 ∷ 1 ∷ []) (two_healths, 1000)

check_with_retry-choose_example :
    let rs = replies waking background node_b 3 1 1000 in
    let r = check_with_retry waking_handlers (pos 3) (pos 1) background node_b 1000 in
    r.0 ≡ choose node_b (first_success rs) (last_record none rs) (last_error none rs) r.1
check_with_retry-choose_example =
    check_with_retry-choose waking_handlers waking (pos 3) (pos 1) background node_b 1000
      (unfold select_handler in refl)

fresh_passes : (can_execute 1000 (breaker_of env node_a fresh)).1 ≡ true
unfolding can_execute get_circuit_breaker lookup new_circuit_breaker breaker_threshold
fresh_passes = refl

check_single_node_twice_example :
    let r = check_single_node env background node_a fresh in
    check_single_node env background node_a (after 30 r.0) ≡ (
      if leb 30 fresh.cache.duration
      then (after 30 r.0, r.1)
      else check_uncached env background node_a (after 30 r.0))
check_single_node_twice_example =
    check_single_node_twice env background background node_a fresh 30
      (unfold Cache.get lookup in refl) fresh_passes

warm-IsNamed : IsNamed warm
warm-IsNamed = (refl, (refl, tt))

check_single_node-StepOk_example : StepOk warm "a" (check_single_node env background node_a warm)
check_single_node-StepOk_example =
    check_single_node-StepOk env background node_a warm handlers-KeepNames warm-IsNamed

pub each_has_turn :
    (i : ℕ) → i < length env.config.nodes → has_turn i (admitted 1 ∷ turned_away 0 ∷ []) ≡ true
each_has_turn zero h = refl
each_has_turn (suc zero) h = refl
each_has_turn (suc (suc i)) h = absurd (omega arith)

-- A check of both nodes, with one of them turned away as the context ends.
abbrev pub run :
    (refs : List Ref) × (h' : HealthChecker) × (check_all_nodes env background
        (admitted 1 ∷ turned_away 0 ∷ [])
        fresh
      ≡ checked refs h')
run =
    check_all_nodes-total env background (admitted 1 ∷ turned_away 0 ∷ []) fresh (omega arith) refl
      each_has_turn

check_all_nodes-IsNamed_example : ResultsNamed run.1.heap config.nodes run.0 × IsNamed run.1
check_all_nodes-IsNamed_example =
    check_all_nodes-IsNamed env background (admitted 1 ∷ turned_away 0 ∷ []) fresh run.1 run.0
      handlers-KeepNames tt run.2
