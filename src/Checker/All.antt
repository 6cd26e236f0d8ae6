-- ===== src/Checker/All.antt =====
-- The check of all nodes: every result is there, and is a record of the node at its place.
use caddy_blockchain_health.Common.{
  ℕ, zero, suc, ◌≡◌, arith, Bool, true, false, List, [], ◌∷◌, Option, none, some, String, length,
  get_elem?, set, replicate, if◌then◌else◌, ◌∙◌, subst, inl, inr, Option-cases, ◌==◌,
}
use caddy_blockchain_health.Common.Int.{pos, ltb_ℤ}
use caddy_blockchain_health.Types.{NodeConfig, NodeHealth, Heap, Ref, read, new_health}
use caddy_blockchain_health.Types.Protocol.{Context}
use caddy_blockchain_health.Cache.{CacheEntry}
use caddy_blockchain_health.Heights.{validate_block_heights}
use caddy_blockchain_health.Heights.Demotion.{
  HeapDemotes, CellDemotes, validate_block_heights-Demotes,
}
use caddy_blockchain_health.Checker.{
  no_nodes, nil_result, bad_semaphore, finish_or_panic, cons_ref, no_nodes, Env, HealthChecker,
  check_single_node, alloc_health, Turn, admitted, turned_away, take_turn, take_turns, all_filled,
  finish_check, check_all_nodes, Checked, checked,
}
use caddy_blockchain_health.Retry.Names.{HandlersKeepNames}
use caddy_blockchain_health.Checker.Names.{
  CellNamed, Named, EntriesNamed, IsNamed, alloc-StepOk, check_single_node-StepOk,
}

-- The slots of the results that are written hold records of the nodes at their places.
abbrev pub SlotNamed : Heap → String → Option Ref → Type 0
SlotNamed heap name none = Unit
SlotNamed heap name (some ref) = Named heap name ref

abbrev pub SlotsNamed : Heap → List NodeConfig → List (Option Ref) → Type 0
SlotsNamed heap [] [] = Unit
SlotsNamed heap [] (slot ∷ slots) = ⊥
SlotsNamed heap (node ∷ nodes) [] = ⊥
SlotsNamed heap (node ∷ nodes) (slot ∷ slots) =
    SlotNamed heap node.name slot × SlotsNamed heap nodes slots

abbrev pub ResultsNamed : Heap → List NodeConfig → List Ref → Type 0
ResultsNamed heap [] [] = Unit
ResultsNamed heap [] (ref ∷ refs) = ⊥
ResultsNamed heap (node ∷ nodes) [] = ⊥
ResultsNamed heap (node ∷ nodes) (ref ∷ refs) =
    Named heap node.name ref × ResultsNamed heap nodes refs

empty_slots :
    (heap : Heap) (nodes : List NodeConfig) → SlotsNamed heap nodes (replicate (length nodes) none)
empty_slots heap [] = tt
empty_slots heap (node ∷ nodes) = (tt, empty_slots heap nodes)

slots_keep :
    (heap heap' : Heap) (nodes : List NodeConfig) (slots : List (Option Ref))
    → ((k : String) (r : Ref) → Named heap k r → Named heap' k r)
    → SlotsNamed heap nodes slots
    → SlotsNamed heap' nodes slots
slots_keep heap heap' [] [] old h = tt
slots_keep heap heap' [] (slot ∷ slots) old h = h
slots_keep heap heap' (node ∷ nodes) [] old h = h
slots_keep heap heap' (node ∷ nodes) (none ∷ slots) old h =
    (tt, slots_keep heap heap' nodes slots old h.1)
slots_keep heap heap' (node ∷ nodes) (some ref ∷ slots) old h =
    (old node.name ref h.0, slots_keep heap heap' nodes slots old h.1)

slots_set :
    (heap : Heap) (nodes : List NodeConfig) (slots : List (Option Ref)) (i : ℕ) (node : NodeConfig)
    (ref : Ref)
    → get_elem? nodes i ≡ some node
    → Named heap node.name ref
    → SlotsNamed heap nodes slots
    → SlotsNamed heap nodes (set slots i (some ref))
slots_set heap [] [] i node ref e n h = tt
slots_set heap [] (slot ∷ slots) i node ref e n h = absurd h
slots_set heap (n0 ∷ nodes) [] i node ref e n h = absurd h
slots_set heap (n0 ∷ nodes) (slot ∷ slots) zero node ref e n h =
    let p : node ≡ n0 = ground arith in (subst (λ (x : NodeConfig). Named heap x.name ref) p n, h.1)
slots_set heap (n0 ∷ nodes) (slot ∷ slots) (suc i) node ref e n h =
    (h.0, slots_set heap nodes slots i node ref e n h.1)

abbrev FilledOk : Heap → List NodeConfig → Option (List Ref) → Type 0
FilledOk heap nodes none = Unit
FilledOk heap nodes (some refs) = ResultsNamed heap nodes refs

cons-Named :
    (heap : Heap) (node : NodeConfig) (nodes : List NodeConfig) (ref : Ref) (o : Option (List Ref))
    → Named heap node.name ref
    → FilledOk heap nodes o
    → FilledOk heap (node ∷ nodes) (cons_ref ref o)
cons-Named heap node nodes ref none n h = tt
cons-Named heap node nodes ref (some refs) n h = (n, h)

filled_named :
    (heap : Heap) (nodes : List NodeConfig) (slots : List (Option Ref))
    → SlotsNamed heap nodes slots
    → FilledOk heap nodes (all_filled slots)
unfolding all_filled
filled_named heap [] [] h = tt
filled_named heap [] (slot ∷ slots) h = absurd h
filled_named heap (node ∷ nodes) [] h = absurd h
filled_named heap (node ∷ nodes) (none ∷ slots) h = tt
filled_named heap (node ∷ nodes) (some ref ∷ slots) h =
    cons-Named heap node nodes ref (all_filled slots) h.0 (filled_named heap nodes slots h.1)

abbrev Ready : Env → HealthChecker × List (Option Ref) → Type 0
Ready env s = IsNamed s.0 × SlotsNamed s.0.heap env.config.nodes s.1

turn-Ready :
    (env : Env) (ctx : Context) (turn : Turn) (s : HealthChecker × List (Option Ref))
    → HandlersKeepNames env.handlers
    → Ready env s
    → Ready env (take_turn env ctx turn s)
unfolding take_turn
turn-Ready env ctx (admitted i) (h, slots) law v =
    elim (Option-cases (get_elem? env.config.nodes i)) [
      | inl out ↦ rw (out, take_turn) v
      | inr (node, found) ↦
          let step = check_single_node-StepOk env ctx node h law v.0 in
          let r = check_single_node env ctx node h in
          rw (found, take_turn)
            (
              step.cache,
              slots_set r.0.heap env.config.nodes slots i node r.1 found step.result
                  (slots_keep h.heap r.0.heap env.config.nodes slots step.old v.1),
            )
    ]
turn-Ready env ctx (turned_away i) (h, slots) law v =
    elim (Option-cases (get_elem? env.config.nodes i)) [
      | inl out ↦ rw (out, take_turn) v
      | inr (node, found) ↦
          let health = new_health node.name node.url 0 ctx.reason in
          let step = alloc-StepOk health h v.0 in
          let r = alloc_health health h in
          rw (found, take_turn)
            (
              step.cache,
              slots_set r.0.heap env.config.nodes slots i node r.1 found step.result
                  (slots_keep h.heap r.0.heap env.config.nodes slots step.old v.1),
            )
    ]

turns-Ready :
    (env : Env) (ctx : Context) (turns : List Turn) (s : HealthChecker × List (Option Ref))
    → HandlersKeepNames env.handlers
    → Ready env s
    → Ready env (take_turns env ctx turns s)
unfolding take_turns
turns-Ready env ctx [] s law v = v
turns-Ready env ctx (turn ∷ turns) s law v =
    turns-Ready env ctx turns (take_turn env ctx turn s) law (turn-Ready env ctx turn s law v)

cell_kept :
    (name : String) (a b : Option NodeHealth)
    → CellDemotes a b
    → CellNamed name a
    → CellNamed name b
cell_kept name none b d n = absurd n
cell_kept name (some x) none d n = d
cell_kept name (some x) (some y) d n = d.same_name ∙ n

demoted-Named :
    (heap heap' : Heap)
    → HeapDemotes heap heap'
    → (k : String) (r : Ref) → Named heap k r
    → Named heap' k r
demoted-Named heap heap' d k r n = cell_kept k (read heap r) (read heap' r) (d r) n

entries_keep :
    (heap heap' : Heap) (m : List (String × CacheEntry))
    → ((k : String) (r : Ref) → Named heap k r → Named heap' k r)
    → EntriesNamed heap m
    → EntriesNamed heap' m
entries_keep heap heap' [] old h = tt
entries_keep heap heap' ((k, entry) ∷ m) old h =
    (old k entry.health h.0, entries_keep heap heap' m old h.1)

results_keep :
    (heap heap' : Heap) (nodes : List NodeConfig) (refs : List Ref)
    → ((k : String) (r : Ref) → Named heap k r → Named heap' k r)
    → ResultsNamed heap nodes refs
    → ResultsNamed heap' nodes refs
results_keep heap heap' [] [] old h = tt
results_keep heap heap' [] (ref ∷ refs) old h = h
results_keep heap heap' (node ∷ nodes) [] old h = h
results_keep heap heap' (node ∷ nodes) (ref ∷ refs) old h =
    (old node.name ref h.0, results_keep heap heap' nodes refs old h.1)

abbrev CheckedOk : Env → Checked → Type 0
CheckedOk env no_nodes = Unit
CheckedOk env nil_result = Unit
CheckedOk env bad_semaphore = Unit
CheckedOk env (checked refs h) = ResultsNamed h.heap env.config.nodes refs × IsNamed h

finish_ok :
    (env : Env) (start : ℕ) (h : HealthChecker) (o : Option (List Ref))
    → IsNamed h
    → FilledOk h.heap env.config.nodes o
    → CheckedOk env (finish_or_panic env start h o)
unfolding finish_or_panic finish_check
finish_ok env start h none v f = tt
finish_ok env start h (some refs) v f =
    let s = validate_block_heights env.handlers env.config refs (h.heap, h.clock) in
    let old =
      demoted-Named h.heap s.0
        (validate_block_heights-Demotes env.handlers env.config refs (h.heap, h.clock)) in
    (
      results_keep h.heap s.0 env.config.nodes refs old f,
      entries_keep h.heap s.0 h.cache.cache old v,
    )

check_all_nodes-Ok :
    (env : Env) (ctx : Context) (turns : List Turn) (h : HealthChecker)
    → HandlersKeepNames env.handlers
    → IsNamed h
    → CheckedOk env (check_all_nodes env ctx turns h)
unfolding check_all_nodes
check_all_nodes-Ok env ctx turns h law v =
    pick (length env.config.nodes == 0) (ltb_ℤ env.config.performance.max_concurrent_checks (pos 0))
  where
    after : HealthChecker × List (Option Ref)
    after = take_turns env ctx turns (h, replicate (length env.config.nodes) none)

    pick :
        (b c : Bool)
        → CheckedOk env (
            if b
            then no_nodes
            else if c
            then bad_semaphore
            else finish_or_panic env h.clock after.0 (all_filled after.1))
    pick true c = tt
    pick false true = tt
    pick false false =
        let ready =
          turns-Ready env ctx turns (h, replicate (length env.config.nodes) none) law
            (v, empty_slots h.heap env.config.nodes) in
        finish_ok env h.clock after.0 (all_filled after.1) ready.0
          (filled_named after.0.heap env.config.nodes after.1 ready.1)

-- If the handlers keep names and every cached record is one of the node it is cached for, then a check of
-- all nodes that succeeds, in any order of its turns, has a result for each node, in the order of the
-- nodes, and each bears its node's name. The cached records still are of the nodes they are cached for.
pub check_all_nodes-IsNamed :
    (env : Env) (ctx : Context) (turns : List Turn) (h h' : HealthChecker) (refs : List Ref)
    → HandlersKeepNames env.handlers
    → IsNamed h
    → check_all_nodes env ctx turns h ≡ checked refs h'
    → ResultsNamed h'.heap env.config.nodes refs × IsNamed h'
check_all_nodes-IsNamed env ctx turns h h' refs law v e =
    subst (CheckedOk env) e (check_all_nodes-Ok env ctx turns h law v)
