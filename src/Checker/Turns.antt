-- ===== src/Checker/Turns.antt =====
-- The check of all nodes comes to an end with a result in every slot, once each goroutine had its turn.
use caddy_blockchain_health.Common.{
  length-replicate, ℕ, zero, suc, ◌≤◌, ◌<◌, ◌≡◌, refl, arith, Bool, true, false, List, [], ◌∷◌,
  Option, none, some, length, get_elem?, set, replicate, ap, ◌∙◌, inl, inr, Option-cases, ◌==◌,
  ◌||◌, length-set,
}
use caddy_blockchain_health.Common.Int.{pos, ltb_ℤ}
use caddy_blockchain_health.Types.{new_health, NodeConfig, Ref}
use caddy_blockchain_health.Types.Protocol.{Context}
use caddy_blockchain_health.Checker.{
  Env, HealthChecker, check_single_node, alloc_health, Turn, admitted, turned_away, take_turn,
  take_turns, all_filled, finish_check, check_all_nodes, checked, finish_or_panic, cons_ref,
}

abbrev pub index : Turn → ℕ
index (admitted i) = i
index (turned_away i) = i

-- One of the turns is the index's.
abbrev pub has_turn : ℕ → List Turn → Bool
has_turn i [] = false
has_turn i (turn ∷ turns) = index turn == i || has_turn i turns

abbrev slot_filled : Option (Option Ref) → Bool
slot_filled none = false
slot_filled (some none) = false
slot_filled (some (some ref)) = true

filled : ℕ → List (Option Ref) → Bool
filled i slots = slot_filled (get_elem? slots i)

filled-set :
    (slots : List (Option Ref)) (i j : ℕ) (ref : Ref)
    → i < length slots
    → filled j (set slots i (some ref)) ≡ (i == j || filled j slots)
unfolding filled
filled-set [] i j ref h = elim h [ ]
filled-set (slot ∷ slots) zero zero ref h = refl
filled-set (slot ∷ slots) zero (suc j) ref h = ground arith
filled-set (slot ∷ slots) (suc i) zero ref h = ground arith
filled-set (slot ∷ slots) (suc i) (suc j) ref h = ground (arith, filled-set slots i j ref)

none_beyond : (nodes : List NodeConfig) (i : ℕ) → get_elem? nodes i ≡ none → length nodes ≤ i
none_beyond [] i e = omega arith
none_beyond (node ∷ nodes) zero e = absurd (cc e)
none_beyond (node ∷ nodes) (suc i) e = omega (arith, none_beyond nodes i e)

some_within :
    (nodes : List NodeConfig) (i : ℕ) {node : NodeConfig}
    → get_elem? nodes i ≡ some node
    → i < length nodes
some_within [] i e = absurd (cc e)
some_within (node ∷ nodes) zero e = omega arith
some_within (node ∷ nodes) (suc i) e = omega (arith, some_within nodes i e)

-- One turn keeps the number of slots, fills the slot of its index if it has one, and empties none.
record TurnFills (turn : Turn) (n : ℕ) (slots slots' : List (Option Ref)) : Type 0 where
  same : length slots' ≡ length slots
  fills : (j : ℕ) → j < n → filled j slots' ≡ (index turn == j || filled j slots)

idle :
    (turn : Turn) (n : ℕ) (slots : List (Option Ref))
    → n ≤ index turn
    → TurnFills turn n slots slots
idle turn n slots far = record { same = refl; fills = λ j h. ground arith }

writes :
    (turn : Turn) (n : ℕ) (slots : List (Option Ref)) (ref : Ref)
    → index turn < length slots
    → TurnFills turn n slots (set slots (index turn) (some ref))
writes turn n slots ref near = record {
  same = length-set slots (index turn) (some ref);
  fills = λ j h. filled-set slots (index turn) j ref near;
}

turn_fills :
    (env : Env) (ctx : Context) (turn : Turn) (s : HealthChecker × List (Option Ref))
    → length s.1 ≡ length env.config.nodes
    → TurnFills turn (length env.config.nodes) s.1 (take_turn env ctx turn s).1
unfolding take_turn
turn_fills env ctx (admitted i) (h, slots) e = elim (Option-cases (get_elem? env.config.nodes i)) [
  | inl out ↦
      rw (out, take_turn)
        (idle (admitted i) (length env.config.nodes) slots (none_beyond env.config.nodes i out))
  | inr (node, found) ↦
      rw (found, take_turn)
        (writes (admitted i) (length env.config.nodes) slots (check_single_node env ctx node h).1
          (omega (arith, some_within env.config.nodes i found)))
]
turn_fills env ctx (turned_away i) (h, slots) e =
    elim (Option-cases (get_elem? env.config.nodes i)) [
      | inl out ↦
          rw (out, take_turn)
            (idle (turned_away i) (length env.config.nodes) slots
              (none_beyond env.config.nodes i out))
      | inr (node, found) ↦
          rw (found, take_turn)
            (writes (turned_away i) (length env.config.nodes) slots
              (alloc_health (new_health node.name node.url 0 ctx.reason) h).1
              (omega (arith, some_within env.config.nodes i found)))
    ]

turns_fill :
    (env : Env) (ctx : Context) (turns : List Turn) (s : HealthChecker × List (Option Ref))
    → length s.1 ≡ length env.config.nodes
    → (length (take_turns env ctx turns s).1 ≡ length env.config.nodes)
      × ((j : ℕ)
          → j < length env.config.nodes
          → filled j (take_turns env ctx turns s).1 ≡ (has_turn j turns || filled j s.1))
unfolding take_turns
turns_fill env ctx [] s e = (e, λ j h. refl)
turns_fill env ctx (turn ∷ turns) s e =
    let one = turn_fills env ctx turn s e in
    let rest = turns_fill env ctx turns (take_turn env ctx turn s) (one.same ∙ e) in
    (
      rest.0,
      λ j h.
          rest.1 j h
          ∙ rw (one.fills j h) (or_swap (has_turn j turns) (index turn == j) (filled j s.1)),
    )
  where
    or_swap : (a b c : Bool) → (a || (b || c)) ≡ ((b || a) || c)
    or_swap true true c = refl
    or_swap true false c = refl
    or_swap false true c = refl
    or_swap false false c = refl

all_filled-total :
    (slots : List (Option Ref))
    → ((j : ℕ) → j < length slots → filled j slots ≡ true)
    → (refs : List Ref) × (all_filled slots ≡ some refs)
unfolding all_filled filled
all_filled-total [] h = ([], refl)
all_filled-total (none ∷ slots) h = absurd (cc (h 0 (omega arith)))
all_filled-total (some ref ∷ slots) h =
    let (refs, e) = all_filled-total slots (λ j hj. h (suc j) (omega arith)) in
    (ref ∷ refs, ap (cons_ref ref) e)

pub check_all_nodes-total :
    (env : Env) (ctx : Context) (turns : List Turn) (h : HealthChecker)
    → 0 < length env.config.nodes
    → ltb_ℤ env.config.performance.max_concurrent_checks (pos 0) ≡ false
    → ((i : ℕ) → i < length env.config.nodes → has_turn i turns ≡ true)
    → (refs : List Ref) × (h' : HealthChecker) × (check_all_nodes env ctx turns h ≡ checked refs h')
unfolding check_all_nodes
check_all_nodes-total env ctx turns h some_node semaphore each =
    let slots : List (Option Ref) = replicate (length env.config.nodes) none in
    let r = take_turns env ctx turns (h, slots) in
    let done =
      turns_fill env ctx turns (h, slots) (length-replicate (length env.config.nodes) none) in
    let (refs, e) = all_filled-total r.1 (λ j hj.
      done.1 j (omega (arith, done.0, hj)) ∙ rw (each j (omega (arith, done.0, hj))) refl) in
    (
      refs,
      finish_check env h.clock refs r.0,
      rw (nonzero (length env.config.nodes) some_node, semaphore, e)
          (unfold finish_or_panic in refl),
    )
  where
    nonzero : (n : ℕ) → 0 < n → (n == 0) ≡ false
    nonzero n h = ground arith
