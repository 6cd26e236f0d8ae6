-- ===== src/Checker/Names.antt =====
-- Every reference that the checker hands out or caches leads to a record of the right node.
use caddy_blockchain_health.Common.{
  ℕ, zero, suc, ◌+◌, ◌≡◌, refl, arith, Bool, true, false, List, [], ◌∷◌, ◌++◌, Option, none, some,
  String, length, if◌then◌else◌, str_eq, eq_iff, get_elem?-append_end, sym, subst, Bool-cases, inl,
  inr, Option-cases,
}
use caddy_blockchain_health.Common.Dict.{lookup, insert}
use caddy_blockchain_health.Types.{NodeConfig, NodeHealth, Heap, Ref, read, new_health}
use caddy_blockchain_health.Types.Protocol.{Context}
use caddy_blockchain_health.Breaker.{CircuitBreaker, can_execute}
use caddy_blockchain_health.Cache
use caddy_blockchain_health.Cache.{CacheEntry, HealthCache}
use caddy_blockchain_health.Retry.Names.{HandlersKeepNames, check_with_retry_named}
use caddy_blockchain_health.Checker.{
  Env, HealthChecker, check_single_node, check_uncached, probe, alloc_health, store_breaker,
  or_zero,
}
use caddy_blockchain_health.Checker.Single.{check-cached, check-missed, breaker_of, probed}

-- The record under the reference is there and has the name.
abbrev pub CellNamed : String → Option NodeHealth → Type 0
CellNamed name none = ⊥
CellNamed name (some health) = health.name ≡ name

abbrev pub Named : Heap → String → Ref → Type 0
Named heap name ref = CellNamed name (read heap ref)

abbrev pub EntriesNamed : Heap → List (String × CacheEntry) → Type 0
EntriesNamed heap [] = Unit
EntriesNamed heap ((k, entry) ∷ m) = Named heap k entry.health × EntriesNamed heap m

-- Every entry of the cache is a record of the node it is cached for.
abbrev pub IsNamed : HealthChecker → Type 0
IsNamed h = EntriesNamed h.heap h.cache.cache

pub Named-append :
    (heap : Heap) (health : NodeHealth) (name : String) (ref : Ref)
    → Named heap name ref
    → Named (heap ++ health ∷ []) name ref
Named-append [] health name ref h = absurd h
Named-append (x ∷ heap) health name zero h = h
Named-append (x ∷ heap) health name (suc ref) h = Named-append heap health name ref h

EntriesNamed-append :
    (heap : Heap) (health : NodeHealth) (m : List (String × CacheEntry))
    → EntriesNamed heap m
    → EntriesNamed (heap ++ health ∷ []) m
EntriesNamed-append heap health [] h = tt
EntriesNamed-append heap health ((k, entry) ∷ m) h =
    (Named-append heap health k entry.health h.0, EntriesNamed-append heap health m h.1)

EntriesNamed-insert :
    (heap : Heap) (k : String) (entry : CacheEntry) (m : List (String × CacheEntry))
    → Named heap k entry.health
    → EntriesNamed heap m
    → EntriesNamed heap (insert k entry m)
unfolding insert
EntriesNamed-insert heap k entry [] n h = (n, tt)
EntriesNamed-insert heap k entry ((j, other) ∷ m) n h = elim (Bool-cases (str_eq j k)) [
  | inl same ↦ rw same (n, h.1)
  | inr other_key ↦ rw other_key (h.0, EntriesNamed-insert heap k entry m n h.1)
]

EntriesNamed-lookup :
    (heap : Heap) (k : String) (entry : CacheEntry) (m : List (String × CacheEntry))
    → EntriesNamed heap m
    → lookup k m ≡ some entry
    → Named heap k entry.health
unfolding lookup
EntriesNamed-lookup heap k entry [] h e = absurd (cc e)
EntriesNamed-lookup heap k entry ((j, other) ∷ m) h e = elim (Bool-cases (str_eq j k)) [
  | inl same ↦
      let p : other ≡ entry = ground arith in
      subst (λ (x : CacheEntry). Named heap k x.health) p
        (subst (λ x. Named heap x other.health) ((eq_iff j k).0 same) h.0)
  | inr other_key ↦ EntriesNamed-lookup heap k entry m h.1 (rw other_key at e)
]

-- What one step of the checker owes: the cache stays named, the result is a record of the node, and
-- no reference that was named is lost.
pub record StepNamed (h h' : HealthChecker) (name : String) (ref : Ref) : Type 0 where
  pub cache : IsNamed h'
  pub result : Named h'.heap name ref
  pub old : (k : String) (r : Ref) → Named h.heap k r → Named h'.heap k r

abbrev pub StepOk : HealthChecker → String → HealthChecker × Ref → Type 0
StepOk h name r = StepNamed h r.0 name r.1

new-Named :
    (heap : Heap) (health : NodeHealth) → Named (heap ++ health ∷ []) health.name (length heap)
new-Named heap health = subst (CellNamed health.name) (sym (get_elem?-append_end heap health)) refl

pub alloc-StepOk :
    (health : NodeHealth) (h : HealthChecker)
    → IsNamed h
    → StepOk h health.name (alloc_health health h)
unfolding alloc_health
alloc-StepOk health h v = record {
  cache = EntriesNamed-append h.heap health h.cache.cache v;
  result = new-Named h.heap health;
  old = λ k r. Named-append h.heap health k r;
}

probe-StepOk :
    (env : Env) (ctx : Context) (node : NodeConfig) (breaker : CircuitBreaker) (h : HealthChecker)
    → HandlersKeepNames env.handlers
    → IsNamed h
    → StepOk h node.name (probe env ctx node breaker h)
unfolding probe alloc_health store_breaker Cache.set_health
probe-StepOk env ctx node breaker h law v =
    let health = (probed env ctx node h).0 in
    let now = (probed env ctx node h).1 in
    let entry : CacheEntry = record {
      health = length h.heap;
      expires_at = now + h.cache.duration;
    } in
    let fresh : Named (h.heap ++ health ∷ []) node.name (length h.heap) =
      subst (λ k. Named (h.heap ++ health ∷ []) k (length h.heap))
        (check_with_retry_named env.handlers env.config.health_check.retry_attempts
          (or_zero (env.parse_duration env.config.health_check.retry_delay)) ctx node h.clock law)
        (new-Named h.heap health) in
    record {
      cache =
          EntriesNamed-insert (h.heap ++ health ∷ []) node.name entry h.cache.cache fresh
            (EntriesNamed-append h.heap health h.cache.cache v);
      result = fresh;
      old = λ k r. Named-append h.heap health k r;
    }

uncached-StepOk :
    (env : Env) (ctx : Context) (node : NodeConfig) (h : HealthChecker)
    → HandlersKeepNames env.handlers
    → IsNamed h
    → StepOk h node.name (check_uncached env ctx node h)
unfolding check_uncached store_breaker
uncached-StepOk env ctx node h law v = branch (can_execute h.clock (breaker_of env node h)).1
  where
    h' : HealthChecker
    h' = store_breaker node.name (can_execute h.clock (breaker_of env node h)).0 h

    branch :
        (may : Bool)
        → StepOk h node.name (
            if may
            then probe env ctx node (can_execute h.clock (breaker_of env node h)).0 h'
            else alloc_health (new_health node.name node.url h.clock "circuit breaker open") h')
    branch true =
        let s =
          probe-StepOk env ctx node (can_execute h.clock (breaker_of env node h)).0 h' law v in
        record { cache = s.cache; result = s.result; old = s.old }
    branch false =
        let s = alloc-StepOk (new_health node.name node.url h.clock "circuit breaker open") h' v in
        record { cache = s.cache; result = s.result; old = s.old }

live-Named :
    (heap : Heap) (now : ℕ) (k : String) (ref : Ref) (o : Option CacheEntry)
    → ((entry : CacheEntry) → o ≡ some entry → Named heap k entry.health)
    → Cache.live_health now o ≡ some ref
    → Named heap k ref
unfolding Cache.live_health
live-Named heap now k ref none h e = absurd (cc e)
live-Named heap now k ref (some entry) h e = subst (Named heap k) (ground arith) (h entry refl)

cached-Named :
    (h : HealthChecker) (k : String) (ref : Ref)
    → IsNamed h
    → Cache.get h.clock k h.cache ≡ some ref
    → Named h.heap k ref
unfolding Cache.get
cached-Named h k ref v e =
    live-Named h.heap h.clock k ref (lookup k h.cache.cache)
      (λ entry found. EntriesNamed-lookup h.heap k entry h.cache.cache v found) e

-- If the handlers keep names and every cached record is one of the node it is cached for, then so it is
-- after the check of a node, whichever branch it takes: the result is a record of that node, and
-- every reference to a record of some name still is one.
pub check_single_node-StepOk :
    (env : Env) (ctx : Context) (node : NodeConfig) (h : HealthChecker)
    → HandlersKeepNames env.handlers
    → IsNamed h
    → StepOk h node.name (check_single_node env ctx node h)
check_single_node-StepOk env ctx node h law v =
    elim (Option-cases (Cache.get h.clock node.name h.cache)) [
      | inl miss ↦ rw (check-missed env ctx node h miss) (uncached-StepOk env ctx node h law v)
      | inr (ref, hit) ↦
          rw (check-cached env ctx node h ref hit)
            (record { cache = v; result = cached-Named h node.name ref v hit; old = λ k r n. n })
    ]
