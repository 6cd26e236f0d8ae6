-- ===== src/Heights/Demotion.antt =====
-- What the validation of block heights as a whole can do to a health record.
use caddy_blockchain_health.Common.{
  subst, ℕ, ◌≡◌, refl, arith, Bool, true, false, List, [], ◌∷◌, Option, none, some, length,
  if◌then◌else◌, leb, ◌&&◌, ◌==◌, ◌∙◌, sym, str_eq,
}
use caddy_blockchain_health.Common.Int.{ℤ}
use caddy_blockchain_health.Types.{NodeHealth, Heap, Ref, read, ExternalReference, NodeType}
use caddy_blockchain_health.Types.Config.{Config}
use caddy_blockchain_health.Types.Protocol.{Handlers}
use caddy_blockchain_health.Heights.{
  Groups, check_against_pool, check_against_external, apply_external, validate_against_external,
  validate_externals, validate_pool, max_height, external_height, modify_all, modify,
  validate_node_group, validate_groups, validate_block_heights, group_all,
}
use caddy_blockchain_health.Heights.Store.{update, get-modify}

-- What validation writes to a record: it may become unhealthy, never healthy, and it keeps its name, its
-- URL, its height and its error.
pub record Demotes (before after : NodeHealth) : Type 0 where
  pub same_name : after.name ≡ before.name
  pub same_url : after.url ≡ before.url
  pub same_height : after.block_height ≡ before.block_height
  pub same_error : after.last_error ≡ before.last_error
  pub down : after.healthy ≡ true → before.healthy ≡ true

abbrev pub CellDemotes : Option NodeHealth → Option NodeHealth → Type 0
CellDemotes none none = Unit
CellDemotes none (some after) = ⊥
CellDemotes (some before) none = ⊥
CellDemotes (some before) (some after) = Demotes before after

abbrev pub HeapDemotes : Heap → Heap → Type 0
HeapDemotes before after = (r : Ref) → CellDemotes (read before r) (read after r)

Demotes-refl : (h : NodeHealth) → Demotes h h
Demotes-refl h = record {
  same_name = refl;
  same_url = refl;
  same_height = refl;
  same_error = refl;
  down = λ e. e;
}

Demotes-trans : {a b c : NodeHealth} → Demotes a b → Demotes b c → Demotes a c
Demotes-trans p q = record {
  same_name = q.same_name ∙ p.same_name;
  same_url = q.same_url ∙ p.same_url;
  same_height = q.same_height ∙ p.same_height;
  same_error = q.same_error ∙ p.same_error;
  down = λ e. p.down (q.down e);
}

CellDemotes-refl : (o : Option NodeHealth) → CellDemotes o o
CellDemotes-refl none = tt
CellDemotes-refl (some h) = Demotes-refl h

CellDemotes-trans :
    (a b c : Option NodeHealth) → CellDemotes a b → CellDemotes b c → CellDemotes a c
CellDemotes-trans none none none p q = tt
CellDemotes-trans none none (some c) p q = q
CellDemotes-trans none (some b) c p q = absurd p
CellDemotes-trans (some a) none c p q = absurd p
CellDemotes-trans (some a) (some b) none p q = q
CellDemotes-trans (some a) (some b) (some c) p q = Demotes-trans p q

pub HeapDemotes-refl : (heap : Heap) → HeapDemotes heap heap
HeapDemotes-refl heap r = CellDemotes-refl (read heap r)

pub HeapDemotes-trans : (a b c : Heap) → HeapDemotes a b → HeapDemotes b c → HeapDemotes a c
HeapDemotes-trans a b c p q r = CellDemotes-trans (read a r) (read b r) (read c r) (p r) (q r)

module _ (f : NodeHealth → NodeHealth) (demotes : (h : NodeHealth) → Demotes h (f h)) where
  cell_updated : (b : Bool) (o : Option NodeHealth) → CellDemotes o (if b then update f o else o)
  cell_updated true none = tt
  cell_updated true (some h) = demotes h
  cell_updated false o = CellDemotes-refl o

  modify-Demotes : (ref : Ref) (heap : Heap) → HeapDemotes heap (modify f ref heap)
  modify-Demotes ref heap r =
      subst (CellDemotes (read heap r)) (sym (get-modify f ref r heap))
        (cell_updated (ref == r) (read heap r))

  modify_all-Demotes : (refs : List Ref) (heap : Heap) → HeapDemotes heap (modify_all f refs heap)
  unfolding modify_all
  modify_all-Demotes [] heap = HeapDemotes-refl heap
  modify_all-Demotes (ref ∷ refs) heap =
      HeapDemotes-trans heap (modify f ref heap) (modify_all f refs (modify f ref heap))
        (modify-Demotes ref heap) (modify_all-Demotes refs (modify f ref heap))

pool_body-Demotes :
    (max : ℕ) (threshold : ℤ) (h : NodeHealth) → Demotes h (check_against_pool max threshold h)
unfolding check_against_pool
pool_body-Demotes max threshold h = ground arith

external_body-Demotes :
    (external : ℕ) (threshold : ℤ) (h : NodeHealth)
    → Demotes h (check_against_external external threshold h)
unfolding check_against_external
external_body-Demotes external threshold h = ground arith

pool-Demotes :
    (config : Config) (nodes : List Ref) (heap : Heap)
    → HeapDemotes heap (validate_pool config nodes heap)
unfolding validate_pool
pool-Demotes config nodes heap =
    modify_all-Demotes
      (check_against_pool (max_height 0 nodes heap) config.block_validation.height_threshold)
      (pool_body-Demotes (max_height 0 nodes heap) config.block_validation.height_threshold) nodes
      heap

apply-Demotes :
    (threshold : ℤ) (nodes : List Ref) (answer : Option ℕ) (heap : Heap)
    → HeapDemotes heap (apply_external threshold nodes answer heap)
unfolding apply_external
apply-Demotes threshold nodes none heap = HeapDemotes-refl heap
apply-Demotes threshold nodes (some external) heap =
    modify_all-Demotes (check_against_external external threshold)
      (external_body-Demotes external threshold) nodes heap

module _ (hs : Handlers) (config : Config) where
  maybe-Demotes :
      (nodes : List Ref) (ref : ExternalReference) (s : Heap × ℕ) (used : Bool)
      → HeapDemotes s.0 (if used then validate_against_external hs config nodes ref s else s).0
  unfolding validate_against_external
  maybe-Demotes nodes ref (heap, now) true =
      apply-Demotes config.block_validation.external_reference_threshold nodes
        (external_height hs ref now).0 heap
  maybe-Demotes nodes ref (heap, now) false = HeapDemotes-refl heap

  externals-Demotes :
      (nodes : List Ref) (type : NodeType) (refs : List ExternalReference) (s : Heap × ℕ)
      → HeapDemotes s.0 (validate_externals hs config nodes type refs s).0
  unfolding validate_externals
  externals-Demotes nodes type [] s = HeapDemotes-refl s.0
  externals-Demotes nodes type (ref ∷ refs) s =
      let used = str_eq ref.type type && ref.enabled in
      let s' = if used then validate_against_external hs config nodes ref s else s in
      HeapDemotes-trans s.0 s'.0 (validate_externals hs config nodes type refs s').0
        (maybe-Demotes nodes ref s used) (externals-Demotes nodes type refs s')

  group-Demotes :
      (nodes : List Ref) (type : NodeType) (s : Heap × ℕ)
      → HeapDemotes s.0 (validate_node_group hs config nodes type s).0
  unfolding validate_node_group
  group-Demotes nodes type (heap, now) = few_or_many (leb (length nodes) 1)
    where
      few_or_many :
          (few : Bool)
          → HeapDemotes heap
              (if few
                then (heap, now)
                else validate_externals hs config nodes type config.external_references
                    (validate_pool config nodes heap, now)).0
      few_or_many true = HeapDemotes-refl heap
      few_or_many false =
          HeapDemotes-trans heap (validate_pool config nodes heap) _
            (pool-Demotes config nodes heap)
            (externals-Demotes nodes type config.external_references
              (validate_pool config nodes heap, now))

  groups-Demotes :
      (groups : Groups) (s : Heap × ℕ) → HeapDemotes s.0 (validate_groups hs config groups s).0
  unfolding validate_groups
  groups-Demotes [] s = HeapDemotes-refl s.0
  groups-Demotes ((chain, (refs, type)) ∷ groups) s =
      let s' = validate_node_group hs config refs type s in
      HeapDemotes-trans s.0 s'.0 (validate_groups hs config groups s').0 (group-Demotes refs type s)
        (groups-Demotes groups s')

  -- Validating the block heights of any results, in any store, makes no record appear or vanish, and none
  -- healthy that was not, and it keeps the name, the URL, the height and the error of each.
  pub validate_block_heights-Demotes :
      (results : List Ref) (s : Heap × ℕ)
      → HeapDemotes s.0 (validate_block_heights hs config results s).0
  unfolding validate_block_heights
  validate_block_heights-Demotes results (heap, now) =
      groups-Demotes (group_all config.nodes heap results []) (heap, now)
