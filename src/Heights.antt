-- ===== src/Heights.antt =====
-- healthchecker.go: `validateBlockHeights`, `validateNodeGroup` and `validateAgainstExternal`. They
-- write to the health records in place: a group is a list of references into the store.
pub mod Store
pub mod Pool
pub mod External
pub mod Demotion
use caddy_blockchain_health.Common.{
  ◌^◌, ◌*◌, ℕ, ◌+◌, Bool, true, false, List, [], ◌∷◌, ◌++◌, Option, none, some, String, str_eq, ltb,
  leb, length, if◌then◌else◌, ◌&&◌, get_elem?, set,
}
use caddy_blockchain_health.Common.Int.{ℤ, ltb_ℤ, to_int64, to_uint64, sub64}
use caddy_blockchain_health.Common.Dict.{lookup, insert}
use caddy_blockchain_health.Types.{
  NodeConfig, NodeType, NodeHealth, ExternalReference, Heap, Ref, read, find_node,
}
use caddy_blockchain_health.Types.Config.{Config}
use caddy_blockchain_health.Types.Protocol.{
  Context, Reply, ok, err, ProtocolHandler, Handlers, select_handler,
}

-- Write through one reference.
unfoldable pub modify : (NodeHealth → NodeHealth) → Ref → Heap → Heap
modify f ref heap = elim (get_elem? heap ref) [
  | none ↦ heap
  | some health ↦ set heap ref (f health)
]

-- `for _, node := range nodes { ... }` with writes to `node` alone.
unfoldable pub modify_all : (NodeHealth → NodeHealth) → List Ref → Heap → Heap
modify_all f [] heap = heap
modify_all f (ref ∷ refs) heap = modify_all f refs (modify f ref heap)

unfoldable pub higher : ℕ → Option NodeHealth → ℕ
higher best none = best
higher best (some node) = if ltb best node.block_height then node.block_height else best

-- The first loop of `validateNodeGroup`.
unfoldable pub max_height : ℕ → List Ref → Heap → ℕ
unfolding higher
max_height best [] heap = best
max_height best (ref ∷ refs) heap = max_height (higher best (read heap ref)) refs heap

-- The body of its second loop.
unfoldable pub check_against_pool : ℕ → ℤ → NodeHealth → NodeHealth
check_against_pool max threshold node =
    let behind = to_int64 (sub64 max node.block_height) in
    if ltb_ℤ (to_int64 (to_uint64 threshold)) behind
    then record node { blocks_behind_pool = behind; height_valid = false; healthy = false }
    else record node { blocks_behind_pool = behind; height_valid = true }

-- The body of the loop of `validateAgainstExternal`.
unfoldable pub check_against_external : ℕ → ℤ → NodeHealth → NodeHealth
check_against_external external threshold node =
    let behind = to_int64 (sub64 external node.block_height) in
    if ltb_ℤ (to_int64 (to_uint64 threshold)) behind
    then record node { blocks_behind_external = behind; external_reference_valid = false }
    else record node { blocks_behind_external = behind; external_reference_valid = true }

-- The reference's height, or no height after an error or at an unknown type: then nothing is
-- written. The instant is the one after the call, which has ten seconds.
unfoldable pub external_height : Handlers → ExternalReference → ℕ → Option ℕ × ℕ
unfolding select_handler
external_height hs ref now = elim (select_handler hs ref.type) [
  | none ↦ (none, now)
  | some handler ↦
      let ctx : Context = record {
        done_at = some (now + 10 * 10 ^ 9);
        reason = "context deadline exceeded";
      } in
      let (reply, later) = handler.get_block_height ctx now ref.url in
      (elim reply [ ok height ↦ some height | err e ↦ none ], later)
]

-- The loop of `validateAgainstExternal`, if there is a height.
unfoldable pub apply_external : ℤ → List Ref → Option ℕ → Heap → Heap
apply_external threshold nodes none heap = heap
apply_external threshold nodes (some external) heap =
    modify_all (check_against_external external threshold) nodes heap

unfoldable pub validate_against_external :
    Handlers → Config → List Ref → ExternalReference → Heap × ℕ → Heap × ℕ
validate_against_external hs config nodes ref (heap, now) =
    let (height, later) = external_height hs ref now in
    (apply_external config.block_validation.external_reference_threshold nodes height heap, later)

-- The loop over the external references at the end of `validateNodeGroup`.
unfoldable pub validate_externals :
    Handlers → Config → List Ref → NodeType → List ExternalReference → Heap × ℕ → Heap × ℕ
validate_externals hs config nodes type [] s = s
validate_externals hs config nodes type (ref ∷ refs) s =
    validate_externals hs config nodes type refs (
      if str_eq ref.type type && ref.enabled
      then validate_against_external hs config nodes ref s
      else s)

unfoldable pub validate_pool : Config → List Ref → Heap → Heap
validate_pool config nodes heap =
    modify_all
      (check_against_pool (max_height 0 nodes heap) config.block_validation.height_threshold) nodes
      heap

unfoldable pub validate_node_group : Handlers → Config → List Ref → NodeType → Heap × ℕ → Heap × ℕ
validate_node_group hs config nodes type (heap, now) =
    if leb (length nodes) 1
    then (heap, now)
    else validate_externals hs config nodes type config.external_references
        (validate_pool config nodes heap, now)

-- The chain a node is grouped under.
unfoldable pub group_name : NodeConfig → String
group_name node = if str_eq node.chain_type "" then node.type else node.chain_type

-- `chainGroups` and `chainNodeTypes`, kept together: they have the same keys.
abbrev pub Groups : Type 0
Groups = List (String × (List Ref × NodeType))

abbrev group_refs : Option (List Ref × NodeType) → List Ref
group_refs none = []
group_refs (some (refs, type)) = refs

unfoldable pub add_to_group : NodeConfig → Ref → Groups → Groups
add_to_group node ref groups =
    insert (group_name node) (group_refs (lookup (group_name node) groups) ++ ref ∷ [], node.type)
      groups

unfoldable pub group_one : List NodeConfig → Heap → Ref → Groups → Groups
group_one nodes heap ref groups = elim (read heap ref) [
  | none ↦ groups
  | some health ↦
      if health.healthy
      then (elim (find_node health.name nodes) [
        | none ↦ groups
        | some node ↦ add_to_group node ref groups
      ])
      else groups
]

unfoldable pub group_all : List NodeConfig → Heap → List Ref → Groups → Groups
group_all nodes heap [] groups = groups
group_all nodes heap (ref ∷ refs) groups =
    group_all nodes heap refs (group_one nodes heap ref groups)

-- The loop over the groups, in the order of their first members; Go's order is any.
unfoldable pub validate_groups : Handlers → Config → Groups → Heap × ℕ → Heap × ℕ
validate_groups hs config [] s = s
validate_groups hs config ((chain, (refs, type)) ∷ groups) s =
    validate_groups hs config groups (validate_node_group hs config refs type s)

-- The result is always a nil error. An empty list of results has no groups.
unfoldable pub validate_block_heights : Handlers → Config → List Ref → Heap × ℕ → Heap × ℕ
validate_block_heights hs config results (heap, now) =
    validate_groups hs config (group_all config.nodes heap results []) (heap, now)
