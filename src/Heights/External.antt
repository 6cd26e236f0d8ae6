-- ===== src/Heights/External.antt =====
-- The comparison with external references: what it writes, and that it decides nothing about traffic.
use caddy_blockchain_health.Common.{
  str_eq, ℕ, ◌+◌, ◌-◌, ◌^◌, ◌<◌, ◌≡◌, refl, arith, Bool, true, false, List, [], ◌∷◌, Option, none,
  some, length, get_elem?, if◌then◌else◌, leb, ◌&&◌, inl, inr, Bool-cases, ◌==◌, ◌∙◌,
}
use caddy_blockchain_health.Common.Int.{ℤ, pos, negsuc}
use caddy_blockchain_health.Types.{NodeHealth, Heap, Ref, read, ExternalReference, NodeType}
use caddy_blockchain_health.Types.Config.{Config}
use caddy_blockchain_health.Types.Protocol.{Handlers}
use caddy_blockchain_health.Heights.{
  apply_external, check_against_external, validate_against_external, validate_externals,
  validate_pool, external_height, modify_all, modify, validate_node_group,
}
use caddy_blockchain_health.Heights.Store.{member, update, get-modify_all, get-modify}

-- The difference of two heights as an integer: negative for a node ahead of the reference.
abbrev pub distance : ℕ → ℕ → ℤ
distance a b = if leb b a then pos (a - b) else negsuc (b - a - 1)

abbrev pub external_verdict : ℕ → ℕ → NodeHealth → NodeHealth
external_verdict external threshold node = record node {
  blocks_behind_external = distance external node.block_height;
  external_reference_valid = leb external (node.block_height + threshold);
}

check_plain :
    (external threshold : ℕ) (node : NodeHealth)
    → node.block_height < 2 ^ 63
    → external < 2 ^ 63
    → threshold < 2 ^ 63
    → check_against_external external (pos threshold) node
      ≡ external_verdict external threshold node
unfolding check_against_external
check_plain external threshold node hsmall small tsmall = ground arith

check_twice :
    (external : ℕ) (threshold : ℤ) (node : NodeHealth)
    → check_against_external external threshold (check_against_external external threshold node)
      ≡ check_against_external external threshold node
unfolding check_against_external
check_twice external threshold node = ground arith

read-apply_external :
    (external threshold : ℕ) (nodes : List Ref) (heap : Heap) (r : Ref) (node : NodeHealth)
    → threshold < 2 ^ 63
    → external < 2 ^ 63
    → read heap r ≡ some node
    → node.block_height < 2 ^ 63
    → read (apply_external (pos threshold) nodes (some external) heap) r
      ≡ some (if member r nodes then external_verdict external threshold node else node)
unfolding apply_external
read-apply_external external threshold nodes heap r node tsmall small found hsmall =
    rw
      (
        get-modify_all (check_against_external external (pos threshold)) nodes r heap
            (check_twice external (pos threshold)),
        found,
        check_plain external threshold node hsmall small tsmall,
      )
      (elim (Bool-cases (member r nodes)) [ inl m ↦ rw m | inr m ↦ rw m ])

-- An external reference that answers the height `external`: a member of the group with heights and
-- threshold of less than 2^63 gets its distance to the reference, which is negative if the node is
-- ahead, and is valid exactly if it is at most the threshold behind. All else, and a record outside the
-- group, is as before.
pub read-validate_against_external :
    (hs : Handlers) (config : Config) (nodes : List Ref) (ref : ExternalReference) (heap : Heap)
    (now threshold external : ℕ) (r : Ref) (node : NodeHealth)
    → config.block_validation.external_reference_threshold ≡ pos threshold
    → threshold < 2 ^ 63
    → (external_height hs ref now).0 ≡ some external
    → external < 2 ^ 63
    → read heap r ≡ some node
    → node.block_height < 2 ^ 63
    → read (validate_against_external hs config nodes ref (heap, now)).0 r
      ≡ some (if member r nodes then external_verdict external threshold node else node)
unfolding validate_against_external
read-validate_against_external hs config nodes ref heap now threshold external r node e tsmall h
      small found hsmall =
    rw (h, e) (read-apply_external external threshold nodes heap r node tsmall small found hsmall)

-- A record without what the external comparison writes.
abbrev pub traffic_view : NodeHealth → NodeHealth
traffic_view node = record node { blocks_behind_external = pos 0; external_reference_valid = false }

-- Writes that a view does not show.
module _ (f view : NodeHealth → NodeHealth) (hidden : (h : NodeHealth) → view (f h) ≡ view h) where
  view-modify :
      (ref r : Ref) (heap : Heap)
      → update view (get_elem? (modify f ref heap) r) ≡ update view (get_elem? heap r)
  view-modify ref r heap = rw (get-modify f ref r heap) (same (ref == r) (get_elem? heap r))
    where
      same :
          (b : Bool) (o : Option NodeHealth)
          → update view (if b then update f o else o) ≡ update view o
      same true none = refl
      same true (some h) = rw (hidden h)
      same false o = refl

  pub view-modify_all :
      (refs : List Ref) (r : Ref) (heap : Heap)
      → update view (get_elem? (modify_all f refs heap) r) ≡ update view (get_elem? heap r)
  unfolding modify_all
  view-modify_all [] r heap = refl
  view-modify_all (ref ∷ refs) r heap =
      view-modify_all refs r (modify f ref heap) ∙ view-modify ref r heap

check_hidden :
    (external : ℕ) (threshold : ℤ) (h : NodeHealth)
    → traffic_view (check_against_external external threshold h) ≡ traffic_view h
unfolding check_against_external
check_hidden external threshold h = ground arith

apply_hidden :
    (threshold : ℤ) (nodes : List Ref) (answer : Option ℕ) (heap : Heap) (r : Ref)
    → update traffic_view (read (apply_external threshold nodes answer heap) r)
      ≡ update traffic_view (read heap r)
unfolding apply_external
apply_hidden threshold nodes none heap r = refl
apply_hidden threshold nodes (some external) heap r =
    view-modify_all (check_against_external external threshold) traffic_view
      (check_hidden external threshold) nodes r heap

one_hidden :
    (hs : Handlers) (config : Config) (nodes : List Ref) (ref : ExternalReference) (s : Heap × ℕ)
    (r : Ref)
    → update traffic_view (read (validate_against_external hs config nodes ref s).0 r)
      ≡ update traffic_view (read s.0 r)
unfolding validate_against_external
one_hidden hs config nodes ref (heap, now) r =
    apply_hidden config.block_validation.external_reference_threshold nodes
      (external_height hs ref now).0 heap r

maybe_hidden :
    (hs : Handlers) (config : Config) (nodes : List Ref) (ref : ExternalReference) (s : Heap × ℕ)
    (r : Ref) (used : Bool)
    → update traffic_view
        (read (if used then validate_against_external hs config nodes ref s else s).0 r)
      ≡ update traffic_view (read s.0 r)
maybe_hidden hs config nodes ref s r true = one_hidden hs config nodes ref s r
maybe_hidden hs config nodes ref s r false = refl

externals_hidden :
    (hs : Handlers) (config : Config) (nodes : List Ref) (type : NodeType)
    (refs : List ExternalReference) (s : Heap × ℕ) (r : Ref)
    → update traffic_view (read (validate_externals hs config nodes type refs s).0 r)
      ≡ update traffic_view (read s.0 r)
unfolding validate_externals
externals_hidden hs config nodes type [] s r = refl
externals_hidden hs config nodes type (ref ∷ refs) s r =
    externals_hidden hs config nodes type refs
      (if str_eq ref.type type && ref.enabled
        then validate_against_external hs config nodes ref s
        else s)
      r
    ∙ maybe_hidden hs config nodes ref s r (str_eq ref.type type && ref.enabled)

-- External references are informational: whatever they answer, the validation of a group leaves every
-- record, but for its two fields on external references, as the comparison within the pool does, and as
-- it was if the group has fewer than two members.
pub external_informational :
    (hs : Handlers) (config : Config) (nodes : List Ref) (type : NodeType) (heap : Heap) (now : ℕ)
    (r : Ref)
    → update traffic_view (read (validate_node_group hs config nodes type (heap, now)).0 r)
      ≡ update traffic_view
          (read (if leb (length nodes) 1 then heap else validate_pool config nodes heap) r)
unfolding validate_node_group
external_informational hs config nodes type heap now r = elim (Bool-cases (leb (length nodes) 1)) [
  | inl few ↦ rw few
  | inr many ↦ rw many (
      externals_hidden hs config nodes type config.external_references
        (validate_pool config nodes heap, now) r)
]
