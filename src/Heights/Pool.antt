-- ===== src/Heights/Pool.antt =====
-- The comparison of a group with its own highest node.
use caddy_blockchain_health.Common.{
  ℕ, ◌+◌, ◌-◌, ◌^◌, ◌≤◌, ◌<◌, ◌≡◌, refl, arith, Bool, true, false, List, [], ◌∷◌, Option, none,
  some, if◌then◌else◌, leb, ◌&&◌, inl, inr, ◌⊎◌, ap, ◌∙◌, Bool-cases, ◌==◌, ==_iff,
}
use caddy_blockchain_health.Common.Int.{ℤ, pos}
use caddy_blockchain_health.Types.{NodeHealth, Heap, Ref, read}
use caddy_blockchain_health.Types.Config.{Config}
use caddy_blockchain_health.Heights.{higher, max_height, check_against_pool, validate_pool}
use caddy_blockchain_health.Heights.Store.{member, update, get-modify_all}

abbrev height_of : Option NodeHealth → ℕ
height_of none = 0
height_of (some node) = node.block_height

-- The height stored under a reference.
abbrev pub height : Heap → Ref → ℕ
height heap ref = height_of (read heap ref)

check_twice :
    (max : ℕ) (threshold : ℤ) (node : NodeHealth)
    → check_against_pool max threshold (check_against_pool max threshold node)
      ≡ check_against_pool max threshold node
unfolding check_against_pool
check_twice max threshold node = ground arith

-- What the comparison with a leader at height `max` makes of a node, in plain numbers.
abbrev pub pool_verdict : ℕ → ℕ → NodeHealth → NodeHealth
pool_verdict max threshold node = record node {
  blocks_behind_pool = pos (max - node.block_height);
  height_valid = leb max (node.block_height + threshold);
  healthy = node.healthy && leb max (node.block_height + threshold);
}

check_plain :
    (max threshold : ℕ) (node : NodeHealth)
    → node.block_height ≤ max
    → max < 2 ^ 63
    → threshold < 2 ^ 63
    → check_against_pool max (pos threshold) node ≡ pool_verdict max threshold node
unfolding check_against_pool
check_plain max threshold node below small tsmall = ground arith

height-le-higher :
    (best : ℕ) (o : Option NodeHealth) → (best ≤ higher best o) × (height_of o ≤ higher best o)
unfolding higher
height-le-higher best none = (omega arith, omega arith)
height-le-higher best (some node) = (ground arith, ground arith)

max-cons :
    (best : ℕ) (ref : Ref) (refs : List Ref) (heap : Heap)
    → max_height best (ref ∷ refs) heap ≡ max_height (higher best (read heap ref)) refs heap
unfolding max_height
max-cons best ref refs heap = refl

higher_cases :
    (best : ℕ) (o : Option NodeHealth) → (higher best o ≡ best) ⊎ (higher best o ≡ height_of o)
unfolding higher
higher_cases best none = inl refl
higher_cases best (some node) = ground arith

agree :
    (max threshold : ℕ) (o : Option NodeHealth)
    → height_of o ≤ max
    → max < 2 ^ 63
    → threshold < 2 ^ 63
    → update (check_against_pool max (pos threshold)) o ≡ update (pool_verdict max threshold) o
agree max threshold none below small tsmall = refl
agree max threshold (some node) below small tsmall =
    ap some (check_plain max threshold node below small tsmall)

best-le-max : (best : ℕ) (refs : List Ref) (heap : Heap) → best ≤ max_height best refs heap
best-le-max best [] heap = unfold max_height in omega arith
best-le-max best (ref ∷ refs) heap = omega (
  arith,
  (height-le-higher best (read heap ref)).0,
  best-le-max (higher best (read heap ref)) refs heap,
  max-cons best ref refs heap,
)

pub height-le-max :
    (best : ℕ) (refs : List Ref) (heap : Heap) (ref : Ref)
    → member ref refs ≡ true
    → height heap ref ≤ max_height best refs heap
height-le-max best [] heap ref m = absurd (cc m)
height-le-max best (r ∷ refs) heap ref m = elim (Bool-cases (r == ref)) [
  | inl same ↦ omega (
    arith,
    ap (height heap) ((==_iff r ref).0 same),
    (height-le-higher best (read heap r)).1,
    best-le-max (higher best (read heap r)) refs heap,
    max-cons best r refs heap,
  )
  | inr other ↦ omega (
    arith,
    height-le-max (higher best (read heap r)) refs heap ref (ground arith),
    max-cons best r refs heap,
  )
]

-- The highest height is the start value or the height of a member.
max_attained :
    (best : ℕ) (refs : List Ref) (heap : Heap)
    → (max_height best refs heap ≡ best)
      ⊎ ((ref : Ref) × (member ref refs ≡ true) × (height heap ref ≡ max_height best refs heap))
max_attained best [] heap = inl (unfold max_height in refl)
max_attained best (r ∷ refs) heap =
    rw (max-cons best r refs heap) (elim (max_attained (higher best (read heap r)) refs heap) [
      | inl e ↦ elim (higher_cases best (read heap r)) [
        | inl kept ↦ inl (e ∙ kept)
        | inr raised ↦ inr (r, ground arith, ground arith)
      ]
      | inr (ref, m, e) ↦ inr (ref, ground arith, e)
    ])

-- After the comparison of a group with its leader, at heights and a threshold of less than 2^63, each
-- member has the distance to the leader in `blocks_behind_pool`; it is valid exactly if that is at most
-- the threshold, and healthy exactly if it was and is valid. All else, and all other records, are as
-- before.
pub read-validate_pool :
    (config : Config) (nodes : List Ref) (heap : Heap) (ref : Ref) (threshold : ℕ)
    → config.block_validation.height_threshold ≡ pos threshold
    → threshold < 2 ^ 63
    → max_height 0 nodes heap < 2 ^ 63
    → read (validate_pool config nodes heap) ref ≡ (
        if member ref nodes
        then update (pool_verdict (max_height 0 nodes heap) threshold) (read heap ref)
        else read heap ref)
unfolding validate_pool
read-validate_pool config nodes heap ref threshold e tsmall small =
    rw
      (
        e,
        get-modify_all (check_against_pool (max_height 0 nodes heap) (pos threshold)) nodes ref heap
            (check_twice (max_height 0 nodes heap) (pos threshold)),
      )
      (elim (Bool-cases (member ref nodes)) [
        | inl m ↦ rw m (
            agree (max_height 0 nodes heap) threshold (read heap ref)
              (height-le-max 0 nodes heap ref m) small tsmall)
        | inr m ↦ rw m
      ])

abbrev pub healthy_of : Option NodeHealth → Bool
healthy_of none = false
healthy_of (some node) = node.healthy

-- Is the record under a reference there and healthy?
abbrev pub is_healthy : Heap → Ref → Bool
is_healthy heap ref = healthy_of (read heap ref)

leader_passes :
    (max threshold : ℕ) (o : Option NodeHealth)
    → height_of o ≡ max
    → healthy_of (update (pool_verdict max threshold) o) ≡ healthy_of o
leader_passes max threshold none e = refl
leader_passes max threshold (some node) e = ground arith

leader_exists :
    (r : Ref) (refs : List Ref) (heap : Heap)
    → (ref : Ref) × (member ref (r ∷ refs) ≡ true)
      × (height heap ref ≡ max_height 0 (r ∷ refs) heap)
leader_exists r refs heap = elim (max_attained 0 (r ∷ refs) heap) [
  | inl zero_max ↦
      let first : member r (r ∷ refs) ≡ true = ground arith in
      (r, first, omega (arith, height-le-max 0 (r ∷ refs) heap r first))
  | inr found ↦ found
]

-- The comparison never empties a group: at heights and a threshold of less than 2^63, one member of a
-- group that is not empty is as healthy after it as before.
pub pool_keeps_leader :
    (config : Config) (r : Ref) (refs : List Ref) (heap : Heap) (threshold : ℕ)
    → config.block_validation.height_threshold ≡ pos threshold
    → threshold < 2 ^ 63
    → max_height 0 (r ∷ refs) heap < 2 ^ 63
    → (ref : Ref) × (member ref (r ∷ refs) ≡ true)
      × (is_healthy (validate_pool config (r ∷ refs) heap) ref ≡ is_healthy heap ref)
pool_keeps_leader config r refs heap threshold e tsmall small =
    let (ref, m, top) = leader_exists r refs heap in
    (
      ref,
      m,
      ap healthy_of (read-validate_pool config (r ∷ refs) heap ref threshold e tsmall small)
          ∙ rw m (leader_passes (max_height 0 (r ∷ refs) heap) threshold (read heap ref) top),
    )
