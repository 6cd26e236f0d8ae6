-- ===== src/Environment/Types.antt =====
-- config.go: the node type that `createNodeFromURL` gives a node is a known one.
use caddy_blockchain_health.Common.{
  ◌≡◌, refl, Bool, true, false, ◌||◌, ◌⊎◌, inl, inr, String, str_eq, if◌then◌else◌, Bool-cases,
}
use caddy_blockchain_health.Types.Config.{Config}
use caddy_blockchain_health.Settings.{is_known_type}
use caddy_blockchain_health.Environment.Nodes.{or_text}
use caddy_blockchain_health.Environment.Chains.{
  one_of, mentions, cosmos_chains, evm_chains, beacon_chains, map_chain_type_to_protocol,
  infer_protocol,
}

-- The configured node type is empty or known.
abbrev pub IsTyped : Config → Type 0
IsTyped c = (str_eq c.chain.node_type "" ≡ true) ⊎ (is_known_type c.chain.node_type ≡ true)

-- Empty, or a known type.
pub data KnownOr (type : String) : Type 0 where
  no_type : str_eq type "" ≡ true → KnownOr type
  a_type : is_known_type type ≡ true → KnownOr type

if-KnownOr : (b : Bool) (x y : String) → KnownOr x → KnownOr y → KnownOr (if b then x else y)
if-KnownOr true x y h k = h
if-KnownOr false x y h k = k

pub or_text_lem :
    (x y : String) → KnownOr x → is_known_type y ≡ true → is_known_type (or_text x y) ≡ true
or_text_lem x y (no_type empty) k = rw empty k
or_text_lem x y (a_type known) k = elim (Bool-cases (str_eq x "")) [
  | inl empty ↦ rw empty k
  | inr given ↦ rw given known
]

pub protocol-KnownOr : (chain : String) → KnownOr (map_chain_type_to_protocol chain)
unfolding map_chain_type_to_protocol infer_protocol
protocol-KnownOr chain = if-KnownOr (one_of chain cosmos_chains) "cosmos" _ (a_type refl) (
    if-KnownOr (one_of chain evm_chains) "evm" _ (a_type refl) (
      if-KnownOr (one_of chain beacon_chains) "beacon" _ (a_type refl) (
        if-KnownOr (str_eq chain "dual") "" _ (no_type refl) (
          if-KnownOr (mentions chain "evm" || mentions chain "ethereum") "evm" _ (a_type refl) (
            if-KnownOr (mentions chain "beacon" || mentions chain "prysm") "beacon" _ (a_type refl)
              (if-KnownOr (mentions chain "cosmos") "cosmos" "" (a_type refl) (no_type refl)))))))

pub typed_lem : (c : Config) → IsTyped c → KnownOr c.chain.node_type
typed_lem c (inl empty) = no_type empty
typed_lem c (inr known) = a_type known
