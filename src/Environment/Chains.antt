-- ===== src/Environment/Chains.antt =====
-- config.go: what is known of chains by their names. `strings.Contains` and `ToLower` are those of
-- ASCII texts.
use caddy_blockchain_health.Common.{
  Bool, ◌||◌, List, [], ◌∷◌, Option, none, some, String, str_eq, any, if◌then◌else◌,
}
use caddy_blockchain_health.Common.Int.{ℤ, pos, eqb_ℤ}
use caddy_blockchain_health.Common.Text.{codes, contains, to_lower}
use caddy_blockchain_health.Types.Config.{Config}

abbrev pub one_of : String → List String → Bool
one_of name names = any (str_eq name) names

abbrev pub mentions : String → String → Bool
mentions name part = contains (to_lower (codes name)) (codes part)

abbrev pub cosmos_chains : List String
cosmos_chains =
    "cosmos" ∷ "cosmos-hub" ∷ "akash" ∷ "osmosis" ∷ "juno" ∷ "secret" ∷ "stargaze" ∷ "regen"
    ∷ "althea-cosmos" ∷ "dev-cosmos" ∷ []

abbrev pub evm_chains : List String
evm_chains =
    "evm" ∷ "ethereum" ∷ "base" ∷ "arbitrum" ∷ "polygon" ∷ "bsc" ∷ "avalanche" ∷ "optimism"
    ∷ "althea-evm" ∷ []

abbrev pub beacon_chains : List String
beacon_chains = "beacon" ∷ "ethereum-beacon" ∷ "prysm" ∷ "teku" ∷ "lighthouse" ∷ "nimbus" ∷ []

-- The `default` case: patterns in the name of a chain that is not listed.
unfoldable pub infer_protocol : String → String
infer_protocol chain =
    if mentions chain "evm" || mentions chain "ethereum"
    then "evm"
    else if mentions chain "beacon" || mentions chain "prysm"
    then "beacon"
    else if mentions chain "cosmos"
    then "cosmos"
    else ""

unfoldable pub map_chain_type_to_protocol : String → String
unfolding infer_protocol
map_chain_type_to_protocol chain =
    if one_of chain cosmos_chains
    then "cosmos"
    else if one_of chain evm_chains
    then "evm"
    else if one_of chain beacon_chains
    then "beacon"
    else if str_eq chain "dual"
    then ""
    else infer_protocol chain

-- What the three preset helpers share: an interval and a threshold where there is none.
unfoldable pub add_defaults : String → ℤ → Config → Config
add_defaults interval threshold c = record c {
  health_check = record c.health_check {
    interval = if str_eq c.health_check.interval "" then interval else c.health_check.interval;
  };
  block_validation = record c.block_validation {
    height_threshold =
        if eqb_ℤ c.block_validation.height_threshold (pos 0)
        then threshold
        else c.block_validation.height_threshold;
  };
}

abbrev pub set_chain_type : String → Config → Config
set_chain_type chain c = record c { chain = record c.chain { chain_type = chain } }

-- None is the error of a preset that is unknown.
unfoldable pub apply_chain_preset : String → Config → Option Config
unfolding add_defaults
apply_chain_preset preset c =
    if str_eq preset "cosmos" || str_eq preset "cosmos-hub"
    then some (add_defaults "10s" (pos 5) (set_chain_type "cosmos" c))
    else if str_eq preset "ethereum"
    then some (add_defaults "12s" (pos 2) (set_chain_type "evm" c))
    else if str_eq preset "althea"
    then some (add_defaults "15s" (pos 5) c)
    else none
