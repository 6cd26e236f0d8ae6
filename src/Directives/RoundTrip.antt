-- ===== src/Directives/RoundTrip.antt =====
-- config.go: `parseCaddyfile` reads a printed configuration back.
use mathlib.Core.List.{append_assoc, append-nil}
use caddy_blockchain_health.Common.{
  ℕ, zero, suc, ◌<◌, ◌≡◌, refl, arith, true, false, List, [], ◌∷◌, ◌++◌, String, str_eq, eq_iff,
  ◌∙◌, ap, sym, map, All, Bool-cases, inl, inr, ◌⊎◌,
}
use caddy_blockchain_health.Common.Int.{pos}
use caddy_blockchain_health.Types.{NodeConfig, ExternalReference}
use caddy_blockchain_health.Types.Config.{Config}
use caddy_blockchain_health.Settings.{is_known_type}
use caddy_blockchain_health.Cache.Keys.{HasUniqueKeys}
use caddy_blockchain_health.Caddyfile.{Dispenser, Readers, parsed, ◌>>=◌, each}
use caddy_blockchain_health.Caddyfile.Reads.{weight, after, Reads}
use caddy_blockchain_health.Directives.Fields.{set_text, set_number, set_flag, set_servers}
use caddy_blockchain_health.Directives.{join, parse_block, parse_caddyfile}
use caddy_blockchain_health.Directives.Accepted.{NodeAccepted, ReferenceAccepted, ConfigAccepted}
use caddy_blockchain_health.Directives.Print.{
  IsFloat, IsInt, Printers, ReadsBack, Entry, node, reference, node_type, apply, apply_all, IsFit,
  print, settings_of, node_type_of, entries_of,
}
use caddy_blockchain_health.Directives.Entries.{entries-Gives}

apply_all-++ :
    (xs ys : List Entry) (c : Config) → apply_all (xs ++ ys) c ≡ apply_all ys (apply_all xs c)
apply_all-++ [] ys c = refl
apply_all-++ (x ∷ xs) ys c = apply_all-++ xs ys (apply x c)

apply_all-node :
    (ns : List NodeConfig) (c : Config)
    → apply_all (map node ns) c ≡ record c { nodes = c.nodes ++ ns }
apply_all-node [] c = ap (λ ns. record c { nodes = ns }) (sym (append-nil c.nodes))
apply_all-node (n ∷ ns) c =
    apply_all-node ns (apply (node n) c)
    ∙ ap (λ ns. record c { nodes = ns }) (append_assoc c.nodes (n ∷ []) ns)

apply_all-reference :
    (rs : List ExternalReference) (c : Config)
    → apply_all (map reference rs) c
      ≡ record c { external_references = c.external_references ++ rs }
apply_all-reference [] c =
    ap (λ rs. record c { external_references = rs }) (sym (append-nil c.external_references))
apply_all-reference (r ∷ rs) c =
    apply_all-reference rs (apply (reference r) c)
    ∙ ap (λ rs. record c { external_references = rs })
        (append_assoc c.external_references (r ∷ []) rs)

apply_all-node_type :
    (type : String) (c : Config)
    → c.chain.node_type ≡ ""
    → apply_all (node_type_of type) c ≡ apply (node_type type) c
apply_all-node_type type c none = elim (Bool-cases (str_eq type "")) [
  | inl empty ↦ rw empty (
      ap (λ t. record c { chain = record c.chain { node_type = t } })
        (none ∙ sym ((eq_iff type "").0 empty)))
  | inr some ↦ rw some refl
]

-- The module's value before anything is parsed: Go's zero value.
abbrev pub zero_config : Config
zero_config = record {
  nodes = [];
  external_references = [];
  environment = record {
    rpc_servers = "";
    api_servers = "";
    websocket_servers = "";
    evm_servers = "";
    evm_ws_servers = "";
    servers = "";
  };
  chain = record {
    chain_type = "";
    node_type = "";
    chain_preset = "";
    auto_discover_from_env = "";
    service_type = "";
  };
  legacy = record {
    legacy_mode = false;
    fallback_behavior = "";
    required_env_vars = "";
    optional_env_vars = "";
  };
  health_check = record { interval = ""; timeout = ""; retry_attempts = pos 0; retry_delay = "" };
  block_validation = record { height_threshold = pos 0; external_reference_threshold = pos 0 };
  performance = record { cache_duration = ""; max_concurrent_checks = pos 0 };
  failure_handling = record {
    min_healthy_nodes = pos 0;
    grace_period = "";
    circuit_breaker_threshold = pos 0;
  };
  monitoring = record { metrics_enabled = false; log_level = ""; health_endpoint = "" };
}

-- The entries of a configuration make it up.
apply_all-entries_of : (c : Config) → apply_all (entries_of c) zero_config ≡ c
unfolding join set_text set_number set_flag set_servers
apply_all-entries_of c =
    apply_all-++ (map node c.nodes)
      (map reference c.external_references ++ (node_type_of c.chain.node_type ++ settings_of c))
      zero_config
    ∙ ap
        (apply_all (
          map reference c.external_references ++ (node_type_of c.chain.node_type ++ settings_of c)))
        (apply_all-node c.nodes zero_config)
    ∙ apply_all-++ (map reference c.external_references)
        (node_type_of c.chain.node_type ++ settings_of c) with_nodes
    ∙ ap (apply_all (node_type_of c.chain.node_type ++ settings_of c))
        (apply_all-reference c.external_references with_nodes)
    ∙ apply_all-++ (node_type_of c.chain.node_type) (settings_of c) with_references
    ∙ ap (apply_all (settings_of c)) (apply_all-node_type c.chain.node_type with_references refl)
  where
    with_nodes : Config
    with_nodes = record zero_config { nodes = c.nodes }

    with_references : Config
    with_references = record with_nodes { external_references = c.external_references }

All-++ : {A : Type 0} (P : A → Type 0) (xs ys : List A) → All P xs → All P ys → All P (xs ++ ys)
All-++ P [] ys h k = k
All-++ P (x ∷ xs) ys h k = (h.0, All-++ P xs ys h.1 k)

nodes-IsFit :
    (ns : List NodeConfig)
    → All NodeAccepted ns
    → All (λ n. HasUniqueKeys n.metadata × IsInt n.weight) ns
    → All IsFit (map node ns)
nodes-IsFit [] h u = tt
nodes-IsFit (n ∷ ns) h u = ((h.0, u.0.0, u.0.1), nodes-IsFit ns h.1 u.1)

references-IsFit :
    (rs : List ExternalReference) → All ReferenceAccepted rs → All IsFit (map reference rs)
references-IsFit [] h = tt
references-IsFit (r ∷ rs) h = (h.0, references-IsFit rs h.1)

node_type-IsFit :
    (type : String)
    → (str_eq type "" ≡ true) ⊎ (is_known_type type ≡ true)
    → All IsFit (node_type_of type)
node_type-IsFit type (inl empty) = rw empty tt
node_type-IsFit type (inr known) = elim (Bool-cases (str_eq type "")) [
  | inl empty ↦ rw empty tt
  | inr some ↦ rw some (known, tt)
]

-- The numbers of the settings are in the ranges of their types.
abbrev pub InRange : Config → Type 0
InRange c =
    IsInt c.health_check.retry_attempts
    × IsInt c.block_validation.height_threshold
    × IsInt c.block_validation.external_reference_threshold
    × IsInt c.performance.max_concurrent_checks
    × IsInt c.failure_handling.min_healthy_nodes
    × IsFloat c.failure_handling.circuit_breaker_threshold

-- A configuration that can be printed: the parser accepts its nodes and references, no node has a
-- metadata key twice, its numbers are in range, and its node type is empty or known.
abbrev pub IsPrintable : Config → Type 0
IsPrintable c =
    ConfigAccepted c
    × All (λ n. HasUniqueKeys n.metadata × IsInt n.weight) c.nodes
    × ((str_eq c.chain.node_type "" ≡ true) ⊎ (is_known_type c.chain.node_type ≡ true))
    × InRange c

settings-IsFit : (c : Config) → InRange c → All IsFit (settings_of c)
settings-IsFit c h = (tt, (tt, (h.0, (tt, (h.1, (h.2, (tt, (h.3, (h.4, (tt, (h.5, _)))))))))))

entries-IsFit : (c : Config) → IsPrintable c → All IsFit (entries_of c)
entries-IsFit c h =
    All-++ IsFit (map node c.nodes)
      (map reference c.external_references ++ (node_type_of c.chain.node_type ++ settings_of c))
      (nodes-IsFit c.nodes h.0.0 h.1)
      (All-++ IsFit (map reference c.external_references)
        (node_type_of c.chain.node_type ++ settings_of c)
        (references-IsFit c.external_references h.0.1)
        (All-++ IsFit (node_type_of c.chain.node_type) (settings_of c)
          (node_type-IsFit c.chain.node_type h.2) (settings-IsFit c h.3)))

module _ {S : Type 0} (d : Dispenser S) (readers : Readers) (printers : Printers) where
  -- Take a configuration whose nodes and references the parser accepts, with no metadata key twice
  -- in a node, numbers in the ranges of their types, and a node type that is empty or known;
  -- printers whose numbers and flags the readers read back; and a dispenser that loads the
  -- directive, then hands out the printed lines of the configuration, and then nothing. With more
  -- fuel than there are tokens, `parseCaddyfile` on the zero value of the module parses, and gives
  -- back that configuration.
  pub parse_caddyfile-print :
      (c : Config) (fuel : ℕ) (s : S)
      → ReadsBack readers printers
      → IsPrintable c
      → suc (weight (print printers (entries_of c))) < fuel
      → (d.next s).0 ≡ true
      → Reads d 0 (print printers (entries_of c)) (d.next s).1
      → (d.next (after d 0 (print printers (entries_of c)) (d.next s).1)).0 ≡ false
      → parse_caddyfile d readers fuel zero_config s
        ≡ parsed c (d.next (after d 0 (print printers (entries_of c)) (d.next s).1)).1
  unfolding parse_caddyfile parse_block
  parse_caddyfile-print c zero s back fit enough first lines last = absurd (omega arith)
  parse_caddyfile-print c (suc zero) s back fit enough first lines last = absurd (omega arith)
  parse_caddyfile-print c (suc (suc fuel)) s back fit enough first lines last =
      unfold each in
      rw (first, each)
        (ap (λ m. m >>= each (parse_block d readers) d.next (suc fuel))
            (entries-Gives d readers printers back (entries_of c) zero_config (entries-IsFit c fit)
                (suc fuel) (d.next s).1 (omega (arith, enough)) lines
              ∙ ap (λ r. parsed r (after d 0 (print printers (entries_of c)) (d.next s).1))
                  (apply_all-entries_of c))
          ∙ rw (last, each) refl)
