-- ===== src/Tests/Caddyfile.antt =====
-- The Caddyfile parsers at concrete inputs.
use caddy_blockchain_health.Common.{false, suc, ◌≡◌, refl, arith, [], ◌∷◌, ap, inr, map, ◌++◌}
use caddy_blockchain_health.Common.Int.{pos}
use caddy_blockchain_health.Types.{NodeConfig}
use caddy_blockchain_health.Types.Config.{Config}
use caddy_blockchain_health.Caddyfile.{each, value, parsed}
use caddy_blockchain_health.Caddyfile.Ends.{Ends}
use caddy_blockchain_health.Caddyfile.Reads.{line, Segments, nil, after}
use caddy_blockchain_health.Directives.{parse_caddyfile}
use caddy_blockchain_health.Directives.Accepted.{ConfigAccepted}
use caddy_blockchain_health.Directives.Ending.{parse_caddyfile-Ends}
use caddy_blockchain_health.Directives.Print.{
  print, entries_of, settings_of, node_type_of, node_lines, reference,
}
use caddy_blockchain_health.Directives.RoundTrip.{zero_config, IsPrintable, parse_caddyfile-print}
use caddy_blockchain_health.Deadline.{RequestDeadline}
use caddy_blockchain_health.Common.Text.{codes, to_upper}
use caddy_blockchain_health.Deadline
use caddy_blockchain_health.Deadline.Caddyfile.{
  deadline_block, deadline_line, deadline_directive, add_source, tier_entry, set_tier,
  duration_line, validated, Verbs, unmarshal_caddyfile,
}
use caddy_blockchain_health.Deadline.Caddyfile.Ending.{IsAccepted, unmarshal_caddyfile-Ends}
use caddy_blockchain_health.Tests.Data.{config, node_a}
use caddy_blockchain_health.Tests.Cursor.{
  Cursor, cursor, tokens, left_of, tokens-IsFinite, block-Reads, block-after,
}
use caddy_blockchain_health.Tests.Marks.{printers, readers, printers-ReadsBack}

-- A configuration with a node type, and a node with metadata.
abbrev typed_node : NodeConfig
typed_node = record node_a { metadata = ("service_type", "rpc") ∷ ("region", "eu") ∷ [] }

abbrev typed_config : Config
typed_config = record config {
  nodes = typed_node ∷ [];
  chain = record config.chain { node_type = "evm"; chain_type = "ethereum" };
}

abbrev printed : Segments
printed = print printers (entries_of typed_config)

-- The lines after the node's.
abbrev others : Segments
others = print printers (
    map reference typed_config.external_references
    ++ (node_type_of typed_config.chain.node_type ++ settings_of typed_config))

-- Before the directive, with its printed block to come.
abbrev before : Cursor
before = cursor "" [] nil [] (printed ∷ [])

parse_caddyfile-Ends_example :
    Ends left_of
      (left_of before)
      ConfigAccepted
      (parse_caddyfile tokens readers (suc (left_of before)) zero_config before)
parse_caddyfile-Ends_example =
    parse_caddyfile-Ends tokens readers left_of tokens-IsFinite (suc (left_of before)) zero_config
      before (omega arith) (tt, tt)

typed_config-IsPrintable : IsPrintable typed_config
typed_config-IsPrintable = (
  (((refl, refl, omega arith), tt), ((refl, refl, refl), tt)),
  ((((refl, tt), (tt, tt)), (omega arith, omega arith)), tt),
  inr refl,
  (
    (omega arith, omega arith),
    (omega arith, omega arith),
    (omega arith, omega arith),
    (omega arith, omega arith),
    (omega arith, omega arith),
    (omega arith, omega arith),
  ),
)

parse_caddyfile-print_example :
    parse_caddyfile tokens readers 200 zero_config before
    ≡ parsed typed_config (tokens.next (after tokens 0 printed (tokens.next before).1)).1
parse_caddyfile-print_example =
    parse_caddyfile-print tokens readers printers typed_config 200 before printers-ReadsBack
      typed_config-IsPrintable (omega arith) refl
      (block-Reads "node" ("a" ∷ []) (node_lines printers typed_node) others "blockchain_health")
      (ap (λ s. (tokens.next s).0)
        (block-after "node" ("a" ∷ []) (node_lines printers typed_node) others "blockchain_health"))

-- A middleware before it is parsed, and a block for it.
abbrev no_deadline : RequestDeadline
no_deadline = record {
  sources = [];
  default_timeout = pos 0;
  tiers = [];
  skip = record { websocket = false; grpc = false; methods = [] };
  add_headers = false;
  min_timeout = pos 0;
  max_timeout = pos 0;
  tier_dur = [];
}

abbrev before_deadline : Cursor
before_deadline = cursor "" [] nil [] (
    line "from" ("header" ∷ "X-Plan" ∷ []) nil
      (line "tiers" [] (line "free" ("11" ∷ []) nil nil) (line "max_timeout" ("1111" ∷ []) nil nil))
    ∷ [])

abbrev verbs : Verbs
verbs = record { digits = λ n. ""; quoted = λ text. text }

unmarshal_caddyfile-Ends_example : Ends left_of (left_of before_deadline) (IsAccepted tokens) (
    unmarshal_caddyfile tokens readers verbs
      (suc (left_of before_deadline))
      no_deadline
      before_deadline)
unmarshal_caddyfile-Ends_example =
    unmarshal_caddyfile-Ends tokens readers verbs left_of tokens-IsFinite
      (suc (left_of before_deadline)) no_deadline before_deadline (omega arith) tt

-- What becomes of the block.
read_deadline :
    unmarshal_caddyfile tokens readers verbs 20 no_deadline before_deadline
    ≡ parsed
        (record no_deadline {
          sources = record { type = "header"; name = "X-Plan"; value = "" } ∷ [];
          tiers = (codes "FREE", "11") ∷ [];
          max_timeout = pos 2;
        })
        (cursor "1111" [] nil [] [])
unfolding unmarshal_caddyfile deadline_block deadline_line deadline_directive add_source tier_entry
    set_tier duration_line validated value each Deadline.validate Deadline.check_sources
    Deadline.is_valid_type to_upper
read_deadline = refl
