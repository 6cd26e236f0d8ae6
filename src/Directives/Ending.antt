-- ===== src/Directives/Ending.antt =====
-- The parser of the module's block comes to an end, and accepts only complete nodes and references.
use caddy_blockchain_health.Common.{ℕ, ◌≤◌, ◌<◌, [], ◌∷◌, ◌++◌, String, Bool-cases, inl, inr}
use caddy_blockchain_health.Types.Config.{Config}
use caddy_blockchain_health.Types.Protocol.{Reply}
use caddy_blockchain_health.Settings.{is_known_type}
use caddy_blockchain_health.Caddyfile.{
  Dispenser, Readers, parsed, ◌>>=◌, in_context, reading, value, values,
}
use caddy_blockchain_health.Caddyfile.Ends.{
  IsFinite, Ends, Any, >>=-Ends, in_context-Ends, reading-Ends, each-Ends, values-Ends,
}
use caddy_blockchain_health.Directives.Fields.{
  Directive, node_block, reference_block, text, number, flag, servers, threshold, node_type,
  unknown, directive_of, set_number, set_flag, set_servers, number_message, flag_message,
}
use caddy_blockchain_health.Directives.{
  join, parse_node, parse_external_reference, known_node_type, directive_line, parse_block,
  parse_caddyfile,
}
use caddy_blockchain_health.Directives.Accepted.{
  NodeAccepted, ReferenceAccepted, ConfigAccepted, All-concat, text-Accepted, number-Accepted,
  flag-Accepted, servers-Accepted,
}
use caddy_blockchain_health.Directives.Items.{with_value, parse_node-Ends, parse_reference-Ends}

module _ {S : Type 0} (d : Dispenser S) (readers : Readers) (left : S → ℕ)
    (finite : IsFinite d left) where
  node_type-Ends :
      (n : ℕ) (type : String) (config : Config) (t : S)
      → ConfigAccepted config
      → left t ≤ n
      → Ends left n ConfigAccepted (known_node_type d readers type config t)
  unfolding known_node_type
  node_type-Ends n type config t h le = elim (Bool-cases (is_known_type type)) [
    | inl known ↦ rw (known, known_node_type) (h, le)
    | inr other ↦ rw (other, known_node_type) tt
  ]

  -- A directive whose value is read, and then set in a way that keeps the configuration acceptable.
  with_reading :
      {A : Type 0} (message : String) (read : String → Reply A) (set : A → Config → Config)
      (config : Config) (s : S)
      → ((a : A) → ConfigAccepted (set a config))
      → Ends left
          (left s)
          ConfigAccepted
          (value d s >>= λ v t. (reading message (read v) t >>= λ a t. parsed (set a config) t))
  with_reading message read set config s keeps =
      with_value d readers left finite ConfigAccepted s _ (λ v t le.
        >>=-Ends left Any ConfigAccepted (left s) (reading message (read v) t)
          (λ a t. parsed (set a config) t)
          (reading-Ends left Any (left s) message (read v) t (λ a. tt) le)
          (λ a u t le. (keeps a, le)))

  directive-Ends :
      (directive : Directive) (fuel : ℕ) (config : Config) (s : S)
      → left s < fuel
      → ConfigAccepted config
      → Ends left (left s) ConfigAccepted (directive_line d readers directive fuel config s)
  unfolding directive_line
  directive-Ends node_block fuel config s enough h =
      >>=-Ends left NodeAccepted ConfigAccepted (left s)
        (in_context "parsing node: " (parse_node d readers fuel s))
        (λ node t. parsed (record config { nodes = config.nodes ++ node ∷ [] }) t)
        (in_context-Ends left NodeAccepted (left s) "parsing node: " (parse_node d readers fuel s)
          (parse_node-Ends d readers left finite fuel s enough))
        (λ node t p le. ((All-concat NodeAccepted config.nodes node h.0 p, h.1), le))
  directive-Ends reference_block fuel config s enough h =
      >>=-Ends left ReferenceAccepted ConfigAccepted (left s)
        (in_context "parsing external reference: " (parse_external_reference d readers fuel s))
        (λ ref t.
          parsed (record config { external_references = config.external_references ++ ref ∷ [] }) t)
        (in_context-Ends left ReferenceAccepted (left s) "parsing external reference: "
          (parse_external_reference d readers fuel s)
          (parse_reference-Ends d readers left finite fuel s enough))
        (λ ref t p le.
          ((h.0, All-concat ReferenceAccepted config.external_references ref h.1 p), le))
  directive-Ends (text field) fuel config s enough h =
      with_value d readers left finite ConfigAccepted s _
        (λ v t le. (text-Accepted field v config h, le))
  directive-Ends (number field) fuel config s enough h =
      with_reading (number_message field) readers.atoi (set_number field) config s
        (λ n. number-Accepted field n config h)
  directive-Ends (flag field) fuel config s enough h =
      with_reading (flag_message field) readers.parse_bool (set_flag field) config s
        (λ b. flag-Accepted field b config h)
  directive-Ends (servers field) fuel config s enough h =
      >>=-Ends left Any ConfigAccepted (left s) (values d fuel [] s)
        (λ found t. parsed (set_servers field (join found) config) t)
        (values-Ends d left finite fuel [] s enough)
        (λ found t u le. (servers-Accepted field (join found) config h, le))
  directive-Ends threshold fuel config s enough h =
      with_reading "invalid circuit_breaker_threshold: " readers.parse_float
        (λ n config. record config {
          failure_handling = record config.failure_handling { circuit_breaker_threshold = n };
        })
        config s (λ n. h)
  directive-Ends node_type fuel config s enough h =
      with_value d readers left finite ConfigAccepted s _
        (λ v t le. node_type-Ends (left s) v config t h le)
  directive-Ends unknown fuel config s enough h = tt

  block-Ends :
      (fuel : ℕ) (config : Config) (s : S)
      → left s < fuel
      → ConfigAccepted config
      → Ends left (left s) ConfigAccepted (parse_block d readers fuel config s)
  unfolding parse_block
  block-Ends =
      each-Ends left ConfigAccepted _ (d.next_block 0) (finite.next_block 0)
        (λ f config u. directive-Ends (directive_of (d.val u)) f config u)

  -- On a dispenser with finitely many tokens, and with more fuel than tokens, the parser of the
  -- module's block comes to an end: it fails with an error, or it returns a configuration all of
  -- whose nodes have a URL, a known type and a positive weight, and all of whose external
  -- references have a name, a URL and a known type, if those it began with do.
  pub parse_caddyfile-Ends :
      (fuel : ℕ) (config : Config) (s : S)
      → left s < fuel
      → ConfigAccepted config
      → Ends left (left s) ConfigAccepted (parse_caddyfile d readers fuel config s)
  unfolding parse_caddyfile
  parse_caddyfile-Ends = each-Ends left ConfigAccepted _ d.next finite.next block-Ends
