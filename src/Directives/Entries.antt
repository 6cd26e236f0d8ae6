-- ===== src/Directives/Entries.antt =====
-- config.go: what the inner loop of `parseCaddyfile` makes of printed entries.
use caddy_blockchain_health.Common.{ℕ, ◌≡◌, refl, List, [], ◌∷◌, String, ◌∙◌, ap, All}
use caddy_blockchain_health.Types.Config.{Config}
use caddy_blockchain_health.Caddyfile.{
  Dispenser, Readers, Parsing, parsed, ◌>>=◌, in_context, reading,
}
use caddy_blockchain_health.Caddyfile.Reads.{
  nil, line, Gives, nil-Gives, leaf-Gives, block-Gives, value_leaf, values-Reads,
}
use caddy_blockchain_health.Directives.Fields.{
  Directive, node_block, reference_block, directive_of, set_text, set_number, set_flag, set_servers,
  number_message, flag_message,
}
use caddy_blockchain_health.Directives.{join, directive_line, known_node_type}
use caddy_blockchain_health.Directives.Print.{
  Printers, ReadsBack, Entry, node, reference, text, number, flag, servers, threshold, node_type,
  apply, apply_all, IsFit, text_name, number_name, flag_name, servers_name, api_lines, print,
}
use caddy_blockchain_health.Directives.Names.{
  text_name_lem, number_name_lem, flag_name_lem, servers_name_lem,
}
use caddy_blockchain_health.Directives.Nodes.{parse_node-print}
use caddy_blockchain_health.Directives.References.{parse_external_reference-print}

module _ {S : Type 0} (d : Dispenser S) (readers : Readers) where
  -- The body of the inner loop of `parseCaddyfile`.
  abbrev pub block_body : ℕ → Config → S → Parsing S Config
  block_body left config s = directive_line d readers (directive_of (d.val s)) left config s

  body_at :
      (directive : Directive) (name : String) (c : Config) (fuel : ℕ) (t : S)
      → directive_of name ≡ directive
      → d.val t ≡ name
      → block_body fuel c t ≡ directive_line d readers directive fuel c t
  body_at directive name c fuel t known at =
      ap (λ x. directive_line d readers x fuel c t) (ap directive_of at ∙ known)

  module _ (printers : Printers) (back : ReadsBack readers printers) where
    -- One entry, by what the parser makes of its line, and what it makes of the rest.
    entry-Gives :
        (e : Entry) (es : List Entry) (c r : Config)
        → IsFit e
        → Gives d block_body 0 (apply e c) (print printers es) r
        → Gives d block_body 0 c (print printers (e ∷ es)) r
    unfolding directive_line known_node_type
    entry-Gives (node n) es c r fit more =
        block-Gives d block_body 0 "node" (n.name ∷ []) "url" (n.url ∷ []) nil
          (api_lines printers n) (print printers es) c (apply (node n) c) r
          (λ fuel t enough at args lines.
            body_at node_block "node" c fuel t (unfold directive_of in refl) at
            ∙ ap (λ m. in_context "parsing node: " m >>= λ found u. parsed (apply (node found) c) u)
                (parse_node-print d readers printers back n fit.0 fit.1 fit.2 fuel t enough args
                  lines))
          more
    entry-Gives (reference x) es c r fit more =
        block-Gives d block_body 0 "external_reference" (x.type ∷ []) "name" (x.name ∷ []) nil
          (line "url" (x.url ∷ []) nil (line "enabled" (printers.bool x.enabled ∷ []) nil nil))
          (print printers es) c (apply (reference x) c) r
          (λ fuel t enough at args lines.
            body_at reference_block "external_reference" c fuel t (unfold directive_of in refl) at
            ∙ ap
                (λ m. in_context "parsing external reference: " m >>= λ found u.
                  parsed (apply (reference found) c) u)
                (parse_external_reference-print d readers printers back x fit fuel t enough args
                  lines))
          more
    entry-Gives (text field v) es c r fit more =
        value_leaf d block_body 0 (text_name field) v (print printers es) c (set_text field v c) r
          (λ w u. parsed (set_text field w c) u)
          (λ fuel t at. body_at (Directive.text field) _ c fuel t (text_name_lem field) at)
          (λ u. refl) more
    entry-Gives (number field n) es c r fit more =
        value_leaf d block_body 0 (number_name field) (printers.int n) (print printers es) c
          (set_number field n c) r
          (λ w u. reading (number_message field) (readers.atoi w) u >>= λ n t.
            parsed (set_number field n c) t)
          (λ fuel t at. body_at (Directive.number field) _ c fuel t (number_name_lem field) at)
          (λ u. rw (back.int n fit) refl) more
    entry-Gives (flag field b) es c r fit more =
        value_leaf d block_body 0 (flag_name field) (printers.bool b) (print printers es) c
          (set_flag field b c) r
          (λ w u. reading (flag_message field) (readers.parse_bool w) u >>= λ b t.
            parsed (set_flag field b c) t)
          (λ fuel t at. body_at (Directive.flag field) _ c fuel t (flag_name_lem field) at)
          (λ u. rw (back.bool b) refl) more
    entry-Gives (servers field vs) es c r fit more =
        leaf-Gives d block_body 0 (servers_name field) vs (print printers es) c
          (set_servers field (join vs) c) r
          (λ fuel t enough at args.
            body_at (Directive.servers field) _ c fuel t (servers_name_lem field) at
            ∙ ap (λ m. m >>= λ found u. parsed (set_servers field (join found) c) u)
                (values-Reads d vs [] fuel t enough args))
          more
    entry-Gives (threshold n) es c r fit more =
        value_leaf d block_body 0 "circuit_breaker_threshold" (printers.float n) (print printers es)
          c (apply (threshold n) c) r
          (λ w u. reading "invalid circuit_breaker_threshold: " (readers.parse_float w) u >>= λ n t.
            parsed (apply (threshold n) c) t)
          (λ fuel t at.
            body_at Directive.threshold "circuit_breaker_threshold" c fuel t
              (unfold directive_of in refl) at)
          (λ u. rw (back.float n fit) refl) more
    entry-Gives (node_type type) es c r fit more =
        value_leaf d block_body 0 "node_type" type (print printers es) c (apply (node_type type) c)
          r (λ w u. known_node_type d readers w c u)
          (λ fuel t at.
            body_at Directive.node_type "node_type" c fuel t (unfold directive_of in refl) at)
          (λ u. rw (fit, known_node_type) refl) more

    pub entries-Gives :
        (es : List Entry) (c : Config)
        → All IsFit es
        → Gives d block_body 0 c (print printers es) (apply_all es c)
    entries-Gives [] c fit = nil-Gives d block_body 0 c
    entries-Gives (e ∷ es) c fit =
        entry-Gives e es c (apply_all es (apply e c)) fit.0 (entries-Gives es (apply e c) fit.1)
