-- ===== src/Directives/References.antt =====
-- config.go: what `parseExternalReference` makes of a reference that is printed.
use caddy_blockchain_health.Common.{ℕ, ◌<◌, ◌≡◌, refl, true, [], ◌∷◌, String, ◌∙◌, ap}
use caddy_blockchain_health.Types.{ExternalReference}
use caddy_blockchain_health.Caddyfile.{Dispenser, Readers, Parsing, parsed, ◌>>=◌, reading}
use caddy_blockchain_health.Caddyfile.Reads.{
  nil, line, weight, after, after_args, Reads, ReadsArgs, Gives, nil-Gives, value_leaf, value-Reads,
}
use caddy_blockchain_health.Directives.{
  reference_line, reference_directive, complete_reference, reference_block_of,
  parse_external_reference,
}
use caddy_blockchain_health.Directives.Accepted.{ReferenceAccepted}
use caddy_blockchain_health.Directives.Print.{Printers, ReadsBack, reference_lines}

module _ {S : Type 0} (d : Dispenser S) (readers : Readers) where
  abbrev reference_body : ℕ → ExternalReference → S → Parsing S ExternalReference
  reference_body left ref s = reference_line d readers (reference_directive (d.val s)) left ref s

  -- The reference as `parseExternalReference` starts with it.
  abbrev new_reference : String → ExternalReference
  new_reference type = record { name = ""; url = ""; type = type; enabled = true }

  module _ (printers : Printers) (back : ReadsBack readers printers) where
    reference_lines-Gives :
        (r : ExternalReference)
        → Gives d reference_body 1 (new_reference r.type) (reference_lines printers r) r
    unfolding reference_line reference_directive
    reference_lines-Gives r =
        let unnamed = new_reference r.type in
        let named = record unnamed { name = r.name } in
        let located = record named { url = r.url } in
        value_leaf d reference_body 1 "name" r.name
          (line "url" (r.url ∷ []) nil (line "enabled" (printers.bool r.enabled ∷ []) nil nil))
          unnamed named r (λ w u. parsed (record unnamed { name = w }) u)
          (λ fuel t at.
            ap (λ x. reference_line d readers (reference_directive x) fuel unnamed t) at)
          (λ u. refl)
          (value_leaf d reference_body 1 "url" r.url
            (line "enabled" (printers.bool r.enabled ∷ []) nil nil) named located r
            (λ w u. parsed (record named { url = w }) u)
            (λ fuel t at.
              ap (λ x. reference_line d readers (reference_directive x) fuel named t) at)
            (λ u. refl)
            (value_leaf d reference_body 1 "enabled" (printers.bool r.enabled) nil located r r
              (λ w u. reading "invalid enabled value: " (readers.parse_bool w) u >>= λ enabled t.
                parsed (record located { enabled = enabled }) t)
              (λ fuel t at.
                ap (λ x. reference_line d readers (reference_directive x) fuel located t) at)
              (λ u. rw (back.bool r.enabled) refl) (nil-Gives d reference_body 1 r)))

    complete :
        (r : ExternalReference) (s : S)
        → ReferenceAccepted r
        → complete_reference d readers r s ≡ parsed r s
    unfolding complete_reference
    complete r s good = rw (good.0, complete_reference) (rw (good.1, complete_reference) refl)

    -- `parseExternalReference` reads a printed reference back.
    pub parse_external_reference-print :
        (r : ExternalReference)
        → ReferenceAccepted r
        → (fuel : ℕ) (t : S) → weight (reference_lines printers r) < fuel
        → ReadsArgs d (r.type ∷ []) t
        → Reads d 1 (reference_lines printers r) (after_args d (r.type ∷ []) t)
        → parse_external_reference d readers fuel t
          ≡ parsed r (after d 1 (reference_lines printers r) (after_args d (r.type ∷ []) t))
    unfolding parse_external_reference reference_block_of
    parse_external_reference-print r good fuel t enough args lines =
        ap (λ m. m >>= reference_block_of d readers fuel) (value-Reads d r.type t args)
        ∙ rw (good.2, reference_block_of)
            (ap (λ m. m >>= complete_reference d readers)
                (reference_lines-Gives r fuel (after_args d (r.type ∷ []) t) enough lines)
              ∙ complete r (after d 1 (reference_lines printers r) (after_args d (r.type ∷ []) t))
                  good)
