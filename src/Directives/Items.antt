-- ===== src/Directives/Items.antt =====
-- The parsers of a node and of an external reference come to an end, with one that is accepted.
use caddy_blockchain_health.Common.{
  ℕ, ◌≤◌, ◌<◌, ◌≡◌, refl, arith, true, false, String, str_eq, Bool-cases, ◌⊎◌, inl, inr,
}
use caddy_blockchain_health.Common.Int.{ℤ, pos, leb_ℤ}
use caddy_blockchain_health.Types.{NodeConfig, ExternalReference}
use caddy_blockchain_health.Settings.{is_known_type}
use caddy_blockchain_health.Caddyfile.{
  Dispenser, Readers, Parsing, parsed, ◌>>=◌, reading, value, each,
}
use caddy_blockchain_health.Caddyfile.Ends.{
  IsFinite, Ends, Any, loosen, >>=-Ends, reading-Ends, each-Ends, value-Ends,
}
use caddy_blockchain_health.Directives.{
  NodeDirective, url_value, api_url_value, websocket_url_value, type_value, chain_type_value,
  weight_value, metadata_block, node_directive, ReferenceDirective, name_value, enabled_value,
  reference_directive, metadata_entry, known_type, positive_weight, node_line, new_node,
  complete_node, parse_node, reference_line, complete_reference, reference_block_of,
  parse_external_reference,
}
use caddy_blockchain_health.Directives.Accepted.{
  NodeAccepted, NodePart, ReferenceAccepted, ReferencePart,
}

module _ {S : Type 0} (d : Dispenser S) (readers : Readers) (left : S → ℕ)
    (finite : IsFinite d left) where
  -- A directive with one value: what is done with the value ends, and so does the directive.
  pub with_value :
      {A : Type 0} (J : A → Type 0) (s : S) (k : String → S → Parsing S A)
      → ((v : String) (t : S) → left t ≤ left s → Ends left (left s) J (k v t))
      → Ends left (left s) J (value d s >>= k)
  with_value J s k f =
      >>=-Ends left Any J (left s) (value d s) k (value-Ends d left finite s) (λ v t u le. f v t le)

  known_type-Ends :
      (n : ℕ) (type : String) (node : NodeConfig) (t : S)
      → NodePart node
      → left t ≤ n
      → Ends left n NodePart (known_type d readers type node t)
  unfolding known_type
  known_type-Ends n type node t h le = elim (Bool-cases (is_known_type type)) [
    | inl known ↦ rw (known, known_type) ((inr known, h.1), le)
    | inr other ↦ rw (other, known_type) tt
  ]

  positive_weight-Ends :
      (n : ℕ) (weight : ℤ) (node : NodeConfig) (t : S)
      → NodePart node
      → left t ≤ n
      → Ends left n NodePart (positive_weight d readers weight node t)
  unfolding positive_weight
  positive_weight-Ends n weight node t h le = elim (Bool-cases (leb_ℤ weight (pos 0))) [
    | inl small ↦ rw (small, positive_weight) tt
    | inr large ↦ rw (large, positive_weight) ((h.0, ground arith), le)
  ]

  node_line-Ends :
      (directive : NodeDirective) (fuel : ℕ) (node : NodeConfig) (s : S)
      → left s < fuel
      → NodePart node
      → Ends left (left s) NodePart (node_line d readers directive fuel node s)
  unfolding node_line
  node_line-Ends url_value fuel node s enough h = with_value NodePart s _ (λ v t le. (h, le))
  node_line-Ends api_url_value fuel node s enough h = with_value NodePart s _ (λ v t le. (h, le))
  node_line-Ends websocket_url_value fuel node s enough h =
      with_value NodePart s _ (λ v t le. (h, le))
  node_line-Ends chain_type_value fuel node s enough h = with_value NodePart s _ (λ v t le. (h, le))
  node_line-Ends type_value fuel node s enough h =
      with_value NodePart s _ (λ v t le. known_type-Ends (left s) v node t h le)
  node_line-Ends weight_value fuel node s enough h = with_value NodePart s _ (λ v t le.
      >>=-Ends left Any NodePart (left s) (reading "invalid weight: " (readers.atoi v) t)
        (λ weight t. positive_weight d readers weight node t)
        (reading-Ends left Any (left s) "invalid weight: " (readers.atoi v) t (λ a. tt) le)
        (λ weight t u le. positive_weight-Ends (left s) weight node t h le))
  node_line-Ends metadata_block fuel node s enough h =
      >>=-Ends left Any NodePart (left s)
        (each (metadata_entry d readers) (d.next_block 2) fuel node.metadata s)
        (λ metadata t. parsed (record node { metadata = metadata }) t)
        (each-Ends left Any (metadata_entry d readers) (d.next_block 2) (finite.next_block 2)
          (λ f m t e u. unfold metadata_entry in with_value Any t _ (λ v t le. (tt, le))) fuel
          node.metadata s enough tt)
        (λ metadata t u le. (h, le))
  node_line-Ends NodeDirective.other fuel node s enough h = tt

  complete_node-Ends :
      (n : ℕ) (node : NodeConfig) (s : S)
      → NodePart node
      → left s ≤ n
      → Ends left n NodeAccepted (complete_node d readers node s)
  unfolding complete_node
  complete_node-Ends n node s h le = elim (Bool-cases (str_eq node.url "")) [
    | inl none ↦ rw (none, complete_node) tt
    | inr url ↦ elim (Bool-cases (str_eq node.type "")) [
      | inl untyped ↦ rw (url, untyped, complete_node) tt
      | inr typed ↦ rw (url, typed, complete_node) ((url, of_part h.0 typed, h.1), le)
    ]
  ]
    where
      of_part :
          (str_eq node.type "" ≡ true) ⊎ (is_known_type node.type ≡ true)
          → str_eq node.type "" ≡ false
          → is_known_type node.type ≡ true
      of_part (inl e) f = absurd (cc (e, f))
      of_part (inr k) f = k

  pub parse_node-Ends :
      (fuel : ℕ) (s : S)
      → left s < fuel
      → Ends left (left s) NodeAccepted (parse_node d readers fuel s)
  unfolding parse_node
  parse_node-Ends fuel s enough = with_value NodeAccepted s _ (λ name t le.
      >>=-Ends left NodePart NodeAccepted (left s)
        (each (λ left node s. node_line d readers (node_directive (d.val s)) left node s)
          (d.next_block 1) fuel (new_node d readers name) t)
        (complete_node d readers)
        (loosen left NodePart (left t) (left s) _ le (
          each-Ends left NodePart _ (d.next_block 1) (finite.next_block 1)
            (λ f node u. node_line-Ends (node_directive (d.val u)) f node u) fuel
            (new_node d readers name) t (omega (arith, le, enough))
            (unfold new_node in (inl refl, omega arith))))
        (λ node u h. complete_node-Ends (left s) node u h))

  reference_line-Ends :
      (directive : ReferenceDirective) (fuel : ℕ) (ref : ExternalReference) (s : S)
      → left s < fuel
      → ReferencePart ref
      → Ends left (left s) ReferencePart (reference_line d readers directive fuel ref s)
  unfolding reference_line
  reference_line-Ends name_value fuel ref s enough h =
      with_value ReferencePart s _ (λ v t le. (h, le))
  reference_line-Ends ReferenceDirective.url_value fuel ref s enough h =
      with_value ReferencePart s _ (λ v t le. (h, le))
  reference_line-Ends enabled_value fuel ref s enough h = with_value ReferencePart s _ (λ v t le.
      >>=-Ends left Any ReferencePart (left s)
        (reading "invalid enabled value: " (readers.parse_bool v) t)
        (λ enabled t. parsed (record ref { enabled = enabled }) t)
        (reading-Ends left Any (left s) "invalid enabled value: " (readers.parse_bool v) t (λ a. tt)
          le)
        (λ enabled u t le. (h, le)))
  reference_line-Ends ReferenceDirective.other fuel ref s enough h = tt

  complete_reference-Ends :
      (n : ℕ) (ref : ExternalReference) (s : S)
      → ReferencePart ref
      → left s ≤ n
      → Ends left n ReferenceAccepted (complete_reference d readers ref s)
  unfolding complete_reference
  complete_reference-Ends n ref s h le = elim (Bool-cases (str_eq ref.name "")) [
    | inl unnamed ↦ rw (unnamed, complete_reference) tt
    | inr named ↦ elim (Bool-cases (str_eq ref.url "")) [
      | inl none ↦ rw (named, none, complete_reference) tt
      | inr url ↦ rw (named, url, complete_reference) ((named, url, h), le)
    ]
  ]

  reference_block-Ends :
      (fuel : ℕ) (type : String) (s : S)
      → left s < fuel
      → Ends left (left s) ReferenceAccepted (reference_block_of d readers fuel type s)
  unfolding reference_block_of
  reference_block-Ends fuel type s enough = elim (Bool-cases (is_known_type type)) [
    | inl known ↦
        rw (known, reference_block_of)
          (>>=-Ends left ReferencePart ReferenceAccepted (left s)
            (each
              (λ left ref s. reference_line d readers (reference_directive (d.val s)) left ref s)
              (d.next_block 1) fuel (record { name = ""; url = ""; type = type; enabled = true }) s)
            (complete_reference d readers)
            (each-Ends left ReferencePart _ (d.next_block 1) (finite.next_block 1)
              (λ f ref u. reference_line-Ends (reference_directive (d.val u)) f ref u) fuel
              (record { name = ""; url = ""; type = type; enabled = true }) s enough known)
            (λ ref u h. complete_reference-Ends (left s) ref u h))
    | inr other ↦ rw (other, reference_block_of) tt
  ]

  pub parse_reference-Ends :
      (fuel : ℕ) (s : S)
      → left s < fuel
      → Ends left (left s) ReferenceAccepted (parse_external_reference d readers fuel s)
  unfolding parse_external_reference
  parse_reference-Ends fuel s enough = with_value ReferenceAccepted s _ (λ type t le.
      loosen left ReferenceAccepted (left t) (left s) (reference_block_of d readers fuel type t) le
        (reference_block-Ends fuel type t (omega (arith, le, enough))))
