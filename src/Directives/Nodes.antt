-- ===== src/Directives/Nodes.antt =====
-- config.go: what `parseNode` makes of a node that is printed.
use mathlib.Core.List.{append_assoc, append-nil}
use caddy_blockchain_health.Common.{
  ℕ, ◌<◌, ◌≡◌, refl, arith, true, false, List, [], ◌∷◌, ◌++◌, String, str_eq, eq_iff, ◌∙◌, ap, sym,
  subst, Bool-cases, inl, inr,
}
use caddy_blockchain_health.Common.Int.{pos, leb_ℤ}
use caddy_blockchain_health.Common.Dict.{insert}
use caddy_blockchain_health.Types.{NodeConfig}
use caddy_blockchain_health.Settings.{is_known_type}
use caddy_blockchain_health.Cache.Keys.{Fresh, HasUniqueKeys}
use caddy_blockchain_health.Caddyfile.{
  Dispenser, Readers, Parsing, parsed, ◌>>=◌, reading, value, each,
}
use caddy_blockchain_health.Caddyfile.Reads.{
  Segments, nil, line, weight, after, after_args, Reads, ReadsArgs, Gives, nil-Gives, block-Gives,
  value_leaf, value-Reads,
}
use caddy_blockchain_health.Directives.{
  metadata_entry, known_type, positive_weight, node_line, new_node, complete_node, parse_node,
  node_directive,
}
use caddy_blockchain_health.Directives.Accepted.{NodeAccepted}
use caddy_blockchain_health.Directives.Print.{
  IsInt, Printers, ReadsBack, metadata_lines, metadata_block_lines, node_lines, weight_lines,
  chain_lines, type_lines, api_lines,
}

abbrev Metadata : Type 0
Metadata = List (String × String)

unique_before :
    (acc : Metadata) (key v : String) (m : Metadata)
    → HasUniqueKeys (acc ++ (key, v) ∷ m)
    → Fresh key acc
unique_before [] key v m h = tt
unique_before ((i, w) ∷ acc) key v m h = (differs acc h.0, unique_before acc key v m h.1)
  where
    differs : (acc : Metadata) → Fresh i (acc ++ (key, v) ∷ m) → str_eq i key ≡ false
    differs [] f = ground (arith, f.0, eq_iff i key, eq_iff key i)
    differs (x ∷ acc) f = differs acc f.1

insert-Fresh_lem :
    (key v : String) (acc : Metadata) → Fresh key acc → insert key v acc ≡ acc ++ (key, v) ∷ []
unfolding insert
insert-Fresh_lem key v [] h = refl
insert-Fresh_lem key v ((i, w) ∷ acc) h =
    rw (h.0, insert) (ap (λ m. (i, w) ∷ m) (insert-Fresh_lem key v acc h.1))

module _ {S : Type 0} (d : Dispenser S) (readers : Readers) where
  -- A metadata block adds its entries to those that are there.
  metadata-Gives :
      (m acc : Metadata)
      → HasUniqueKeys (acc ++ m)
      → Gives d (metadata_entry d readers) 2 acc (metadata_lines m) (acc ++ m)
  unfolding metadata_entry
  metadata-Gives [] acc h =
      subst (λ r. Gives d (metadata_entry d readers) 2 acc nil r) (sym (append-nil acc))
        (nil-Gives d (metadata_entry d readers) 2 acc)
  metadata-Gives ((key, v) ∷ m) acc h =
      value_leaf d (metadata_entry d readers) 2 key v (metadata_lines m) acc (acc ++ (key, v) ∷ [])
        (acc ++ (key, v) ∷ m) (λ w t. parsed (insert key w acc) t)
        (λ fuel t at. ap (λ k. value d t >>= λ w u. parsed (insert k w acc) u) at)
        (λ u. ap (λ m. parsed m u) (insert-Fresh_lem key v acc (unique_before acc key v m h)))
        (subst (Gives d (metadata_entry d readers) 2 (acc ++ (key, v) ∷ []) (metadata_lines m))
          (append_assoc acc ((key, v) ∷ []) m)
          (metadata-Gives m (acc ++ (key, v) ∷ [])
            (subst HasUniqueKeys (sym (append_assoc acc ((key, v) ∷ []) m)) h)))

  -- The body of the loop of `parseNode`.
  abbrev node_body : ℕ → NodeConfig → S → Parsing S NodeConfig
  node_body left node s = node_line d readers (node_directive (d.val s)) left node s

  metadata_block-Gives :
      (node : NodeConfig) (m : Metadata)
      → node.metadata ≡ []
      → HasUniqueKeys m
      → Gives d node_body 1 node (metadata_block_lines m) (record node { metadata = m })
  unfolding node_line node_directive
  metadata_block-Gives node [] none h =
      subst (λ m. Gives d node_body 1 node nil (record node { metadata = m })) none
        (nil-Gives d node_body 1 node)
  metadata_block-Gives node ((key, v) ∷ m) none h =
      block-Gives d node_body 1 "metadata" [] key (v ∷ []) nil (metadata_lines m) nil node
        (record node { metadata = (key, v) ∷ m }) (record node { metadata = (key, v) ∷ m })
        (λ fuel t enough at args reads.
          ap (λ name. node_line d readers (node_directive name) fuel node t) at
          ∙ ap (λ outcome. outcome >>= λ m t. parsed (record node { metadata = m }) t)
              (ap (λ m. each (metadata_entry d readers) (d.next_block 2) fuel m t) none
                ∙ metadata-Gives ((key, v) ∷ m) [] h fuel t enough reads))
        (nil-Gives d node_body 1 (record node { metadata = (key, v) ∷ m }))

  -- A line of a node whose value is stored as it is.
  node_value :
      (name v : String) (rest : Segments) (a b r : NodeConfig) (set : String → NodeConfig)
      → ((fuel : ℕ) (t : S)
          → node_line d readers (node_directive name) fuel a t
            ≡ (value d t >>= λ w u. parsed (set w) u))
      → set v ≡ b
      → Gives d node_body 1 b rest r
      → Gives d node_body 1 a (line name (v ∷ []) nil rest) r
  node_value name v rest a b r set line_is same =
      value_leaf d node_body 1 name v rest a b r (λ w u. parsed (set w) u)
        (λ fuel t at. ap (λ x. node_line d readers (node_directive x) fuel a t) at ∙ line_is fuel t)
        (λ u. ap (λ n. parsed n u) same)

  -- The node after its URLs, its type, its chain and its weight have been read.
  abbrev with_urls : NodeConfig → NodeConfig
  unfolding new_node
  with_urls n = record (new_node d readers n.name) {
    url = n.url;
    api_url = n.api_url;
    websocket_url = n.websocket_url;
  }

  abbrev with_type : NodeConfig → NodeConfig
  with_type n = record (with_urls n) { type = n.type }

  abbrev with_chain : NodeConfig → NodeConfig
  with_chain n = record (with_type n) { chain_type = n.chain_type }

  abbrev with_weight : NodeConfig → NodeConfig
  with_weight n = record (with_chain n) { weight = n.weight }

  module _ (printers : Printers) (back : ReadsBack readers printers) where
    weight-Gives :
        (n : NodeConfig)
        → NodeAccepted n
        → HasUniqueKeys n.metadata
        → IsInt n.weight
        → Gives d node_body 1
            (with_chain n)
            (line "weight" (printers.int n.weight ∷ []) nil (metadata_block_lines n.metadata))
            n
    unfolding node_line node_directive new_node positive_weight
    weight-Gives n good unique fits =
        value_leaf d node_body 1 "weight" (printers.int n.weight) (metadata_block_lines n.metadata)
          (with_chain n) (with_weight n) n
          (λ w u. reading "invalid weight: " (readers.atoi w) u >>= λ weight t.
            positive_weight d readers weight (with_chain n) t)
          (λ fuel t at. ap (λ x. node_line d readers (node_directive x) fuel (with_chain n) t) at)
          (λ u. rw (back.int n.weight fits) (rw (heavy, positive_weight) refl))
          (metadata_block-Gives (with_weight n) n.metadata refl unique)
      where
        heavy : leb_ℤ n.weight (pos 0) ≡ false
        heavy = ground (arith, good.2)

    node_lines-Gives :
        (n : NodeConfig)
        → NodeAccepted n
        → HasUniqueKeys n.metadata
        → IsInt n.weight
        → Gives d node_body 1 (new_node d readers n.name) (node_lines printers n) n
    unfolding node_line node_directive new_node known_type
    node_lines-Gives n good unique fits =
        node_value "url" n.url (api_lines printers n) (new_node d readers n.name) _ n _
          (λ fuel t. refl) refl
          (node_value "api_url" n.api_url
            (line "websocket_url" (n.websocket_url ∷ []) nil (type_lines printers n)) _ _ n _
            (λ fuel t. refl) refl
            (node_value "websocket_url" n.websocket_url (type_lines printers n) _ (with_urls n) n _
              (λ fuel t. refl) refl
              (value_leaf d node_body 1 "type" n.type (chain_lines printers n) (with_urls n)
                (with_type n) n (λ w u. known_type d readers w (with_urls n) u)
                (λ fuel t at.
                  ap (λ x. node_line d readers (node_directive x) fuel (with_urls n) t) at)
                (λ u. rw (good.1, known_type) refl)
                (node_value "chain_type" n.chain_type (weight_lines printers n) (with_type n)
                  (with_chain n) n _ (λ fuel t. refl) refl (weight-Gives n good unique fits)))))

    complete : (n : NodeConfig) (s : S) → NodeAccepted n → complete_node d readers n s ≡ parsed n s
    unfolding complete_node
    complete n s good = rw (good.0, complete_node) (rw (typed n.type good.1, complete_node) refl)
      where
        typed : (type : String) → is_known_type type ≡ true → str_eq type "" ≡ false
        typed type known = elim (Bool-cases (str_eq type "")) [
          | inl none ↦ absurd (cc (known, ap is_known_type ((eq_iff type "").0 none)))
          | inr some ↦ some
        ]

    -- `parseNode` reads a printed node back.
    pub parse_node-print :
        (n : NodeConfig)
        → NodeAccepted n
        → HasUniqueKeys n.metadata
        → IsInt n.weight
        → (fuel : ℕ) (t : S) → weight (node_lines printers n) < fuel
        → ReadsArgs d (n.name ∷ []) t
        → Reads d 1 (node_lines printers n) (after_args d (n.name ∷ []) t)
        → parse_node d readers fuel t
          ≡ parsed n (after d 1 (node_lines printers n) (after_args d (n.name ∷ []) t))
    unfolding parse_node
    parse_node-print n good unique fits fuel t enough args lines =
        ap
          (λ m. m >>= λ name u.
            (each node_body (d.next_block 1) fuel (new_node d readers name) u
              >>= complete_node d readers))
          (value-Reads d n.name t args)
        ∙ ap (λ m. m >>= complete_node d readers)
            (node_lines-Gives n good unique fits fuel (after_args d (n.name ∷ []) t) enough lines)
        ∙ complete n (after d 1 (node_lines printers n) (after_args d (n.name ∷ []) t)) good
