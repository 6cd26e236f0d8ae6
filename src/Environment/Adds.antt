-- ===== src/Environment/Adds.antt =====
-- config.go: what a step that adds nodes does: it adds them after those that are there, and changes
-- nothing else.
use mathlib.Core.List.{append_assoc, append-nil}
use caddy_blockchain_health.Common.{
  ◌≡◌, refl, false, List, [], ◌∷◌, ◌++◌, some, String, str_eq, map, All, ◌∙◌, ap, sym, subst,
}
use caddy_blockchain_health.Common.Dict.{lookup}
use caddy_blockchain_health.Types.{NodeConfig}
use caddy_blockchain_health.Types.Config.{Config}
use caddy_blockchain_health.Types.Protocol.{err}
use caddy_blockchain_health.Directives.Accepted.{NodeAccepted}
use caddy_blockchain_health.Environment.{Step, done, broke, ◌▷◌, blame}
use caddy_blockchain_health.Environment.Nodes.{Host}

-- A node as the environment makes them: one that is accepted, and says where it comes from.
abbrev pub IsGenerated : NodeConfig → Type 0
IsGenerated n = NodeAccepted n × (lookup "source" n.metadata ≡ some "environment")

abbrev pub with_nodes : List NodeConfig → Config → Config
with_nodes nodes c = record c { nodes = nodes }

abbrev pub urls : List NodeConfig → List String
urls = map (λ n. n.url)

module _ {Url : Type 0} (host : Host Url) where
  -- `strings.Fields` has no empty fields.
  abbrev pub SplitsFields : Type 0
  SplitsFields = (text : String) → All (λ t. str_eq t "" ≡ false) (host.fields text)

  abbrev pub Unparsed : String → Type 0
  Unparsed text = (e : String) × (host.parse text ≡ err e)

  -- The step adds a generated node for each text, in their order; or it fails at the first text
  -- that is no URL, when it has added the nodes of those before.
  abbrev pub Adds : Config → List String → Step → Type 0
  Adds c texts (done c') =
      (new : List NodeConfig) × (c' ≡ with_nodes (c.nodes ++ new) c)
      × All IsGenerated new
      × (urls new ≡ texts)
  Adds c texts (broke e c') =
      (new : List NodeConfig) × (c' ≡ with_nodes (c.nodes ++ new) c)
      × All IsGenerated new
      × ((text : String) × (rest : List String) × (urls new ++ text ∷ rest ≡ texts) × Unparsed text)

  pub done-Adds : (c : Config) → Adds c [] (done c)
  done-Adds c = ([], ap (λ ns. with_nodes ns c) (sym (append-nil c.nodes)), tt, refl)

  pub blame-Adds :
      (c : Config) (texts : List String) (message : String) (m : Step)
      → Adds c texts m
      → Adds c texts (blame message m)
  blame-Adds c texts message (done c') h = h
  blame-Adds c texts message (broke e c') h = h

  All-append :
      {A : Type 0} (P : A → Type 0) (xs ys : List A) → All P xs → All P ys → All P (xs ++ ys)
  All-append P [] ys h k = k
  All-append P (x ∷ xs) ys h k = (h.0, All-append P xs ys h.1 k)

  urls-++ : (xs ys : List NodeConfig) → urls (xs ++ ys) ≡ urls xs ++ urls ys
  urls-++ [] ys = refl
  urls-++ (x ∷ xs) ys = ap (λ r. x.url ∷ r) (urls-++ xs ys)

  -- Nodes that are there before a step count as added with it.
  pub before-Adds :
      (c : Config) (first : List NodeConfig) (texts : List String) (m : Step)
      → All IsGenerated first
      → Adds (with_nodes (c.nodes ++ first) c) texts m
      → Adds c (urls first ++ texts) m
  before-Adds c first texts (done c') good h = (
    first ++ h.0,
    h.1 ∙ ap (λ ns. with_nodes ns c) (append_assoc c.nodes first h.0),
    All-append IsGenerated first h.0 good h.2,
    urls-++ first h.0 ∙ ap (λ r. urls first ++ r) h.3,
  )
  before-Adds c first texts (broke e c') good h = (
    first ++ h.0,
    h.1 ∙ ap (λ ns. with_nodes ns c) (append_assoc c.nodes first h.0),
    All-append IsGenerated first h.0 good h.2,
    (
      h.3.0,
      h.3.1,
      ap (λ r. r ++ h.3.0 ∷ h.3.1) (urls-++ first h.0)
          ∙ append_assoc (urls first) (urls h.0) (h.3.0 ∷ h.3.1)
          ∙ ap (λ r. urls first ++ r) h.3.2,
      h.3.3,
    ),
  )

  -- One step after another.
  pub ▷-Adds :
      (c : Config) (texts texts' : List String) (m : Step) (k : Config → Step)
      → Adds c texts m
      → ((nodes : List NodeConfig) → Adds (with_nodes nodes c) texts' (k (with_nodes nodes c)))
      → Adds c (texts ++ texts') (m ▷ k)
  ▷-Adds c texts texts' (done c') k h next =
      subst (λ ts. Adds c (ts ++ texts') (k c')) h.3
        (subst (λ d. Adds c (urls h.0 ++ texts') (k d)) (sym h.1)
          (before-Adds c h.0 texts' (k (with_nodes (c.nodes ++ h.0) c)) h.2
            (next (c.nodes ++ h.0))))
  ▷-Adds c texts texts' (broke e c') k h next = (
    h.0,
    h.1,
    h.2,
    (
      h.3.0,
      h.3.1 ++ texts',
      sym (append_assoc (urls h.0) (h.3.0 ∷ h.3.1) texts') ∙ ap (λ r. r ++ texts') h.3.2,
      h.3.3,
    ),
  )
