-- ===== src/Environment/Servers.antt =====
-- config.go: the loops over servers add the nodes of their URLs.
use Prim.Native.String.{◌++◌ as then_text}
use mathlib.Core.List.{append-nil}
use caddy_blockchain_health.Common.{
  ℕ, suc, ◌≡◌, refl, arith, false, ◌⊎◌, inl, inr, List, [], ◌∷◌, ◌++◌, String, str_eq,
  if◌then◌else◌, All, Bool-cases, ◌∙◌, ap, sym, subst,
}
use caddy_blockchain_health.Common.Dict.{lookup, lookup-insert}
use caddy_blockchain_health.Types.{NodeConfig}
use caddy_blockchain_health.Types.Config.{Config}
use caddy_blockchain_health.Types.Protocol.{Reply, ok, err}
use caddy_blockchain_health.Environment.{
  Step, done, broke, blame, add_node, with_http_url, add_servers, parse_servers_from_env, discover,
  add_lists, add_web_sockets, correlated,
}
use caddy_blockchain_health.Environment.Nodes.{
  Host, node_at, create_node_from_url, actual_node_type, auto_detect_service_type, or_text,
}
use caddy_blockchain_health.Environment.Chains.{map_chain_type_to_protocol}
use caddy_blockchain_health.Environment.Types.{IsTyped, or_text_lem, protocol-KnownOr, typed_lem}
use caddy_blockchain_health.Environment.Adds.{
  IsGenerated, with_nodes, SplitsFields, Adds, done-Adds, blame-Adds, before-Adds, ▷-Adds,
}

pub reply_cases : {A : Type 0} (r : Reply A) → ((e : String) × (r ≡ err e)) ⊎ ((a : A) × (r ≡ ok a))
reply_cases (ok a) = inr (a, refl)
reply_cases (err e) = inl (e, refl)

module _ {Url : Type 0} (host : Host Url) where
  node_at-IsGenerated :
      (c : Config) (text : String) (url : Url) (service : String) (index : ℕ)
      → IsTyped c
      → str_eq text "" ≡ false
      → IsGenerated (node_at host c text url service index)
  unfolding node_at actual_node_type auto_detect_service_type lookup
  node_at-IsGenerated c text url service index typed named =
      let chain = or_text c.chain.chain_type "cosmos" in
      (
        (
          named,
          or_text_lem c.chain.node_type (or_text (map_chain_type_to_protocol chain) "cosmos")
              (typed_lem c typed)
              (or_text_lem (map_chain_type_to_protocol chain) "cosmos" (protocol-KnownOr chain)
                refl),
          omega arith,
        ),
        refl,
      )

  with_http_url-IsGenerated :
      (url : String) (n : NodeConfig) → IsGenerated n → IsGenerated (with_http_url host url n)
  with_http_url-IsGenerated url n h = elim (Bool-cases (str_eq url "")) [
    | inl missing ↦ rw missing h
    | inr found ↦ rw found (h.0, lookup-insert "http_url" "source" url n.metadata ∙ h.1)
  ]

  with_http_url-url : (url : String) (n : NodeConfig) → (with_http_url host url n).url ≡ n.url
  with_http_url-url url n = elim (Bool-cases (str_eq url "")) [
    | inl missing ↦ rw missing refl
    | inr found ↦ rw found refl
  ]

  -- A loop that fails at a text, and one that adds a node for it and goes on.
  broke-Adds :
      (c : Config) (text : String) (texts : List String) (message e : String)
      → host.parse text ≡ err e
      → Adds host c (text ∷ texts) (broke message c)
  broke-Adds c text texts message e unparsed = (
    [],
    ap (λ ns. with_nodes ns c) (sym (append-nil c.nodes)),
    tt,
    (text, texts, refl, (e, unparsed)),
  )

  cons-Adds :
      (c : Config) (n : NodeConfig) (text : String) (texts : List String) (m : Step)
      → IsGenerated n
      → n.url ≡ text
      → Adds host (add_node n c) texts m
      → Adds host c (text ∷ texts) m
  cons-Adds c n text texts m good same h =
      subst (λ t. Adds host c (t ∷ texts) m) same (before-Adds host c (n ∷ []) texts m (good, tt) h)

  add_servers-Adds :
      (service : String) (index : ℕ) (texts : List String) (c : Config)
      → IsTyped c
      → All (λ t. str_eq t "" ≡ false) texts
      → Adds host c texts (add_servers host service index texts c)
  unfolding add_servers create_node_from_url
  add_servers-Adds service index [] c typed named = done-Adds host c
  add_servers-Adds service index (text ∷ texts) c typed named =
      elim (reply_cases (host.parse text)) [
        | inl bad ↦
            rw (bad.1, add_servers)
              (broke-Adds c text texts
                (then_text "creating node from URL "
                  (then_text text (then_text ": " (then_text "parsing URL: " bad.0))))
                bad.0 bad.1)
        | inr good ↦
            let n = node_at host c text good.0 service index in
            rw (good.1, add_servers)
              (cons-Adds c n text texts (add_servers host service (suc index) texts (add_node n c))
                (node_at-IsGenerated c text good.0 service index typed named.0)
                (unfold node_at in refl)
                (add_servers-Adds service (suc index) texts (add_node n c) typed named.1))
      ]

  -- The servers in a text, and in the texts of a list.
  abbrev pub fields_of : String → List String
  fields_of servers = if str_eq servers "" then [] else host.fields servers

  abbrev pub listed : List (String × String) → List String
  listed [] = []
  listed ((servers, service) ∷ lists) = fields_of servers ++ listed lists

  parse_servers_from_env-Adds :
      (servers service : String) (c : Config)
      → SplitsFields host
      → IsTyped c
      → Adds host c (fields_of servers) (parse_servers_from_env host servers service c)
  unfolding parse_servers_from_env
  parse_servers_from_env-Adds servers service c splits typed =
      elim (Bool-cases (str_eq servers "")) [
        | inl missing ↦ rw missing (done-Adds host c)
        | inr given ↦
            rw given (add_servers-Adds service 0 (host.fields servers) c typed (splits servers))
      ]

  -- A text that is looked at only if it is not empty.
  given-Adds :
      (servers service message : String) (c : Config)
      → SplitsFields host
      → IsTyped c
      → Adds host c (fields_of servers) (
          if str_eq servers ""
          then done c
          else blame message (parse_servers_from_env host servers service c))
  given-Adds servers service message c splits typed = elim (Bool-cases (str_eq servers "")) [
    | inl missing ↦ rw missing (done-Adds host c)
    | inr given ↦
        let h =
          blame-Adds host c (fields_of servers) message
            (parse_servers_from_env host servers service c)
            (parse_servers_from_env-Adds servers service c splits typed) in
        rw given (
          subst
            (λ b.
              Adds host c (if b then [] else host.fields servers)
                (blame message (parse_servers_from_env host servers service c)))
            given h)
  ]

  pub add_lists-Adds :
      (lists : List (String × String)) (c : Config)
      → SplitsFields host
      → IsTyped c
      → Adds host c (listed lists) (add_lists host lists c)
  unfolding add_lists
  add_lists-Adds [] c splits typed = done-Adds host c
  add_lists-Adds ((servers, service) ∷ lists) c splits typed =
      ▷-Adds host c (fields_of servers) (listed lists)
        (if str_eq servers ""
          then done c
          else blame (then_text "parsing " (then_text service " servers: "))
              (parse_servers_from_env host servers service c))
        (add_lists host lists)
        (given-Adds servers service (then_text "parsing " (then_text service " servers: ")) c splits
          typed)
        (λ nodes. add_lists-Adds lists (with_nodes nodes c) splits typed)

  -- The servers in the variables.
  abbrev pub discovered : List (String × String) → List String
  discovered [] = []
  discovered ((var, service) ∷ vars) = fields_of (host.getenv var) ++ discovered vars

  pub discover-Adds :
      (vars : List (String × String)) (c : Config)
      → SplitsFields host
      → IsTyped c
      → Adds host c (discovered vars) (discover host vars c)
  unfolding discover
  discover-Adds [] c splits typed = done-Adds host c
  discover-Adds ((var, service) ∷ vars) c splits typed =
      ▷-Adds host c (fields_of (host.getenv var)) (discovered vars)
        (if str_eq (host.getenv var) ""
          then done c
          else blame (then_text "parsing " (then_text var ": "))
              (parse_servers_from_env host (host.getenv var) service c))
        (discover host vars)
        (given-Adds (host.getenv var) service (then_text "parsing " (then_text var ": ")) c splits
          typed)
        (λ nodes. discover-Adds vars (with_nodes nodes c) splits typed)

  pub add_web_sockets-Adds :
      (sockets https : List String) (index : ℕ) (texts : List String) (c : Config)
      → IsTyped c
      → All (λ t. str_eq t "" ≡ false) texts
      → Adds host c texts (add_web_sockets host sockets https index texts c)
  unfolding add_web_sockets create_node_from_url
  add_web_sockets-Adds sockets https index [] c typed named = done-Adds host c
  add_web_sockets-Adds sockets https index (text ∷ texts) c typed named =
      elim (reply_cases (host.parse text)) [
        | inl bad ↦
            rw (bad.1, add_web_sockets)
              (broke-Adds c text texts
                (then_text "creating WebSocket node from URL "
                  (then_text text (then_text ": " (then_text "parsing URL: " bad.0))))
                bad.0 bad.1)
        | inr good ↦
            let found = correlated host sockets https index text in
            let n = node_at host c text good.0 "websocket" index in
            let linked = with_http_url host found n in
            rw (good.1, add_web_sockets)
              (cons-Adds c linked text texts
                (add_web_sockets host sockets https (suc index) texts (add_node linked c))
                (with_http_url-IsGenerated found n
                  (node_at-IsGenerated c text good.0 "websocket" index typed named.0))
                (with_http_url-url found n ∙ (unfold node_at in refl))
                (add_web_sockets-Adds sockets https (suc index) texts (add_node linked c) typed
                  named.1))
      ]
