-- ===== src/Upstream/Offers.antt =====
-- Which upstreams a request is offered, against a description by one filter.
use caddy_blockchain_health.Common.{
  ◌≡◌, refl, arith, Bool, true, false, ◌&&◌, List, [], ◌∷◌, Option, String, if◌then◌else◌, ap, ◌∙◌,
  ◌==◌, filter_map, count_if,
}
use caddy_blockchain_health.Common.Int.{pos, ltb_ℤ}
use caddy_blockchain_health.Types.{NodeConfig, NodeHealth, Heap, Ref, find_node}
use caddy_blockchain_health.Types.Config.{Config}
use caddy_blockchain_health.Upstream.{
  is_websocket_upgrade_request, Request, answer_with, Env, serve, HealthChecker, Upstream,
  Selection, no_selection, add_upstream, select_one, select_all, fall_back, needs_fallback,
  select_upstreams, Upstreams, selected, no_available, answer,
}
use caddy_blockchain_health.Upstream.Filter.{records, fits, usable, offer}
use caddy_blockchain_health.Upstream.Loops.{host-Adds, one-Adds, loop-Adds}

-- The upstreams that a request is offered, by one filter over the results: those of the nodes that fit,
-- or of all nodes if none fits and at least one is required.
abbrev pub offered : (String → Option String) → Config → Bool → List NodeHealth → List Upstream
offered parse_host config is_websocket healths =
    if ltb_ℤ (pos (count_if (fits config.nodes is_websocket) healths))
        config.failure_handling.min_healthy_nodes
      && count_if (fits config.nodes is_websocket) healths == 0
    then filter_map (usable parse_host config.nodes) healths
    else filter_map (offer parse_host config.nodes is_websocket) healths

select_all_lem :
    (parse_host : String → Option String) (nodes : List NodeConfig) (is_websocket : Bool)
    (heap : Heap) (refs : List Ref)
    → ((select_all parse_host nodes is_websocket heap refs).upstreams
        ≡ filter_map (offer parse_host nodes is_websocket) (records heap refs))
      × ((select_all parse_host nodes is_websocket heap refs).healthy_count
          ≡ count_if (fits nodes is_websocket) (records heap refs))
unfolding select_all no_selection
select_all_lem parse_host nodes is_websocket heap refs =
    let r =
      loop-Adds (select_one parse_host nodes is_websocket) (offer parse_host nodes is_websocket)
        (fits nodes is_websocket) heap refs no_selection (one-Adds parse_host nodes is_websocket) in
    (r.0, omega (arith, r.1))

fall_back_lem :
    (parse_host : String → Option String) (nodes : List NodeConfig) (heap : Heap) (refs : List Ref)
    (s : Selection)
    → (fall_back parse_host nodes heap refs s).upstreams
      ≡ filter_map (usable parse_host nodes) (records heap refs)
unfolding fall_back add_upstream
fall_back_lem parse_host nodes heap refs s =
    (loop-Adds
      (λ health. add_upstream parse_host health (find_node health.name nodes) "fallback_all")
      (usable parse_host nodes) (λ _. false) heap refs
      (record s { upstreams = []; selected_infos = [] })
      (λ health t.
        host-Adds (parse_host health.url) health (find_node health.name nodes) "fallback_all" t)).0

select_upstreams_lem :
    (parse_host : String → Option String) (config : Config) (is_websocket : Bool) (heap : Heap)
    (refs : List Ref)
    → (select_upstreams parse_host config is_websocket heap refs).upstreams
      ≡ offered parse_host config is_websocket (records heap refs)
unfolding select_upstreams needs_fallback
select_upstreams_lem parse_host config is_websocket heap refs =
    let all = select_all_lem parse_host config.nodes is_websocket heap refs in
    let s = select_all parse_host config.nodes is_websocket heap refs in
    pick (needs_fallback config s)
    ∙ ap
        (λ n.
          if ltb_ℤ (pos n) config.failure_handling.min_healthy_nodes && n == 0
          then filter_map (usable parse_host config.nodes) (records heap refs)
          else filter_map (offer parse_host config.nodes is_websocket) (records heap refs))
        all.1
  where
    pick :
        (b : Bool)
        → (if b
            then fall_back parse_host config.nodes heap refs
                (select_all parse_host config.nodes is_websocket heap refs)
            else select_all parse_host config.nodes is_websocket heap refs).upstreams
          ≡ (if b
              then filter_map (usable parse_host config.nodes) (records heap refs)
              else filter_map (offer parse_host config.nodes is_websocket) (records heap refs))
    pick true =
        fall_back_lem parse_host config.nodes heap refs
          (select_all parse_host config.nodes is_websocket heap refs)
    pick false = (select_all_lem parse_host config.nodes is_websocket heap refs).0

abbrev pub answer_of : List Upstream → Upstreams
answer_of [] = no_available
answer_of (u ∷ us) = selected (u ∷ us)

answer_lem : (s : Selection) (h : HealthChecker) → (answer s h).1 ≡ answer_of s.upstreams
unfolding answer
answer_lem s h = by_list s.upstreams
  where
    by_list : (us : List Upstream) → (answer_with us s h).1 ≡ answer_of us
    by_list [] = refl
    by_list (u ∷ us) = refl

-- A request is answered with the upstreams of the results' records by one filter: those of the healthy
-- nodes of the right service type, in order; or, if there is no such node and the configuration
-- requires one, those of all nodes. A node whose URL has no host is passed over. If that leaves
-- nothing the answer is an error, so no empty selection is ever returned.
pub serve-offered :
    (parse_host : String → Option String) (env : Env) (r : Request) (refs : List Ref)
    (h : HealthChecker)
    → (serve parse_host env r refs h).1
      ≡ answer_of
          (offered parse_host env.config (is_websocket_upgrade_request r) (records h.heap refs))
unfolding serve
serve-offered parse_host env r refs h =
    answer_lem (select_upstreams parse_host env.config (is_websocket_upgrade_request r) h.heap refs)
      h
    ∙ ap answer_of
        (select_upstreams_lem parse_host env.config (is_websocket_upgrade_request r) h.heap refs)
