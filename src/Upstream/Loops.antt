-- ===== src/Upstream/Loops.antt =====
-- The rounds of the two loops of `GetUpstreams`, and the loops.
use mathlib.Core.List.{append_assoc, append-nil}
use caddy_blockchain_health.Common.{
  ℕ, suc, ◌+◌, ◌≡◌, refl, arith, Bool, true, false, ◌&&◌, List, [], ◌∷◌, ◌++◌, Option, none, some,
  String, str_eq, if◌then◌else◌, ◌∙◌, sym, Bool-cases, Option-cases, inl, inr, filter_map, count_if,
  cons_some,
}
use caddy_blockchain_health.Common.Int.{pos, ltb_ℤ}
use caddy_blockchain_health.Types.{NodeConfig, NodeHealth, Heap, Ref, read, find_node}
use caddy_blockchain_health.Upstream.{
  Upstream, Selection, service_of, weight_of, exclude, add_upstream, add_host, select_healthy,
  labels, filtered, select_one, for_results,
}
use caddy_blockchain_health.Upstream.Filter.{records, upstream_at, serves, fits, offer}

-- What one round of a loop does to the upstreams and the count.
pub record Adds (o : Option Upstream) (n : ℕ) (s s' : Selection) : Type 0 where
  pub adds : s'.upstreams ≡ s.upstreams ++ cons_some o []
  pub counts : s'.healthy_count ≡ s.healthy_count + n

pub excluded-Adds :
    (health : NodeHealth) (known : Option NodeConfig) (reason : String) (s : Selection)
    → Adds none 0 s (exclude health known reason s)
unfolding exclude
excluded-Adds health known reason s = record {
  adds = sym (append-nil s.upstreams);
  counts = omega arith;
}

pub host-Adds :
    (o : Option String) (health : NodeHealth) (node : Option NodeConfig) (reason : String)
    (s : Selection)
    → Adds (upstream_at (weight_of node) o) 0 s (add_host o health node reason s)
unfolding add_host
host-Adds none health node reason s = excluded-Adds health node "invalid_url" s
host-Adds (some host) health node reason s = by_host (str_eq host "")
  where
    by_host :
        (empty : Bool)
        → Adds
            (if empty
              then none
              else some (record {
                dial = host;
                max_requests = if ltb_ℤ (pos 1) (weight_of node) then weight_of node else pos 0;
              }))
            0
            s
            (if empty then exclude health node "empty_host" s else record s {
              upstreams =
                  s.upstreams
                  ++ record {
                    dial = host;
                    max_requests = if ltb_ℤ (pos 1) (weight_of node) then weight_of node else pos 0;
                  }
                    ∷ [];
              selected_infos = s.selected_infos ++ labels health.name (service_of node) reason ∷ [];
            })
    by_host true = excluded-Adds health node "empty_host" s
    by_host false = record { adds = refl; counts = omega arith }

counted-Adds :
    (parse_host : String → Option String) (known : Option NodeConfig) (health : NodeHealth)
    (s : Selection)
    → Adds
        (upstream_at (weight_of known) (parse_host health.url))
        1
        s
        (select_healthy parse_host none known health s)
unfolding select_healthy add_upstream
counted-Adds parse_host known health s =
    let a =
      host-Adds (parse_host health.url) health known "healthy"
        (record s { healthy_count = suc s.healthy_count }) in
    record { adds = a.adds; counts = omega (arith, a.counts) }

passed-Adds :
    (parse_host : String → Option String) (known : Option NodeConfig) (health : NodeHealth)
    (s : Selection) (reason : String)
    → Adds none 0 s (select_healthy parse_host (some reason) known health s)
unfolding select_healthy
passed-Adds parse_host known health s reason = excluded-Adds health known reason s

healthy-Adds :
    (parse_host : String → Option String) (is_websocket : Bool) (known : Option NodeConfig)
    (health : NodeHealth) (s : Selection)
    → Adds
        (if serves is_websocket known
          then upstream_at (weight_of known) (parse_host health.url)
          else none)
        (if serves is_websocket known then 1 else 0)
        s
        (select_healthy parse_host (filtered is_websocket known) known health s)
unfolding filtered
healthy-Adds parse_host is_websocket none health s = counted-Adds parse_host none health s
healthy-Adds parse_host true (some node) health s =
    elim (Bool-cases (str_eq (service_of (some node)) "websocket")) [
      | inl ws ↦ rw (ws, filtered) (counted-Adds parse_host (some node) health s)
      | inr other ↦
          rw (other, filtered) (passed-Adds parse_host (some node) health s "filtered_websocket")
    ]
healthy-Adds parse_host false (some node) health s =
    elim (Bool-cases (str_eq (service_of (some node)) "websocket")) [
      | inl ws ↦ rw (ws, filtered) (passed-Adds parse_host (some node) health s "filtered_http")
      | inr other ↦ rw (other, filtered) (counted-Adds parse_host (some node) health s)
    ]

pub one-Adds :
    (parse_host : String → Option String) (nodes : List NodeConfig) (is_websocket : Bool)
    (health : NodeHealth) (s : Selection)
    → Adds
        (offer parse_host nodes is_websocket health)
        (if fits nodes is_websocket health then 1 else 0)
        s
        (select_one parse_host nodes is_websocket health s)
unfolding select_one
one-Adds parse_host nodes is_websocket health s = by_health health.healthy
  where
    known : Option NodeConfig
    known = find_node health.name nodes

    by_health :
        (up : Bool)
        → Adds
            (if up && serves is_websocket known
              then upstream_at (weight_of known) (parse_host health.url)
              else none)
            (if up && serves is_websocket known then 1 else 0)
            s
            (if up
              then select_healthy parse_host (filtered is_websocket known) known health s
              else exclude health known "unhealthy" s)
    by_health true = healthy-Adds parse_host is_websocket known health s
    by_health false = excluded-Adds health known "unhealthy" s

-- A loop whose rounds add what `gives` gives and count what `tests` tests.
pub loop-Adds :
    (body : NodeHealth → Selection → Selection) (gives : NodeHealth → Option Upstream)
    (tests : NodeHealth → Bool) (heap : Heap) (refs : List Ref) (s : Selection)
    → ((health : NodeHealth) (t : Selection)
        → Adds (gives health) (if tests health then 1 else 0) t (body health t))
    → ((for_results body heap refs s).upstreams
        ≡ s.upstreams ++ filter_map gives (records heap refs))
      × ((for_results body heap refs s).healthy_count
          ≡ s.healthy_count + count_if tests (records heap refs))
unfolding for_results records
loop-Adds body gives tests heap [] s h = (sym (append-nil s.upstreams), omega arith)
loop-Adds body gives tests heap (ref ∷ refs) s h = elim (Option-cases (read heap ref)) [
  | inl absent ↦ rw (absent, for_results, records) (loop-Adds body gives tests heap refs s h)
  | inr (health, present) ↦
      let rest = loop-Adds body gives tests heap refs (body health s) h in
      let one = h health s in
      rw (present, for_results, records)
        (
          rest.0
              ∙ rw one.adds
                  (appended s.upstreams (gives health) (filter_map gives (records heap refs))),
          omega (
            arith,
            rest.1,
            one.counts,
            counted_once (tests health) (count_if tests (records heap refs)),
          ),
        )
]
  where
    appended :
        (us : List Upstream) (o : Option Upstream) (vs : List Upstream)
        → (us ++ cons_some o []) ++ vs ≡ us ++ cons_some o vs
    appended us none vs = rw append-nil
    appended us (some u) vs = append_assoc us (u ∷ []) vs

    counted_once :
        (b : Bool) (n : ℕ)
        → (elim b as (λ _. ℕ) [ true ↦ suc n | false ↦ n ]) ≡ (if b then 1 else 0) + n
    counted_once true n = omega arith
    counted_once false n = omega arith
