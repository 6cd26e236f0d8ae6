-- ===== src/Upstream/Requests.antt =====
-- `GetUpstreams` as a whole: when it answers from the cache, and when it has an answer.
use caddy_blockchain_health.Common.{
  ℕ, suc, ◌≡◌, refl, arith, Bool, true, false, ◌&&◌, List, [], ◌∷◌, Option, none, some, String,
  if◌then◌else◌, ap, ◌∙◌, sym, subst, inl, inr, ◌==◌, filter_map, count_if, cons_some, In,
}
use caddy_blockchain_health.Common.Int.{pos, ltb_ℤ}
use caddy_blockchain_health.Types.{NodeConfig, NodeHealth, Ref}
use caddy_blockchain_health.Cache
use caddy_blockchain_health.Cache.{HealthCache}
use caddy_blockchain_health.Checker.{Env, HealthChecker, Turn}
use caddy_blockchain_health.Upstream.{
  Request, Upstream, selected, is_websocket_upgrade_request, cached_results,
  get_cached_health_results, serve, answer, answer_with, get_upstreams, get_upstreams_of, Selection,
}
use caddy_blockchain_health.Upstream.Filter.{records, fits, usable, offer}
use caddy_blockchain_health.Upstream.Offers.{offered, answer_of, serve-offered}

-- A live cache entry for each node of the list, in its order.
abbrev pub AllCached : ℕ → HealthCache → List NodeConfig → List Ref → Type 0
AllCached now cache [] [] = Unit
AllCached now cache [] (ref ∷ refs) = ⊥
AllCached now cache (node ∷ nodes) [] = ⊥
AllCached now cache (node ∷ nodes) (ref ∷ refs) =
    (Cache.get now node.name cache ≡ some ref) × AllCached now cache nodes refs

cached_results_all :
    (now : ℕ) (cache : HealthCache) (nodes : List NodeConfig) (refs : List Ref)
    → AllCached now cache nodes refs
    → cached_results now cache nodes ≡ some refs
unfolding cached_results
cached_results_all now cache [] [] h = refl
cached_results_all now cache [] (ref ∷ refs) h = absurd h
cached_results_all now cache (node ∷ nodes) [] h = absurd h
cached_results_all now cache (node ∷ nodes) (ref ∷ refs) h =
    rw (h.0, cached_results) (rw (cached_results_all now cache nodes refs h.1))

-- A state that differs in its metrics alone.
pub record SameHealth (h h' : HealthChecker) : Type 0 where
  pub same_heap : h'.heap ≡ h.heap
  pub same_cache : h'.cache ≡ h.cache
  pub same_breakers : h'.circuit_breakers ≡ h.circuit_breakers
  pub same_clock : h'.clock ≡ h.clock

answer-SameHealth : (s : Selection) (h : HealthChecker) → SameHealth h (answer s h).0
unfolding answer
answer-SameHealth s h = by_list s.upstreams
  where
    by_list : (us : List Upstream) → SameHealth h (answer_with us s h).0
    by_list [] = record {
      same_heap = refl;
      same_cache = refl;
      same_breakers = refl;
      same_clock = refl;
    }
    by_list (u ∷ us) = record {
      same_heap = refl;
      same_cache = refl;
      same_breakers = refl;
      same_clock = refl;
    }

served_from_cache :
    (parse_host : String → Option String) (env : Env) (r : Request) (turns : List Turn)
    (h : HealthChecker) (ref : Ref) (refs : List Ref)
    → AllCached h.clock h.cache env.config.nodes (ref ∷ refs)
    → get_upstreams_of parse_host env r turns h ≡ serve parse_host env r (ref ∷ refs) h
unfolding get_upstreams_of get_cached_health_results
served_from_cache parse_host env r turns h ref refs cached =
    rw (cached_results_all h.clock h.cache env.config.nodes (ref ∷ refs) cached, get_upstreams_of)

-- While every node has a live cache entry, a request is answered from the cached records, in the order of
-- the nodes, by the filter of `GetUpstreams`. Nothing but the metrics changes: the store of records, the
-- cache, the circuit breakers and the clock stay as they are.
pub get_upstreams-cached :
    (parse_host : String → Option String) (env : Env) (r : Request) (turns : List Turn)
    (h : HealthChecker) (ref : Ref) (refs : List Ref)
    → AllCached h.clock h.cache env.config.nodes (ref ∷ refs)
    → (h' : HealthChecker) × (get_upstreams parse_host env r turns (some h) ≡ (
      some h',
      answer_of (
          offered parse_host env.config
            (is_websocket_upgrade_request r)
            (records h.heap (ref ∷ refs))),
    ))
      × SameHealth h h'
unfolding get_upstreams
get_upstreams-cached parse_host env r turns h ref refs cached = (
  (serve parse_host env r (ref ∷ refs) h).0,
  rw (served_from_cache parse_host env r turns h ref refs cached) (
      ap (λ a. (some (serve parse_host env r (ref ∷ refs) h).0, a))
        (serve-offered parse_host env r (ref ∷ refs) h)),
  unfold serve in answer-SameHealth _ h,
)

offer_of_fit :
    (parse_host : String → Option String) (nodes : List NodeConfig) (is_websocket : Bool)
    (health : NodeHealth)
    → fits nodes is_websocket health ≡ true
    → offer parse_host nodes is_websocket health ≡ usable parse_host nodes health
offer_of_fit parse_host nodes is_websocket health f =
    ap (λ b. if b then usable parse_host nodes health else none) f

In-cons_some : {A : Type 0} (o : Option A) (y : A) (ys : List A) → In y ys → In y (cons_some o ys)
In-cons_some none y ys m = m
In-cons_some (some x) y ys m = inr m

In-filter_map :
    {A B : Type 0} (f : A → Option B) (x : A) (y : B) (xs : List A)
    → In x xs
    → f x ≡ some y
    → In y (filter_map f xs)
In-filter_map f x y [] m q = elim m [ ]
In-filter_map f x y (z ∷ xs) (inl e) q =
    subst (λ o. In y (cons_some o (filter_map f xs))) (sym q ∙ ap f e) (inl refl)
In-filter_map f x y (z ∷ xs) (inr m) q =
    In-cons_some (f z) y (filter_map f xs) (In-filter_map f x y xs m q)

In-count_if :
    {A : Type 0} (p : A → Bool) (x : A) (xs : List A)
    → In x xs
    → p x ≡ true
    → (count_if p xs == 0) ≡ false
In-count_if p x [] m q = elim m [ ]
In-count_if p x (z ∷ xs) (inl e) q = counts (p z) (sym (ap p e) ∙ q)
  where
    counts :
        (b : Bool)
        → b ≡ true
        → ((elim b as (λ _. ℕ) [ true ↦ suc (count_if p xs) | false ↦ count_if p xs ]) == 0) ≡ false
    counts true h = ground arith
    counts false h = absurd (cc h)
In-count_if p x (z ∷ xs) (inr m) q = counts (p z) (In-count_if p x xs m q)
  where
    counts :
        (b : Bool)
        → (count_if p xs == 0) ≡ false
        → ((elim b as (λ _. ℕ) [ true ↦ suc (count_if p xs) | false ↦ count_if p xs ]) == 0) ≡ false
    counts true h = ground arith
    counts false h = h

answered :
    (us : List Upstream) (u : Upstream)
    → In u us
    → (vs : List Upstream) × (answer_of us ≡ selected vs) × In u vs
answered [] u m = elim m [ ]
answered (v ∷ us) u m = (v ∷ us, refl, m)

not_fallback :
    {A : Type 0} (low none_fit : Bool) (x y : A)
    → none_fit ≡ false
    → (if low && none_fit then x else y) ≡ y
not_fallback true true x y h = absurd (cc h)
not_fallback true false x y h = refl
not_fallback false b x y h = refl

-- A healthy node of the right service type, with a URL that has a host, is never withheld: its upstream
-- is among those that the request is answered with, whatever the other nodes and the required minimum
-- are.
pub serve_available :
    (parse_host : String → Option String) (env : Env) (r : Request) (refs : List Ref)
    (h : HealthChecker) (health : NodeHealth) (u : Upstream)
    → In health (records h.heap refs)
    → fits env.config.nodes (is_websocket_upgrade_request r) health ≡ true
    → usable parse_host env.config.nodes health ≡ some u
    → (us : List Upstream) × ((serve parse_host env r refs h).1 ≡ selected us) × In u us
serve_available parse_host env r refs h health u m f e =
    let ws = is_websocket_upgrade_request r in
    let healths = records h.heap refs in
    let offers = filter_map (offer parse_host env.config.nodes ws) healths in
    let in_offers : In u offers =
      In-filter_map (offer parse_host env.config.nodes ws) health u healths m
        (offer_of_fit parse_host env.config.nodes ws health f ∙ e) in
    let same : offered parse_host env.config ws healths ≡ offers =
      not_fallback
        (ltb_ℤ (pos (count_if (fits env.config.nodes ws) healths))
          env.config.failure_handling.min_healthy_nodes)
        (count_if (fits env.config.nodes ws) healths == 0)
        (filter_map (usable parse_host env.config.nodes) healths) offers
        (In-count_if (fits env.config.nodes ws) health healths m f) in
    let (us, a, i) = answered offers u in_offers in
    (us, serve-offered parse_host env r refs h ∙ ap answer_of same ∙ a, i)
