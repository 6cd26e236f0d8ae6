-- ===== src/Tests/Requests.antt =====
-- Requests for upstreams, for the health endpoint, and under a deadline.
use caddy_blockchain_health.Common.{
  str_eq, ◌+◌, ◌≡◌, ◌↔◌, refl, arith, true, List, [], ◌∷◌, Option, none, some, String,
  if◌then◌else◌, In, inl,
}
use caddy_blockchain_health.Common.Int.{ℤ, pos, ◌≤ℤ◌}
use caddy_blockchain_health.Common.Dict.{lookup}
use caddy_blockchain_health.Common.Text.{to_upper, codes, to_lower, lower, trim_space, split}
use caddy_blockchain_health.Types.{Ref, find_node, get_metadata}
use caddy_blockchain_health.Checker.{HealthChecker, admitted, turned_away}
use caddy_blockchain_health.Cache
use caddy_blockchain_health.Upstream.{
  Upstream, Request, is_websocket_upgrade_request, get_upstreams, get_cached_health_results, serve,
  selected, service_of, weight_of,
}
use caddy_blockchain_health.Upstream.Filter.{records, fits, usable}
use caddy_blockchain_health.Upstream.Offers.{offered, answer_of, serve-offered}
use caddy_blockchain_health.Upstream.Requests.{
  AllCached, SameHealth, get_upstreams-cached, serve_available,
}
use caddy_blockchain_health.Deadline
use caddy_blockchain_health.Deadline.{RequestDeadline, timeout_of, serve_http, clamp, duration_or}
use caddy_blockchain_health.Deadline.Bounds.{Within, serve_http-Within}
use caddy_blockchain_health.Deadline.Tiers.{last_duration, asked_tier, provision-timeout_of}
use caddy_blockchain_health.Endpoint.{build_checked, status_code}
use caddy_blockchain_health.Endpoint.Report.{build_checked-status}
use caddy_blockchain_health.Tests.Data.{
  config, env, background, fresh, warm, two_healths, host_of, up_at,
}
use caddy_blockchain_health.Tests.Checks.{run, handlers-KeepNames, each_has_turn}
use caddy_blockchain_health.Upstream.Total.{ComesFrom, get_upstreams-offered}

abbrev plain : Request
plain = record { connection = []; upgrade = [] }

abbrev upgrade : Request
upgrade = record { connection = codes "keep-alive, Upgrade"; upgrade = codes "WebSocket" }

is_upgrade : is_websocket_upgrade_request upgrade ≡ true
unfolding is_websocket_upgrade_request to_lower lower trim_space split
is_upgrade = refl

abbrev first_upstream : Upstream
first_upstream = record { dial = "a:8545"; max_requests = pos 100 }

first_fits :
    fits config.nodes (is_websocket_upgrade_request plain) (up_at "a" "http://a:8545" 100) ≡ true
unfolding is_websocket_upgrade_request to_lower lower trim_space split find_node service_of
    get_metadata lookup
first_fits = refl

first_usable : usable host_of config.nodes (up_at "a" "http://a:8545" 100) ≡ some first_upstream
unfolding find_node weight_of
first_usable = refl

serve_available_example :
    (us : List Upstream) × ((serve host_of env plain (0 ∷ 1 ∷ []) warm).1 ≡ selected us)
    × In first_upstream us
serve_available_example =
    serve_available host_of env plain (0 ∷ 1 ∷ []) warm (up_at "a" "http://a:8545" 100)
      first_upstream (unfold records in inl refl) first_fits first_usable

serve-offered_example :
    (serve host_of env upgrade (0 ∷ 1 ∷ []) warm).1
    ≡ answer_of (
        offered host_of config
          (is_websocket_upgrade_request upgrade)
          (records two_healths (0 ∷ 1 ∷ [])))
serve-offered_example = serve-offered host_of env upgrade (0 ∷ 1 ∷ []) warm

both_cached : AllCached warm.clock warm.cache config.nodes (0 ∷ 1 ∷ [])
unfolding Cache.get Cache.live_health lookup
both_cached = (refl, (refl, tt))

-- A cold cache, and one goroutine that is turned away.
get_upstreams-offered_example :
    (refs : List Ref) × (h' : HealthChecker) × ComesFrom env
      (admitted 1 ∷ turned_away 0 ∷ [])
      fresh
      (get_cached_health_results env fresh)
      refs
      h'
    × ((get_upstreams host_of env plain (admitted 1 ∷ turned_away 0 ∷ []) (some fresh)).1
        ≡ answer_of (
            offered host_of env.config (is_websocket_upgrade_request plain) (records h'.heap refs)))
get_upstreams-offered_example =
    get_upstreams-offered host_of env plain (admitted 1 ∷ turned_away 0 ∷ []) fresh (omega arith)
      refl each_has_turn

get_upstreams-cached_example :
    (h' : HealthChecker) × (get_upstreams host_of env plain [] (some warm) ≡ (
      some h',
      answer_of (
          offered host_of config
            (is_websocket_upgrade_request plain)
            (records two_healths (0 ∷ 1 ∷ []))),
    ))
    × SameHealth warm h'
get_upstreams-cached_example = get_upstreams-cached host_of env plain [] warm 0 (1 ∷ []) both_cached

abbrev tiered : RequestDeadline
tiered = record {
  sources = record { type = "header"; name = "X-Plan-Tier"; value = "" } ∷ [];
  default_timeout = pos 30;
  tiers = (codes "free", "5s") ∷ (codes " Pro ", "90s") ∷ [];
  skip = record { websocket = true; grpc = true; methods = [] };
  add_headers = true;
  min_timeout = pos 1;
  max_timeout = pos 60;
  tier_dur = [];
}

abbrev seconds : String → Option ℤ
seconds text = if str_eq text "5s" then some (pos 5) else some (pos 90)

abbrev ready : RequestDeadline
ready = record tiered { tier_dur = (codes "FREE", pos 5) ∷ (codes "PRO", pos 90) ∷ [] }

abbrev paying : Deadline.Request
paying = record {
  method = "POST";
  path = "/";
  header = λ name. if str_eq name "X-Plan-Tier" then codes "pro" else [];
  query = λ name. [];
  replace_all = none;
  deadline = none;
  cancelled_at = none;
}

provisioned : Deadline.provision seconds tiered ≡ some ready
unfolding Deadline.provision Deadline.tier_durations Deadline.insert_tier Deadline.normalize
    to_upper trim_space
provisioned = refl

serve_http-Within_example : Within ready 1000 (serve_http ready paying 1000 1070)
serve_http-Within_example =
    serve_http-Within ready paying 1000 1070 (unfold Deadline.validate in refl)

provision-timeout_of_example :
    timeout_of ready paying
    ≡ clamp tiered
        (duration_or (pos 30) (last_duration seconds (asked_tier tiered paying) tiered.tiers none))
provision-timeout_of_example = provision-timeout_of seconds tiered ready paying provisioned

build_checked-status_example :
    let response = (build_checked env background run.0 run.1).0 in
    (response.nodes.healthy_nodes + response.nodes.unhealthy_nodes ≡ response.nodes.total)
    × ((status_code response.status ≡ 200)
        ↔ (env.config.failure_handling.min_healthy_nodes ≤ℤ pos response.nodes.healthy_nodes))
build_checked-status_example =
    build_checked-status env background (admitted 1 ∷ turned_away 0 ∷ []) fresh run.1 run.0
      handlers-KeepNames tt run.2
