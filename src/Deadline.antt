-- ===== src/Deadline.antt =====
-- request_deadline.go: the middleware `RequestDeadline`. Tier names and header values are ASCII
-- texts; names that are only handed on or compared are native texts. Caddy's replacer and
-- `net/http` are functions of the request; `time.ParseDuration` is a parameter. Durations are
-- `int64` nanoseconds.
pub mod Bounds
pub mod Tiers
pub mod Caddyfile
use caddy_blockchain_health.Common.{
  ℕ, suc, ◌+◌, Bool, true, false, not, ◌&&◌, ◌||◌, List, [], ◌∷◌, ◌++◌, Option, none, some, String,
  str_eq, any, leb, if◌then◌else◌,
}
use caddy_blockchain_health.Common.Int.{ℤ, pos, pos_part, ltb_ℤ, leb_ℤ}
use caddy_blockchain_health.Common.Text.{
  Text, codes, text_eq, is_empty, to_lower, to_upper, trim_space, contains, has_prefix, equal_fold,
}

pub record Source : Type 0 where
  pub type : String
  pub name : String
  pub value : String

pub record Skip : Type 0 where
  pub websocket : Bool
  pub grpc : Bool
  pub methods : List String

-- `tiers` lists a Go map, in the order in which `range` takes it.
pub record RequestDeadline : Type 0 where
  pub sources : List Source
  pub default_timeout : ℤ
  pub tiers : List (Text × String)
  pub skip : Skip
  pub add_headers : Bool
  pub min_timeout : ℤ
  pub max_timeout : ℤ
  pub tier_dur : List (Text × ℤ)

-- What the handler reads of a request. `replace_all` is the replacer of its context, if there is one;
-- `deadline` and `cancelled_at` are those of its context.
pub record Request : Type 0 where
  pub method : String
  pub path : String
  pub header : String → Text
  pub query : String → Text
  pub replace_all : Option (String → Text)
  pub deadline : Option ℕ
  pub cancelled_at : Option ℕ

-- `strings.ToUpper(strings.TrimSpace(k))`
unfoldable pub normalize : Text → Text
normalize k = to_upper (trim_space k)

unfoldable pub lookup_tier : Text → List (Text × ℤ) → Option ℤ
lookup_tier k [] = none
lookup_tier k ((j, d) ∷ m) = if text_eq j k then some d else lookup_tier k m

unfoldable pub insert_tier : Text → ℤ → List (Text × ℤ) → List (Text × ℤ)
insert_tier k d [] = (k, d) ∷ []
insert_tier k d ((j, e) ∷ m) = if text_eq j k then (k, d) ∷ m else (j, e) ∷ insert_tier k d m

-- The loop of `Provision`: none is the error of a duration that does not parse.
unfoldable pub tier_durations :
    (String → Option ℤ) → List (Text × String) → List (Text × ℤ) → Option (List (Text × ℤ))
tier_durations parse_duration [] m = some m
tier_durations parse_duration ((k, v) ∷ tiers) m = elim (parse_duration v) [
  | none ↦ none
  | some d ↦ tier_durations parse_duration tiers (insert_tier (normalize k) d m)
]

abbrev with_tiers : RequestDeadline → Option (List (Text × ℤ)) → Option RequestDeadline
with_tiers h none = none
with_tiers h (some m) = some (record h { tier_dur = m })

-- `Provision` up to the metrics.
unfoldable pub provision : (String → Option ℤ) → RequestDeadline → Option RequestDeadline
provision parse_duration h = with_tiers h (tier_durations parse_duration h.tiers [])

pub data ConfigError : Type 0 where
  min_above_max : ConfigError
  invalid_source : ℕ → ConfigError

unfoldable pub is_valid_type : String → Bool
is_valid_type type =
    str_eq type "" || (str_eq type "placeholder" || (str_eq type "header" || str_eq type "query"))

-- The loop over the sources, from an index on.
unfoldable pub check_sources : ℕ → List Source → Option ConfigError
unfolding is_valid_type
check_sources i [] = none
check_sources i (s ∷ sources) =
    let rest = check_sources (suc i) sources in
    if is_valid_type s.type then rest else some (invalid_source i)

unfoldable pub validate : RequestDeadline → Option ConfigError
unfolding check_sources
validate h =
    if ltb_ℤ (pos 0) h.min_timeout
      && (ltb_ℤ (pos 0) h.max_timeout && ltb_ℤ h.max_timeout h.min_timeout)
    then some min_above_max
    else check_sources 0 h.sources

unfoldable pub should_skip : RequestDeadline → Request → Bool
should_skip h r =
    any (λ m. str_eq r.method m) h.skip.methods
    || ((h.skip.websocket
          && (contains (to_lower (r.header "Connection")) (codes "upgrade")
              && equal_fold (r.header "Upgrade") (codes "websocket")))
        || (h.skip.grpc
            && has_prefix (to_lower (r.header "Content-Type")) (codes "application/grpc")))

-- The first loop of `resolveTier`: the first placeholder with a value.
unfoldable pub from_placeholders : (String → Text) → List Source → Text
from_placeholders replace_all [] = []
from_placeholders replace_all (s ∷ sources) =
    let rest = from_placeholders replace_all sources in
    if str_eq s.type "placeholder" && not (str_eq s.value "")
    then (let v = trim_space (replace_all s.value) in if is_empty v then rest else v)
    else rest

-- The second: the first header or query parameter with a value.
unfoldable pub from_headers : Request → List Source → Text
from_headers r [] = []
from_headers r (s ∷ sources) =
    let rest = from_headers r sources in
    let v = trim_space (if str_eq s.type "header" then r.header s.name else r.query s.name) in
    if (str_eq s.type "header" || str_eq s.type "query") && not (is_empty v) then v else rest

abbrev replaced : Option (String → Text) → List Source → Text
replaced none sources = []
replaced (some replace_all) sources = from_placeholders replace_all sources

unfoldable pub resolve_tier : RequestDeadline → Request → Text
unfolding from_placeholders from_headers
resolve_tier h r =
    let v = replaced r.replace_all h.sources in if is_empty v then from_headers r h.sources else v

-- The tier that `ServeHTTP` looks up.
unfoldable pub tier_of : RequestDeadline → Request → Text
tier_of h r =
    let tier = trim_space (resolve_tier h r) in
    if is_empty tier then codes "__DEFAULT__" else to_upper tier

abbrev pub duration_or : ℤ → Option ℤ → ℤ
duration_or default_timeout none = default_timeout
duration_or default_timeout (some d) = d

-- `clamp within min/max if configured`
unfoldable pub clamp : RequestDeadline → ℤ → ℤ
clamp h timeout =
    let raised =
      if ltb_ℤ (pos 0) h.min_timeout && ltb_ℤ timeout h.min_timeout
      then h.min_timeout
      else timeout in
    if ltb_ℤ (pos 0) h.max_timeout && ltb_ℤ h.max_timeout raised then h.max_timeout else raised

unfoldable pub timeout_of : RequestDeadline → Request → ℤ
unfolding clamp
timeout_of h r = clamp h (duration_or h.default_timeout (lookup_tier (tier_of h r) h.tier_dur))

-- What the handler adds to the response: `X-Plan-Tier`, `X-Request-Timeout` and
-- `X-Request-Deadline-At`, by their values.
pub record PlanHeaders : Type 0 where
  pub plan_tier : Text
  pub request_timeout : ℤ
  pub request_deadline_at : ℕ

pub data Outcome : Type 0 where
  success timed_out : Outcome

-- `context.WithTimeout`: the parent's deadline stays if it is earlier.
abbrev pub earlier : ℕ → Option ℕ → ℕ
earlier t none = t
earlier t (some d) = if leb d t then d else t

abbrev cancelled_before : ℕ → Option ℕ → Bool
cancelled_before t none = false
cancelled_before t (some c) = leb c t

-- `ctx.Err() == context.DeadlineExceeded` at an instant.
unfoldable pub outcome_at : ℕ → Option ℕ → ℕ → Outcome
outcome_at deadline cancelled now =
    if leb deadline now && not (cancelled_before deadline cancelled) then timed_out else success

-- A request that goes downstream: as it came, or under a deadline.
pub data Served : Type 0 where
  passed : Served
  limited : Text → ℤ → ℕ → Option PlanHeaders → Outcome → Served

-- `ServeHTTP` of a request that comes at `now`, when the next handler is done at `later`.
unfoldable pub serve_http : RequestDeadline → Request → ℕ → ℕ → Served
unfolding outcome_at
serve_http h r now later =
    let timeout = timeout_of h r in
    let tier = tier_of h r in
    let deadline = earlier (now + pos_part timeout) r.deadline in
    let headers : PlanHeaders = record {
      plan_tier = tier;
      request_timeout = timeout;
      request_deadline_at = now + pos_part timeout;
    } in
    if should_skip h r
    then passed
    else if leb_ℤ timeout (pos 0)
    then passed
    else limited tier timeout deadline (if h.add_headers then some headers else none)
        (outcome_at deadline r.cancelled_at later)
