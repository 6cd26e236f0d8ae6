-- ===== src/Deadline/Caddyfile.antt =====
-- request_deadline_caddyfile.go: `UnmarshalCaddyfile` of the middleware, over a dispenser. The
-- verbs `%d` and `%q` are the parameter `Verbs`.
pub mod Ending
use Prim.Native.String.{◌++◌ as then_text}
use caddy_blockchain_health.Common.{
  ℕ, zero, suc, Bool, true, false, ◌||◌, List, [], ◌∷◌, ◌++◌, Option, none, some, String, str_eq,
  if◌then◌else◌,
}
use caddy_blockchain_health.Common.Int.{ℤ}
use caddy_blockchain_health.Common.Text.{Text, codes, text_eq, to_upper}
use caddy_blockchain_health.Caddyfile.{
  Dispenser, Readers, ParseError, arg_err, wrapped, Parsing, parsed, failed, errf, ◌>>=◌, reading,
  value, values, each,
}
use caddy_blockchain_health.Deadline
use caddy_blockchain_health.Deadline.{
  Source, Skip, RequestDeadline, ConfigError, min_above_max, invalid_source,
}

pub record Verbs : Type 0 where
  pub digits : ℕ → String
  pub quoted : String → String

pub data DeadlineDirective : Type 0 where
  from default tiers skip add_headers min_timeout max_timeout unknown : DeadlineDirective

unfoldable pub deadline_directive : String → DeadlineDirective
deadline_directive name =
    if str_eq name "from"
    then from
    else if str_eq name "default"
    then default
    else if str_eq name "tiers"
    then tiers
    else if str_eq name "skip"
    then skip
    else if str_eq name "add_headers"
    then add_headers
    else if str_eq name "min_timeout"
    then min_timeout
    else if str_eq name "max_timeout"
    then max_timeout
    else unknown

pub data SkipDirective : Type 0 where
  websocket grpc methods unknown : SkipDirective

unfoldable pub skip_directive : String → SkipDirective
skip_directive name =
    if str_eq name "websocket"
    then websocket
    else if str_eq name "grpc"
    then grpc
    else if str_eq name "methods"
    then methods
    else SkipDirective.unknown

-- `h.Tiers[name] = value`
unfoldable pub set_tier : Text → String → List (Text × String) → List (Text × String)
set_tier name v [] = (name, v) ∷ []
set_tier name v ((other, w) ∷ rest) =
    if text_eq other name then (name, v) ∷ rest else (other, w) ∷ set_tier name v rest

abbrev type_at : ℕ → List Source → String
type_at i [] = ""
type_at zero (s ∷ sources) = s.type
type_at (suc i) (s ∷ sources) = type_at i sources

-- The errors of `Validate` as texts.
unfoldable pub config_message : Verbs → RequestDeadline → ConfigError → String
config_message verbs h min_above_max = "min_timeout > max_timeout"
config_message verbs h (invalid_source i) = then_text "source[" (
    then_text (verbs.digits i) (
      then_text "]: invalid type "
        (then_text (verbs.quoted (type_at i h.sources)) ", must be placeholder, header, or query")))

module _ {S : Type 0} (d : Dispenser S) (readers : Readers) (verbs : Verbs) where
  -- The source with a type and a value.
  unfoldable pub add_source : String → String → RequestDeadline → S → Parsing S RequestDeadline
  add_source typ v h s =
      if str_eq typ "placeholder"
      then parsed
          (record h { sources = h.sources ++ record { type = typ; name = ""; value = v } ∷ [] }) s
      else if str_eq typ "header" || str_eq typ "query"
      then parsed
          (record h { sources = h.sources ++ record { type = typ; name = v; value = "" } ∷ [] }) s
      else failed (errf (then_text "unknown from type: " typ))

  -- One entry of the block of tiers.
  unfoldable pub tier_entry : ℕ → List (Text × String) → S → Parsing S (List (Text × String))
  unfolding set_tier
  tier_entry fuel known s =
      if str_eq (d.val s) ""
      then failed arg_err
      else (value d s >>= λ v t. parsed (set_tier (to_upper (codes (d.val s))) v known) t)

  -- The body of the loop of the block `skip`, by its directive.
  unfoldable pub skip_line : SkipDirective → ℕ → Skip → S → Parsing S Skip
  skip_line websocket fuel sk s = value d s >>= λ v t.
      (reading "invalid websocket bool: " (readers.parse_bool v) t >>= λ b t.
      parsed (record sk { websocket = b }) t)
  skip_line grpc fuel sk s = value d s >>= λ v t.
      (reading "invalid grpc bool: " (readers.parse_bool v) t >>= λ b t.
      parsed (record sk { grpc = b }) t)
  skip_line methods fuel sk s =
      values d fuel [] s >>= λ found t. parsed (record sk { methods = sk.methods ++ found }) t
  skip_line SkipDirective.unknown fuel sk s =
      failed (errf (then_text "unknown skip directive: " (d.val s)))

  -- A directive with a duration.
  unfoldable pub duration_line : String → (ℤ → RequestDeadline) → S → Parsing S RequestDeadline
  duration_line message set s = value d s >>= λ v t.
      (reading message (readers.parse_duration v) t >>= λ duration t. parsed (set duration) t)

  -- The body of the inner loop, by its directive.
  unfoldable pub deadline_line :
      DeadlineDirective → ℕ → RequestDeadline → S → Parsing S RequestDeadline
  unfolding add_source tier_entry skip_line duration_line
  deadline_line from fuel h s = value d s >>= λ typ t. (value d t >>= λ v u. add_source typ v h u)
  deadline_line default fuel h s =
      duration_line "invalid default duration: "
        (λ duration. record h { default_timeout = duration }) s
  deadline_line tiers fuel h s = each tier_entry (d.next_block 1) fuel h.tiers s >>= λ found t.
      parsed (record h { tiers = found }) t
  deadline_line skip fuel h s =
      each (λ left sk s. skip_line (skip_directive (d.val s)) left sk s) (d.next_block 1) fuel
        h.skip s
      >>= λ found t. parsed (record h { skip = found }) t
  deadline_line add_headers fuel h s = value d s >>= λ v t.
      (reading "invalid add_headers bool: " (readers.parse_bool v) t >>= λ b t.
      parsed (record h { add_headers = b }) t)
  deadline_line min_timeout fuel h s =
      duration_line "invalid min_timeout: " (λ duration. record h { min_timeout = duration }) s
  deadline_line max_timeout fuel h s =
      duration_line "invalid max_timeout: " (λ duration. record h { max_timeout = duration }) s
  deadline_line unknown fuel h s = failed (errf (then_text "unknown directive: " (d.val s)))

  unfoldable pub deadline_block : ℕ → RequestDeadline → S → Parsing S RequestDeadline
  unfolding deadline_line
  deadline_block =
      each (λ left h s. deadline_line (deadline_directive (d.val s)) left h s) (d.next_block 0)

  -- The validation at the end.
  unfoldable pub validated : RequestDeadline → S → Parsing S RequestDeadline
  unfolding config_message
  validated h s = elim (Deadline.validate h) [
    | none ↦ parsed h s
    | some e ↦ failed (wrapped "request_deadline validation: " (errf (config_message verbs h e)))
  ]

  unfoldable pub unmarshal_caddyfile : ℕ → RequestDeadline → S → Parsing S RequestDeadline
  unfolding deadline_block validated
  unmarshal_caddyfile fuel h s = each deadline_block d.next fuel h s >>= validated
