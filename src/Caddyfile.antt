-- ===== src/Caddyfile.antt =====
-- What the two Caddyfile parsers, of config.go and request_deadline_caddyfile.go, share. Caddy's
-- `caddyfile.Dispenser` is the parameter `Dispenser`, and `strconv` and `time` are `Readers`. A
-- parser is a function of the dispenser's state; its loops take fuel, since it is the dispenser
-- that ends them.
pub mod Ends
pub mod Reads
use Prim.Native.String.{◌++◌ as then_text}
use caddy_blockchain_health.Common.{ℕ, zero, suc, Bool, true, false, List, [], ◌∷◌, ◌++◌, String}
use caddy_blockchain_health.Common.Int.{ℤ}
use caddy_blockchain_health.Types.Protocol.{Reply, ok, err}

-- A dispenser with states `S`: `Next`, `NextArg` and `NextBlock(n)` answer whether they loaded a
-- token, and `Val` is the text of the token that is loaded.
pub record Dispenser (S : Type 0) : Type 0 where
  pub next : S → Bool × S
  pub next_arg : S → Bool × S
  pub next_block : ℕ → S → Bool × S
  pub val : S → String

-- `strconv.Atoi`, `ParseFloat` (in thousandths) and `ParseBool`, and `time.ParseDuration`.
pub record Readers : Type 0 where
  pub atoi : String → Reply ℤ
  pub parse_float : String → Reply ℤ
  pub parse_bool : String → Reply Bool
  pub parse_duration : String → Reply ℤ

-- `d.ArgErr()`, `d.Errf` and `fmt.Errorf`; the dispenser adds the file and the line to the first two.
pub data ParseError : Type 0 where
  arg_err : ParseError
  errf : String → ParseError
  wrapped : String → ParseError → ParseError

-- How a parser ends: with a value and the state after it, with an error, or out of fuel.
pub data Parsing (S A : Type 0) : Type 0 where
  parsed : A → S → Parsing S A
  failed : ParseError → Parsing S A
  stuck : Parsing S A

infixl 5 ◌>>=◌
abbrev pub ◌>>=◌ : {S A B : Type 0} → Parsing S A → (A → S → Parsing S B) → Parsing S B
parsed a s >>= k = k a s
failed e >>= k = failed e
stuck >>= k = stuck

-- `fmt.Errorf("...: %w", err)`
abbrev pub in_context : {S A : Type 0} → String → Parsing S A → Parsing S A
in_context message (parsed a s) = parsed a s
in_context message (failed e) = failed (wrapped message e)
in_context message stuck = stuck

-- A text that has to be read, with the message for one that does not.
abbrev pub reading : {S A : Type 0} → String → Reply A → S → Parsing S A
reading message (ok a) s = parsed a s
reading message (err e) s = failed (errf (then_text message e))

module _ {S : Type 0} (d : Dispenser S) where
  -- `if !d.NextArg() { return d.ArgErr() }` and then `d.Val()`.
  unfoldable pub value : S → Parsing S String
  value s = elim (d.next_arg s).0 [
    | true ↦ parsed (d.val (d.next_arg s).1) (d.next_arg s).1
    | false ↦ failed arg_err
  ]

-- `for test { body }` over a value that the body changes; the body's loops take the fuel left.
unfoldable pub each :
    {S A : Type 0} → (ℕ → A → S → Parsing S A) → (S → Bool × S) → ℕ → A → S → Parsing S A
each body test zero a s = stuck
each body test (suc fuel) a s = elim (test s).0 [
  | false ↦ parsed a (test s).1
  | true ↦ body fuel a (test s).1 >>= each body test fuel
]

module _ {S : Type 0} (d : Dispenser S) where
  -- `for d.NextArg() { values = append(values, d.Val()) }`
  unfoldable pub values : ℕ → List String → S → Parsing S (List String)
  unfolding each
  values fuel = each (λ left found s. parsed (found ++ d.val s ∷ []) s) d.next_arg fuel
