-- ===== src/Tests/Cursor.antt =====
-- A dispenser for the tests, which hands out token trees.
use caddy_blockchain_health.Common.{
  ℕ, suc, ◌+◌, ◌≤◌, ◌<◌, ◌≡◌, refl, arith, Bool, true, false, List, [], ◌∷◌, String, length, ap,
  ◌∙◌, subst, sym,
}
use caddy_blockchain_health.Caddyfile.{Dispenser}
use caddy_blockchain_health.Caddyfile.Ends.{Advances, IsFinite}
use caddy_blockchain_health.Caddyfile.Reads.{
  Segments, nil, line, weight, after, after_args, Reads, ReadsArgs,
}

-- The token that is loaded, the arguments and the block that follow it, the lines that follow in each
-- block that is open, and the directives that follow. Every loop of a parser asks for the lines of the
-- (line name' args' body' rest')most block, so the cursor needs no nesting level.
pub data Cursor : Type 0 where
  cursor : String → List String → Segments → List Segments → List Segments → Cursor

abbrev pub next_of : Cursor → Bool × Cursor
next_of (cursor token args body outer []) = (false, cursor token args body outer [])
next_of (cursor token args body outer (block ∷ more)) =
    (true, cursor "blockchain_health" [] block [] more)

abbrev pub next_arg_of : Cursor → Bool × Cursor
next_arg_of (cursor token [] body outer more) = (false, cursor token [] body outer more)
next_arg_of (cursor token (a ∷ args) body outer more) = (true, cursor a args body outer more)

abbrev pub next_line_of : Cursor → Bool × Cursor
next_line_of (cursor token args (line name args' body rest) outer more) =
    (true, cursor name args' body (rest ∷ outer) more)
next_line_of (cursor token args nil [] more) = (false, cursor token args nil [] more)
next_line_of (cursor token args nil (nil ∷ outer) more) = (false, cursor token args nil outer more)
next_line_of (cursor token args nil (line name args' body rest ∷ outer) more) =
    (true, cursor name args' body (rest ∷ outer) more)

abbrev pub val_of : Cursor → String
val_of (cursor token args body outer more) = token

abbrev pub tokens : Dispenser Cursor
tokens = record {
  next = next_of;
  next_arg = next_arg_of;
  next_block = λ n. next_line_of;
  val = val_of;
}

-- How many tokens and ends of blocks are left.
abbrev pub weights : List Segments → ℕ
weights [] = 0
weights (block ∷ blocks) = suc (weight block) + weights blocks

abbrev pub weights_open : List Segments → ℕ
weights_open [] = 0
weights_open (block ∷ blocks) = weight block + weights_open blocks

abbrev pub left_of : Cursor → ℕ
left_of (cursor token args body outer more) =
    length args + weight body + weights_open outer + weights more

next_of-Advances : Advances left_of next_of
next_of-Advances = record { loads = loads; stays = stays }
  where
    loads : (s : Cursor) → (next_of s).0 ≡ true → left_of (next_of s).1 < left_of s
    loads (cursor token args body outer []) h = absurd (cc h)
    loads (cursor token args body outer (block ∷ more)) h = omega arith

    stays : (s : Cursor) → left_of (next_of s).1 ≤ left_of s
    stays (cursor token args body outer []) = omega arith
    stays (cursor token args body outer (block ∷ more)) = omega arith

next_arg_of-Advances : Advances left_of next_arg_of
next_arg_of-Advances = record { loads = loads; stays = stays }
  where
    loads : (s : Cursor) → (next_arg_of s).0 ≡ true → left_of (next_arg_of s).1 < left_of s
    loads (cursor token [] body outer more) h = absurd (cc h)
    loads (cursor token (a ∷ args) body outer more) h = omega arith

    stays : (s : Cursor) → left_of (next_arg_of s).1 ≤ left_of s
    stays (cursor token [] body outer more) = omega arith
    stays (cursor token (a ∷ args) body outer more) = omega arith

next_line_of-Advances : Advances left_of next_line_of
next_line_of-Advances = record { loads = loads; stays = stays }
  where
    loads : (s : Cursor) → (next_line_of s).0 ≡ true → left_of (next_line_of s).1 < left_of s
    loads (cursor token args (line name args' body rest) outer more) h = omega arith
    loads (cursor token args nil [] more) h = absurd (cc h)
    loads (cursor token args nil (nil ∷ outer) more) h = absurd (cc h)
    loads (cursor token args nil (line name args' body rest ∷ outer) more) h = omega arith

    stays : (s : Cursor) → left_of (next_line_of s).1 ≤ left_of s
    stays (cursor token args (line name args' body rest) outer more) = omega arith
    stays (cursor token args nil [] more) = omega arith
    stays (cursor token args nil (nil ∷ outer) more) = omega arith
    stays (cursor token args nil (line name args' body rest ∷ outer) more) = omega arith

pub tokens-IsFinite : IsFinite tokens left_of
tokens-IsFinite = record {
  next = next_of-Advances;
  next_arg = next_arg_of-Advances;
  next_block = λ n. next_line_of-Advances;
}

-- The token that is loaded after arguments, and after lines.
abbrev pub last : String → List String → String
last token [] = token
last token (a ∷ args) = last a args

abbrev pub final : String → Segments → String
final token nil = token
final token (line name args body rest) = final (final (last name args) body) rest

arguments-Reads :
    (token : String) (args : List String) (body : Segments) (outer more : List Segments)
    → ReadsArgs tokens args (cursor token args body outer more)
arguments-Reads token [] body outer more = (refl, refl)
arguments-Reads token (a ∷ args) body outer more =
    (refl, refl, arguments-Reads a args body outer more)

arguments-after :
    (token : String) (args : List String) (body : Segments) (outer more : List Segments)
    → after_args tokens args (cursor token args body outer more)
      ≡ cursor (last token args) [] body outer more
arguments-after token [] body outer more = refl
arguments-after token (a ∷ args) body outer more = arguments-after a args body outer more

-- A block is read alike before its first line is asked for and after.
pending-after :
    (n : ℕ) (name : String) (args : List String) (body rest : Segments) (token : String)
    (outer more : List Segments)
    → after tokens n
        (line name args body rest)
        (cursor token [] (line name args body rest) outer more)
      ≡ after tokens n
          (line name args body rest)
          (cursor token [] nil (line name args body rest ∷ outer) more)
pending-after n name args nil rest token outer more = refl
pending-after n name args (line name' args' body' rest') rest token outer more = refl

pending-Reads :
    (n : ℕ) (name : String) (args : List String) (body rest : Segments) (token : String)
    (outer more : List Segments)
    → Reads tokens n
        (line name args body rest)
        (cursor token [] nil (line name args body rest ∷ outer) more)
    → Reads tokens n
        (line name args body rest)
        (cursor token [] (line name args body rest) outer more)
pending-Reads n name args nil rest token outer more h = h
pending-Reads n name args (line name' args' body' rest') rest token outer more h = h

lines-after :
    (n : ℕ) (segs : Segments) (token : String) (outer more : List Segments)
    → after tokens n segs (cursor token [] nil (segs ∷ outer) more)
      ≡ cursor (final token segs) [] nil outer more
lines-after n nil token outer more = refl
lines-after n (line name args nil rest) token outer more =
    ap (after tokens n rest) (arguments-after name args nil (rest ∷ outer) more)
    ∙ lines-after n rest (last name args) outer more
lines-after n (line name args (line name' args' body' rest') rest) token outer more =
    ap (λ s. after tokens n rest (after tokens (suc n) (line name' args' body' rest') s))
      (arguments-after name args (line name' args' body' rest') (rest ∷ outer) more)
    ∙ ap (after tokens n rest)
        (pending-after (suc n) name' args' body' rest' (last name args) (rest ∷ outer) more)
    ∙ ap (after tokens n rest)
        (lines-after (suc n) (line name' args' body' rest') (last name args) (rest ∷ outer) more)
    ∙ lines-after n rest (final (last name args) (line name' args' body' rest')) outer more

-- Any lines are handed out.
lines-Reads :
    (n : ℕ) (segs : Segments) (token : String) (outer more : List Segments)
    → Reads tokens n segs (cursor token [] nil (segs ∷ outer) more)
lines-Reads n nil token outer more = refl
lines-Reads n (line name args nil rest) token outer more = (
  refl,
  refl,
  arguments-Reads name args nil (rest ∷ outer) more,
  subst (Reads tokens n rest) (sym (arguments-after name args nil (rest ∷ outer) more))
      (lines-Reads n rest (last name args) outer more),
)
lines-Reads n (line name args (line name' args' body' rest') rest) token outer more =
    let at = arguments-after name args (line name' args' body' rest') (rest ∷ outer) more in
    (
      refl,
      refl,
      arguments-Reads name args (line name' args' body' rest') (rest ∷ outer) more,
      subst (Reads tokens (suc n) (line name' args' body' rest')) (sym at) (
          pending-Reads (suc n) name' args' body' rest' (last name args) (rest ∷ outer) more (
            lines-Reads (suc n) (line name' args' body' rest') (last name args) (rest ∷ outer)
              more)),
      subst (λ s. Reads tokens n rest (after tokens (suc n) (line name' args' body' rest') s))
          (sym at)
          (subst (Reads tokens n rest)
            (sym (
              pending-after (suc n) name' args' body' rest' (last name args) (rest ∷ outer) more
              ∙ lines-after (suc n) (line name' args' body' rest') (last name args) (rest ∷ outer)
                  more))
            (lines-Reads n rest (final (last name args) (line name' args' body' rest')) outer
              more)),
    )

-- A block with a line, as the body of the directive that is loaded.
pub block-Reads :
    (name : String) (args : List String) (body rest : Segments) (token : String)
    → Reads tokens 0 (line name args body rest) (cursor token [] (line name args body rest) [] [])
block-Reads name args body rest token =
    pending-Reads 0 name args body rest token [] []
      (lines-Reads 0 (line name args body rest) token [] [])

pub block-after :
    (name : String) (args : List String) (body rest : Segments) (token : String)
    → after tokens 0 (line name args body rest) (cursor token [] (line name args body rest) [] [])
      ≡ cursor (final token (line name args body rest)) [] nil [] []
block-after name args body rest token =
    pending-after 0 name args body rest token [] []
    ∙ lines-after 0 (line name args body rest) token [] []
