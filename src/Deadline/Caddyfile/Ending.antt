-- ===== src/Deadline/Caddyfile/Ending.antt =====
-- request_deadline_caddyfile.go: `UnmarshalCaddyfile` comes to an end, and what it accepts.
use caddy_blockchain_health.Common.{
  ℕ, ◌≤◌, ◌<◌, ◌≡◌, refl, arith, true, ◌||◌, ◌⊎◌, inl, inr, List, [], ◌++◌, none, String, str_eq,
  All, Bool-cases, Option-cases,
}
use caddy_blockchain_health.Common.Int.{ℤ}
use caddy_blockchain_health.Common.Text.{Text}
use caddy_blockchain_health.Types.Protocol.{Reply}
use caddy_blockchain_health.Caddyfile.{
  Dispenser, Readers, Parsing, parsed, ◌>>=◌, reading, value, values, each,
}
use caddy_blockchain_health.Caddyfile.Ends.{
  IsFinite, Ends, Any, >>=-Ends, reading-Ends, each-Ends, values-Ends,
}
use caddy_blockchain_health.Directives.Accepted.{All-concat}
use caddy_blockchain_health.Deadline
use caddy_blockchain_health.Deadline.{Source, Skip, RequestDeadline}
use caddy_blockchain_health.Deadline.Caddyfile.{
  Verbs, DeadlineDirective, from, default, tiers, skip, add_headers, min_timeout, max_timeout,
  unknown, deadline_directive, SkipDirective, websocket, grpc, methods, skip_directive, add_source,
  tier_entry, skip_line, duration_line, deadline_line, deadline_block, validated,
  unmarshal_caddyfile,
}

-- A text is the argument that the dispenser gives after a state.
abbrev pub IsNext : {S : Type 0} → Dispenser S → S → String → Type 0
IsNext d s v = ((d.next_arg s).0 ≡ true) × (d.val (d.next_arg s).1 ≡ v)

-- A placeholder with this text, or a header or a query parameter of this name, and nothing else.
abbrev pub Holds : Source → String → Type 0
Holds s v =
    ((str_eq s.type "placeholder" ≡ true) × (s.value ≡ v) × (s.name ≡ ""))
    ⊎ ((str_eq s.type "header" || str_eq s.type "query" ≡ true) × (s.name ≡ v) × (s.value ≡ ""))

-- A source that is read: its type and what it holds are two arguments that the dispenser gives one after
-- the other from some state on.
abbrev pub IsRead : {S : Type 0} → Dispenser S → Source → Type 0
IsRead {S} d s =
    (at : S) × (v : String) × IsNext d at s.type × IsNext d (d.next_arg at).1 v × Holds s v

abbrev pub SourcesRead : {S : Type 0} → Dispenser S → RequestDeadline → Type 0
SourcesRead d h = All (IsRead d) h.sources

-- What is accepted: it is valid, and its sources are read.
abbrev pub IsAccepted : {S : Type 0} → Dispenser S → RequestDeadline → Type 0
IsAccepted d h = SourcesRead d h × (Deadline.validate h ≡ none)

module _ {S : Type 0} (d : Dispenser S) (readers : Readers) (verbs : Verbs) (left : S → ℕ)
    (finite : IsFinite d left) where
  add_source-Ends :
      (n : ℕ) (at : S) (typ v : String) (h : RequestDeadline) (s : S)
      → SourcesRead d h
      → IsNext d at typ
      → IsNext d (d.next_arg at).1 v
      → left s ≤ n
      → Ends left n (SourcesRead d) (add_source d readers verbs typ v h s)
  unfolding add_source
  add_source-Ends n at typ v h s good first second le =
      elim (Bool-cases (str_eq typ "placeholder")) [
        | inl placeholder ↦
            rw (placeholder, add_source)
              (
                All-concat (IsRead d) h.sources (record { type = typ; name = ""; value = v }) good
                    (at, v, first, second, inl (placeholder, refl, refl)),
                le,
              )
        | inr other ↦ elim (Bool-cases (str_eq typ "header" || str_eq typ "query")) [
          | inl named ↦
              rw (other, named, add_source)
                (
                  All-concat (IsRead d) h.sources (record { type = typ; name = v; value = "" }) good
                      (at, v, first, second, inr (named, refl, refl)),
                  le,
                )
          | inr strange ↦ rw (other, strange, add_source) tt
        ]
      ]

  -- A value, which is the next argument, and what is done with it.
  then_value :
      {A : Type 0} (J : A → Type 0) (n : ℕ) (s : S) (k : String → S → Parsing S A)
      → left s ≤ n
      → ((v : String)
          → IsNext d s v
          → left (d.next_arg s).1 ≤ n
          → Ends left n J (k v (d.next_arg s).1))
      → Ends left n J (value d s >>= k)
  unfolding value
  then_value J n s k le f = elim (Bool-cases (d.next_arg s).0) [
    | inl more ↦
        rw (more, value)
          (f (d.val (d.next_arg s).1) (more, refl) (omega (arith, finite.next_arg.stays s, le)))
    | inr over ↦ rw (over, value) tt
  ]

  -- A value that is read, and then stored in a way that keeps a property.
  stored_value :
      {A B : Type 0} (J : B → Type 0) (s : S) (message : String) (read : String → Reply A)
      (set : A → B)
      → ((a : A) → J (set a))
      → Ends left
          (left s)
          J
          (value d s >>= λ v t. (reading message (read v) t >>= λ a t. parsed (set a) t))
  stored_value J s message read set keeps = then_value J (left s) s _ (omega arith) (λ v next le.
      >>=-Ends left Any J (left s) (reading message (read v) (d.next_arg s).1)
        (λ a t. parsed (set a) t)
        (reading-Ends left Any (left s) message (read v) (d.next_arg s).1 (λ a. tt) le)
        (λ a u t le. (keeps a, le)))

  duration_line-Ends :
      (message : String) (set : ℤ → RequestDeadline) (s : S)
      → ((n : ℤ) → SourcesRead d (set n))
      → Ends left (left s) (SourcesRead d) (duration_line d readers verbs message set s)
  unfolding duration_line
  duration_line-Ends message set s keeps =
      stored_value (SourcesRead d) s message readers.parse_duration set keeps

  tier_entry-Ends :
      (fuel : ℕ) (known : List (Text × String)) (s : S)
      → Ends left (left s) Any (tier_entry d readers verbs fuel known s)
  unfolding tier_entry
  tier_entry-Ends fuel known s = elim (Bool-cases (str_eq (d.val s) "")) [
    | inl unnamed ↦ rw (unnamed, tier_entry) tt
    | inr named ↦
        rw (named, tier_entry) (then_value Any (left s) s _ (omega arith) (λ v next le. (tt, le)))
  ]

  skip_line-Ends :
      (directive : SkipDirective) (fuel : ℕ) (sk : Skip) (s : S)
      → left s < fuel
      → Ends left (left s) Any (skip_line d readers verbs directive fuel sk s)
  unfolding skip_line
  skip_line-Ends websocket fuel sk s enough =
      stored_value Any s "invalid websocket bool: " readers.parse_bool
        (λ b. record sk { websocket = b }) (λ b. tt)
  skip_line-Ends grpc fuel sk s enough =
      stored_value Any s "invalid grpc bool: " readers.parse_bool (λ b. record sk { grpc = b })
        (λ b. tt)
  skip_line-Ends methods fuel sk s enough =
      >>=-Ends left Any Any (left s) (values d fuel [] s)
        (λ found t. parsed (record sk { methods = sk.methods ++ found }) t)
        (values-Ends d left finite fuel [] s enough) (λ found t u le. (tt, le))
  skip_line-Ends SkipDirective.unknown fuel sk s enough = tt

  deadline_line-Ends :
      (directive : DeadlineDirective) (fuel : ℕ) (h : RequestDeadline) (s : S)
      → left s < fuel
      → SourcesRead d h
      → Ends left (left s) (SourcesRead d) (deadline_line d readers verbs directive fuel h s)
  unfolding deadline_line
  deadline_line-Ends from fuel h s enough good =
      then_value (SourcesRead d) (left s) s _ (omega arith) (λ typ first le.
        then_value (SourcesRead d) (left s) (d.next_arg s).1 _ le
          (λ v second le. add_source-Ends (left s) s typ v h _ good first second le))
  deadline_line-Ends default fuel h s enough good =
      duration_line-Ends "invalid default duration: " _ s (λ n. good)
  deadline_line-Ends tiers fuel h s enough good =
      >>=-Ends left Any (SourcesRead d) (left s)
        (each (tier_entry d readers verbs) (d.next_block 1) fuel h.tiers s)
        (λ found t. parsed (record h { tiers = found }) t)
        (each-Ends left Any (tier_entry d readers verbs) (d.next_block 1) (finite.next_block 1)
          (λ f known t e u. tier_entry-Ends f known t) fuel h.tiers s enough tt)
        (λ found t u le. (good, le))
  deadline_line-Ends skip fuel h s enough good =
      >>=-Ends left Any (SourcesRead d) (left s)
        (each (λ left sk s. skip_line d readers verbs (skip_directive (d.val s)) left sk s)
          (d.next_block 1) fuel h.skip s)
        (λ found t. parsed (record h { skip = found }) t)
        (each-Ends left Any _ (d.next_block 1) (finite.next_block 1)
          (λ f sk t e u. skip_line-Ends (skip_directive (d.val t)) f sk t e) fuel h.skip s enough
          tt)
        (λ found t u le. (good, le))
  deadline_line-Ends add_headers fuel h s enough good =
      stored_value (SourcesRead d) s "invalid add_headers bool: " readers.parse_bool
        (λ b. record h { add_headers = b }) (λ b. good)
  deadline_line-Ends min_timeout fuel h s enough good =
      duration_line-Ends "invalid min_timeout: " _ s (λ n. good)
  deadline_line-Ends max_timeout fuel h s enough good =
      duration_line-Ends "invalid max_timeout: " _ s (λ n. good)
  deadline_line-Ends unknown fuel h s enough good = tt

  deadline_block-Ends :
      (fuel : ℕ) (h : RequestDeadline) (s : S)
      → left s < fuel
      → SourcesRead d h
      → Ends left (left s) (SourcesRead d) (deadline_block d readers verbs fuel h s)
  unfolding deadline_block
  deadline_block-Ends =
      each-Ends left (SourcesRead d) _ (d.next_block 0) (finite.next_block 0)
        (λ f h u. deadline_line-Ends (deadline_directive (d.val u)) f h u)

  validated-Ends :
      (n : ℕ) (h : RequestDeadline) (s : S)
      → SourcesRead d h
      → left s ≤ n
      → Ends left n (IsAccepted d) (validated d readers verbs h s)
  unfolding validated
  validated-Ends n h s good le = elim (Option-cases (Deadline.validate h)) [
    | inl valid ↦ rw (valid, validated) ((good, valid), le)
    | inr e ↦ rw (e.1, validated) tt
  ]

  -- On a dispenser with finitely many tokens, and with more fuel than tokens, `UnmarshalCaddyfile`
  -- of the middleware comes to an end: it fails with an error, or it returns a middleware that
  -- `Validate` accepts. The type and the text of each of its placeholders, and the type and the name
  -- of each of its headers and query parameters, are two arguments that the dispenser gives one after
  -- the other, with nothing else stored, if that is so of the sources it began with.
  pub unmarshal_caddyfile-Ends :
      (fuel : ℕ) (h : RequestDeadline) (s : S)
      → left s < fuel
      → SourcesRead d h
      → Ends left (left s) (IsAccepted d) (unmarshal_caddyfile d readers verbs fuel h s)
  unfolding unmarshal_caddyfile
  unmarshal_caddyfile-Ends fuel h s enough good =
      >>=-Ends left (SourcesRead d) (IsAccepted d) (left s)
        (each (deadline_block d readers verbs) d.next fuel h s) (validated d readers verbs)
        (each-Ends left (SourcesRead d) _ d.next finite.next deadline_block-Ends fuel h s enough
          good)
        (λ h t. validated-Ends (left s) h t)
