-- ===== src/Deadline/Tiers.antt =====
-- The way of a tier from the configuration to the request.
use caddy_blockchain_health.Common.{
  ◌==◌, Bool, ℕ, ◌≡◌, refl, arith, List, [], ◌∷◌, Option, none, some, String, if◌then◌else◌,
  Option-cases, inl, inr, ◌∙◌, ap, sym, true, false,
}
use caddy_blockchain_health.Common.Int.{ℤ}
use caddy_blockchain_health.Common.Text.{
  Text, codes, is_empty, text_eq, text_eq_iff, upper, lower, to_upper, to_lower, equal_fold,
  trim_space,
}
use caddy_blockchain_health.Deadline.{
  resolve_tier, tier_of, clamp, duration_or, timeout_of, Request, tier_of, duration_or, clamp,
  Request, timeout_of, RequestDeadline, normalize, lookup_tier, insert_tier, tier_durations,
  provision,
}

lookup-insert_tier :
    (k j : Text) (d : ℤ) (m : List (Text × ℤ))
    → lookup_tier j (insert_tier k d m) ≡ (if text_eq k j then some d else lookup_tier j m)
unfolding lookup_tier insert_tier
lookup-insert_tier k j d [] = refl
lookup-insert_tier k j d ((i, e) ∷ m) =
    ground (arith, text_eq_iff k j, text_eq_iff i k, text_eq_iff i j, lookup-insert_tier k j d m)

same_letters : (a b : ℕ) → (upper a == upper b) ≡ (lower a == lower b)
unfolding upper lower
same_letters a b = ground arith

same_texts : (s t : Text) → text_eq (to_upper s) (to_upper t) ≡ equal_fold s t
unfolding to_upper equal_fold to_lower
same_texts [] [] = refl
same_texts [] (b ∷ t) = refl
same_texts (a ∷ s) [] = refl
same_texts (a ∷ s) (b ∷ t) = rw (same_letters a b, same_texts s t) refl

-- The tier that a request asks for, as it is spelled there.
abbrev pub asked_tier : RequestDeadline → Request → Text
asked_tier h r =
    let tier = trim_space (resolve_tier h r) in if is_empty tier then codes "__DEFAULT__" else tier

tier_of_lem : (h : RequestDeadline) (r : Request) → tier_of h r ≡ to_upper (asked_tier h r)
unfolding tier_of
tier_of_lem h r = by_length (is_empty (trim_space (resolve_tier h r)))
  where
    by_length :
        (b : Bool)
        → (if b then codes "__DEFAULT__" else to_upper (trim_space (resolve_tier h r)))
          ≡ to_upper (if b then codes "__DEFAULT__" else trim_space (resolve_tier h r))
    by_length true = unfold to_upper upper in refl
    by_length false = refl

-- The duration of the last entry whose name, without the space around it, is the given text but for letter
-- case, else the given one.
pub last_duration : (String → Option ℤ) → Text → List (Text × String) → Option ℤ → Option ℤ
last_duration parse_duration asked [] found = found
last_duration parse_duration asked ((j, v) ∷ tiers) found =
    last_duration parse_duration asked tiers
      (if equal_fold (trim_space j) asked then parse_duration v else found)

folded :
    (j k : Text) (d : ℤ) (m : List (Text × ℤ))
    → (if text_eq (normalize j) (to_upper k) then some d else lookup_tier (to_upper k) m)
      ≡ (if equal_fold (trim_space j) k then some d else lookup_tier (to_upper k) m)
unfolding normalize
folded j k d m = rw (same_texts (trim_space j) k) refl

tiers_lem :
    (parse_duration : String → Option ℤ) (k : Text) (tiers : List (Text × String))
    (m m' : List (Text × ℤ))
    → tier_durations parse_duration tiers m ≡ some m'
    → lookup_tier (to_upper k) m'
      ≡ last_duration parse_duration k tiers (lookup_tier (to_upper k) m)
unfolding tier_durations last_duration
tiers_lem parse_duration k [] m m' e = ap (lookup_tier (to_upper k)) (sym (ground arith))
tiers_lem parse_duration k ((j, v) ∷ tiers) m m' e = elim (Option-cases (parse_duration v)) [
  | inl bad ↦
      let stops : tier_durations parse_duration ((j, v) ∷ tiers) m ≡ none =
        rw (bad, tier_durations) in
      absurd (cc (stops, e))
  | inr (d, good) ↦
      let goes : tier_durations parse_duration ((j, v) ∷ tiers) m
          ≡ tier_durations parse_duration tiers (insert_tier (normalize j) d m) =
        rw (good, tier_durations) in
      tiers_lem parse_duration k tiers (insert_tier (normalize j) d m) m' (sym goes ∙ e)
      ∙ ap (last_duration parse_duration k tiers) (
          lookup-insert_tier (normalize j) (to_upper k) d m
          ∙ folded j k d m
          ∙ ap
              (λ (o : Option ℤ).
                if equal_fold (trim_space j) k then o else lookup_tier (to_upper k) m)
              (sym good))
]

-- After `Provision`, the timeout of a request is the duration that the configuration gives last to a name
-- which is the tier that the request asks for, but for letter case and the space around both, else the
-- default, within the bounds. A request that names no tier asks for `__DEFAULT__`.
pub provision-timeout_of :
    (parse_duration : String → Option ℤ) (h h' : RequestDeadline) (r : Request)
    → provision parse_duration h ≡ some h'
    → timeout_of h' r
      ≡ clamp h (
          duration_or h.default_timeout
            (last_duration parse_duration (asked_tier h r) h.tiers none))
unfolding timeout_of provision lookup_tier tier_of resolve_tier
provision-timeout_of parse_duration h h' r e =
    elim (Option-cases (tier_durations parse_duration h.tiers [])) [
      | inl bad ↦
          let stops : provision parse_duration h ≡ none = rw (bad, provision) in
          absurd (cc (stops, e))
      | inr (m, good) ↦
          let gives : provision parse_duration h ≡ some (record h { tier_dur = m }) =
            rw (good, provision) in
          let same : h' ≡ record h { tier_dur = m } = ground arith in
          rw same (
            ap (λ o. clamp h (duration_or h.default_timeout o))
              (ap (λ k. lookup_tier k m) (tier_of_lem h r)
                ∙ tiers_lem parse_duration (asked_tier h r) h.tiers [] m good))
    ]
