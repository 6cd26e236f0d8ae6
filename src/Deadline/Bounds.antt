-- ===== src/Deadline/Bounds.antt =====
-- The deadline that a request gets lies within the configured bounds.
use caddy_blockchain_health.Common.{
  ℕ, ◌+◌, ◌≤◌, ◌≡◌, arith, Bool, true, false, ◌⊎◌, inl, inr, Option, none, some, if◌then◌else◌,
  Bool-cases,
}
use caddy_blockchain_health.Common.Int.{ℤ, pos, pos_part, ◌≤ℤ◌, ◌<ℤ◌, leb_ℤ}
use caddy_blockchain_health.Deadline.{
  lookup_tier, duration_or, RequestDeadline, Request, PlanHeaders, Outcome, validate, clamp,
  timeout_of, tier_of, serve_http, Served, passed, limited, should_skip, earlier, outcome_at,
}

bounds_ordered :
    (h : RequestDeadline)
    → validate h ≡ none
    → pos 0 <ℤ h.min_timeout
    → pos 0 <ℤ h.max_timeout
    → h.min_timeout ≤ℤ h.max_timeout
unfolding validate
bounds_ordered h v low high = ground arith

clamp_bounds :
    (h : RequestDeadline) (t : ℤ)
    → validate h ≡ none
    → pos 0 <ℤ clamp h t
    → (h.min_timeout ≤ℤ clamp h t) × ((clamp h t ≤ℤ h.max_timeout) ⊎ (h.max_timeout ≤ℤ pos 0))
unfolding clamp
clamp_bounds h t v p = ground (arith, bounds_ordered h v)

-- What is owed to a request: under a deadline it gets a timeout above 0 and within the bounds that
-- are configured, and a deadline no later than that timeout from now.
abbrev pub Within : RequestDeadline → ℕ → Served → Type 0
Within h now passed = Unit
Within h now (limited tier timeout deadline headers outcome) =
    (pos 0 <ℤ timeout)
    × (h.min_timeout ≤ℤ timeout)
    × ((timeout ≤ℤ h.max_timeout) ⊎ (h.max_timeout ≤ℤ pos 0))
    × (deadline ≤ now + pos_part timeout)

timeout_bounds :
    (h : RequestDeadline) (r : Request)
    → validate h ≡ none
    → pos 0 <ℤ timeout_of h r
    → (h.min_timeout ≤ℤ timeout_of h r)
      × ((timeout_of h r ≤ℤ h.max_timeout) ⊎ (h.max_timeout ≤ℤ pos 0))
unfolding timeout_of
timeout_bounds h r v p =
    clamp_bounds h (duration_or h.default_timeout (lookup_tier (tier_of h r) h.tier_dur)) v p

earlier-le : (t : ℕ) (o : Option ℕ) → earlier t o ≤ t
earlier-le t none = omega arith
earlier-le t (some d) = ground arith

-- With a configuration that `Validate` accepts, whatever the tier of a request and its duration, the
-- timeout of a request that is put under a deadline is above 0, at least the minimum, and at most the
-- maximum if one is set; its deadline is at most that timeout away.
pub serve_http-Within :
    (h : RequestDeadline) (r : Request) (now later : ℕ)
    → validate h ≡ none
    → Within h now (serve_http h r now later)
unfolding serve_http
serve_http-Within h r now later v =
    by_skip (should_skip h r) (Bool-cases (leb_ℤ (timeout_of h r) (pos 0)))
  where
    t : ℤ
    t = timeout_of h r

    deadline : ℕ
    deadline = earlier (now + pos_part t) r.deadline

    headers : Option PlanHeaders
    headers =
        if h.add_headers
        then some (record {
          plan_tier = tier_of h r;
          request_timeout = t;
          request_deadline_at = now + pos_part t;
        })
        else none

    outcome : Outcome
    outcome = outcome_at deadline r.cancelled_at later

    by_skip :
        (skip : Bool)
        → (leb_ℤ t (pos 0) ≡ true) ⊎ (leb_ℤ t (pos 0) ≡ false)
        → Within h now (
            if skip
            then passed
            else if leb_ℤ t (pos 0)
            then passed
            else limited (tier_of h r) t deadline headers outcome)
    by_skip true c = tt
    by_skip false (inl none_set) = rw none_set tt
    by_skip false (inr positive) =
        let p : pos 0 <ℤ t = ground arith in
        let b = timeout_bounds h r v p in
        rw positive (p, b.0, b.1, earlier-le (now + pos_part t) r.deadline)
