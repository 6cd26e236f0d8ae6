-- ===== src/Cache/History.antt =====
-- The cache against its history: a reference answer that looks only at the calls made so far.
use caddy_blockchain_health.Common.{
  ℕ, ◌+◌, ◌≤◌, ◌≡◌, refl, arith, List, [], ◌∷◌, Option, none, some, String, str_eq, eq_iff,
  Bool-cases, inl, inr, ◌∙◌, subst, if◌then◌else◌, ltb,
}
use caddy_blockchain_health.Common.Dict.{lookup, lookup-insert, lookup-erase}
use caddy_blockchain_health.Types.{Ref}
use caddy_blockchain_health.Cache.{
  CacheEntry, HealthCache, new_health_cache, get, set_health, delete, clear, remove_expired, prune,
  live_health,
}
use caddy_blockchain_health.Cache.Keys.{
  HasUniqueKeys, Fresh, insert-HasUniqueKeys, erase-HasUniqueKeys, prune-HasUniqueKeys,
  lookup-Fresh,
}

-- A call that changes the cache, with its instant.
pub data Write : Type 0 where
  sets : ℕ → String → Ref → Write
  deletes : String → Write
  clears : Write
  sweeps : ℕ → Write

unfoldable pub write : HealthCache → Write → HealthCache
write hc (sets now k ref) = set_health now k ref hc
write hc (deletes k) = delete k hc
write hc clears = clear hc
write hc (sweeps now) = remove_expired now hc

-- The cache after a history, whose newest call comes first.
unfoldable pub write_all : HealthCache → List Write → HealthCache
write_all hc [] = hc
write_all hc (w ∷ ws) = write (write_all hc ws) w

-- What the newest call that concerns the key says. A sweep says nothing.
unfoldable pub expected : ℕ → ℕ → String → List Write → Option Ref
expected duration now k [] = none
expected duration now k (sets then' j ref ∷ ws) =
    let older = expected duration now k ws in
    if str_eq j k then (if ltb (then' + duration) now then none else some ref) else older
expected duration now k (deletes j ∷ ws) =
    let older = expected duration now k ws in if str_eq j k then none else older
expected duration now k (clears ∷ ws) = none
expected duration now k (sweeps then' ∷ ws) = expected duration now k ws

-- No sweep of the history comes after the instant.
abbrev pub SweptBy : ℕ → List Write → Type 0
SweptBy now [] = Unit
SweptBy now (sweeps then' ∷ ws) = (then' ≤ now) × SweptBy now ws
SweptBy now (sets then' k ref ∷ ws) = SweptBy now ws
SweptBy now (deletes k ∷ ws) = SweptBy now ws
SweptBy now (clears ∷ ws) = SweptBy now ws

live-lookup-prune :
    (then' now : ℕ) (k : String) (m : List (String × CacheEntry))
    → HasUniqueKeys m
    → then' ≤ now
    → live_health now (lookup k (prune then' m)) ≡ live_health now (lookup k m)
unfolding lookup prune live_health
live-lookup-prune then' now k [] u h = refl
live-lookup-prune then' now k ((j, entry) ∷ m) u h = elim (Bool-cases (str_eq j k)) [
  | inl same ↦
      let gone : lookup k m ≡ none =
        lookup-Fresh k m (subst (λ i. Fresh i m) ((eq_iff j k).0 same) u.0) in
      ground (arith, gone, live-lookup-prune then' now k m u.1 h)
  | inr other ↦ ground (arith, live-lookup-prune then' now k m u.1 h)
]

write_all-HasUniqueKeys :
    (duration : ℕ) (ws : List Write)
    → HasUniqueKeys (write_all (new_health_cache duration) ws).cache
unfolding write_all write set_health delete clear remove_expired new_health_cache
write_all-HasUniqueKeys duration [] = tt
write_all-HasUniqueKeys duration (sets now k ref ∷ ws) =
    insert-HasUniqueKeys k _ _ (write_all-HasUniqueKeys duration ws)
write_all-HasUniqueKeys duration (deletes k ∷ ws) =
    erase-HasUniqueKeys k _ (write_all-HasUniqueKeys duration ws)
write_all-HasUniqueKeys duration (clears ∷ ws) = tt
write_all-HasUniqueKeys duration (sweeps now ∷ ws) =
    prune-HasUniqueKeys now _ (write_all-HasUniqueKeys duration ws)

duration-write_all : (hc : HealthCache) (ws : List Write) → (write_all hc ws).duration ≡ hc.duration
unfolding write_all write set_health delete clear remove_expired
duration-write_all hc [] = refl
duration-write_all hc (sets now k ref ∷ ws) = duration-write_all hc ws
duration-write_all hc (deletes k ∷ ws) = duration-write_all hc ws
duration-write_all hc (clears ∷ ws) = duration-write_all hc ws
duration-write_all hc (sweeps now ∷ ws) = duration-write_all hc ws

get-set_health :
    (now then' : ℕ) (k j : String) (ref : Ref) (hc : HealthCache)
    → get now k (set_health then' j ref hc) ≡ (
        if str_eq j k
        then (if ltb (then' + hc.duration) now then none else some ref)
        else get now k hc)
unfolding get set_health live_health
get-set_health now then' k j ref hc =
    rw (lookup-insert j k (record { health = ref; expires_at = then' + hc.duration }) hc.cache)
      (ground arith)

get-delete :
    (now : ℕ) (k j : String) (hc : HealthCache)
    → get now k (delete j hc) ≡ (if str_eq j k then none else get now k hc)
unfolding get delete live_health
get-delete now k j hc = rw (lookup-erase j k hc.cache) (ground arith)

get-remove_expired :
    (then' now : ℕ) (k : String) (hc : HealthCache)
    → HasUniqueKeys hc.cache
    → then' ≤ now
    → get now k (remove_expired then' hc) ≡ get now k hc
unfolding get remove_expired
get-remove_expired then' now k hc u h = live-lookup-prune then' now k hc.cache u h

-- After any history of writes on a new cache, `Get` answers what the newest write for the name says: the
-- health it set, up to and including the instant of its expiry, and nothing after that, after a
-- deletion or a clearing, or without a write. Sweeps no later than the read do not change the answer.
pub get-write_all :
    (duration now : ℕ) (k : String) (ws : List Write)
    → SweptBy now ws
    → get now k (write_all (new_health_cache duration) ws) ≡ expected duration now k ws
unfolding write_all write expected
get-write_all duration now k [] h = unfold get new_health_cache lookup live_health in refl
get-write_all duration now k (sets then' j ref ∷ ws) h =
    rw
      (
        get-set_health now then' k j ref (write_all (new_health_cache duration) ws),
        duration-write_all (new_health_cache duration) ws,
        get-write_all duration now k ws h,
      )
      (unfold new_health_cache in refl)
get-write_all duration now k (deletes j ∷ ws) h = rw (
  get-delete now k j (write_all (new_health_cache duration) ws),
  get-write_all duration now k ws h,
)
get-write_all duration now k (clears ∷ ws) h = unfold get clear lookup live_health in refl
get-write_all duration now k (sweeps then' ∷ ws) h =
    get-remove_expired then' now k (write_all (new_health_cache duration) ws)
      (write_all-HasUniqueKeys duration ws) h.0
    ∙ get-write_all duration now k ws h.1
