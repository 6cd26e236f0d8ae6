-- ===== src/Cache/Keys.antt =====
-- The association lists that stand for Go maps have each key once, and every operation keeps that.
use caddy_blockchain_health.Common.{
  ℕ, ◌≡◌, refl, arith, false, List, [], ◌∷◌, none, String, str_eq, eq_iff, Bool-cases, inl, inr,
  subst,
}
use caddy_blockchain_health.Common.Dict.{lookup, insert, erase}
use caddy_blockchain_health.Cache.{CacheEntry, prune}

-- The key is in the list under no entry.
abbrev pub Fresh {ℓ} : {V : Type ℓ} → String → List (String × V) → Type 0
Fresh k [] = Unit
Fresh k ((j, v) ∷ m) = (str_eq j k ≡ false) × Fresh k m

abbrev pub HasUniqueKeys {ℓ} : {V : Type ℓ} → List (String × V) → Type 0
HasUniqueKeys [] = Unit
HasUniqueKeys ((j, v) ∷ m) = Fresh j m × HasUniqueKeys m

str_eq-sym : (k j : String) → str_eq k j ≡ false → str_eq j k ≡ false
str_eq-sym k j h = ground (arith, eq_iff k j, eq_iff j k)

module _ {ℓ} {V : Type ℓ} where
  insert-Fresh :
      (k j : String) (v : V) (m : List (String × V))
      → str_eq j k ≡ false
      → Fresh k m
      → Fresh k (insert j v m)
  unfolding insert
  insert-Fresh k j v [] n h = (n, tt)
  insert-Fresh k j v ((i, w) ∷ m) n h = ground (arith, insert-Fresh k j v m n h.1)

  pub insert-HasUniqueKeys :
      (k : String) (v : V) (m : List (String × V)) → HasUniqueKeys m → HasUniqueKeys (insert k v m)
  unfolding insert
  insert-HasUniqueKeys k v [] h = (tt, tt)
  insert-HasUniqueKeys k v ((i, w) ∷ m) h = elim (Bool-cases (str_eq i k)) [
    | inl same ↦ rw same (subst (λ j. Fresh j m) ((eq_iff i k).0 same) h.0, h.1)
    | inr other ↦
        rw other (insert-Fresh i k v m (str_eq-sym i k other) h.0, insert-HasUniqueKeys k v m h.1)
  ]

  erase-Fresh : (k j : String) (m : List (String × V)) → Fresh k m → Fresh k (erase j m)
  unfolding erase
  erase-Fresh k j [] h = tt
  erase-Fresh k j ((i, w) ∷ m) h = ground (arith, erase-Fresh k j m h.1)

  pub erase-HasUniqueKeys :
      (k : String) (m : List (String × V)) → HasUniqueKeys m → HasUniqueKeys (erase k m)
  unfolding erase
  erase-HasUniqueKeys k [] h = tt
  erase-HasUniqueKeys k ((i, w) ∷ m) h =
      ground (arith, erase-HasUniqueKeys k m h.1, erase-Fresh i k m h.0)

  pub lookup-Fresh : (k : String) (m : List (String × V)) → Fresh k m → lookup k m ≡ none
  unfolding lookup
  lookup-Fresh k [] h = refl
  lookup-Fresh k ((i, w) ∷ m) h = ground (arith, lookup-Fresh k m h.1)

prune-Fresh :
    (k : String) (now : ℕ) (m : List (String × CacheEntry)) → Fresh k m → Fresh k (prune now m)
unfolding prune
prune-Fresh k now [] h = tt
prune-Fresh k now ((i, w) ∷ m) h = ground (arith, prune-Fresh k now m h.1)

pub prune-HasUniqueKeys :
    (now : ℕ) (m : List (String × CacheEntry)) → HasUniqueKeys m → HasUniqueKeys (prune now m)
unfolding prune
prune-HasUniqueKeys now [] h = tt
prune-HasUniqueKeys now ((i, w) ∷ m) h =
    ground (arith, prune-HasUniqueKeys now m h.1, prune-Fresh i now m h.0)
