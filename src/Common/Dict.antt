-- ===== src/Common/Dict.antt =====
-- Go maps with string keys, as association lists. Reading a missing key gives `none`.
use caddy_blockchain_health.Common.{
  ◌≡◌, refl, List, [], ◌∷◌, Option, none, some, String, str_eq, eq_iff, arith, if◌then◌else◌,
}

module _ {ℓ} {Value : Type ℓ} where
  unfoldable pub lookup : String → List (String × Value) → Option Value
  lookup key [] = none
  lookup key ((name, value) ∷ rest) = if str_eq name key then some value else lookup key rest

  -- `m[key] = value`
  unfoldable pub insert : String → Value → List (String × Value) → List (String × Value)
  insert key value [] = (key, value) ∷ []
  insert key value ((name, old) ∷ rest) =
      if str_eq name key then (key, value) ∷ rest else (name, old) ∷ insert key value rest

  -- `delete(m, key)`: every entry under the key goes.
  unfoldable pub erase : String → List (String × Value) → List (String × Value)
  erase key [] = []
  erase key ((name, old) ∷ rest) =
      if str_eq name key then erase key rest else (name, old) ∷ erase key rest

  pub lookup-insert :
      (key asked : String) (value : Value) (rest : List (String × Value))
      → lookup asked (insert key value rest)
        ≡ (if str_eq key asked then some value else lookup asked rest)
  unfolding lookup insert
  lookup-insert key asked value [] = refl
  lookup-insert key asked value ((name, old) ∷ rest) =
      let ih = lookup-insert key asked value rest in
      ground (arith, ih, eq_iff name key, eq_iff name asked, eq_iff key asked)

  pub lookup-erase :
      (key asked : String) (rest : List (String × Value))
      → lookup asked (erase key rest) ≡ (if str_eq key asked then none else lookup asked rest)
  unfolding lookup erase
  lookup-erase key asked [] = ground arith
  lookup-erase key asked ((name, old) ∷ rest) =
      let ih = lookup-erase key asked rest in
      ground (arith, ih, eq_iff name key, eq_iff name asked, eq_iff key asked)
