-- ===== src/Caddyfile/Ends.antt =====
-- That a parser comes to an end, and what then holds: rules for the loops and the steps.
use caddy_blockchain_health.Common.{
  ℕ, zero, suc, ◌≤◌, ◌<◌, ◌≡◌, arith, Bool, true, List, [], ◌∷◌, ◌++◌, String, Bool-cases, inl, inr,
}
use caddy_blockchain_health.Types.Protocol.{Reply, ok, err}
use caddy_blockchain_health.Caddyfile.{
  Dispenser, Parsing, parsed, failed, stuck, ◌>>=◌, in_context, reading, value, values, each,
}

-- A dispenser has finitely many tokens: whenever it loads one, fewer are left, and when it does not,
-- no more.
pub record Advances {S : Type 0} (left : S → ℕ) (test : S → Bool × S) : Type 0 where
  pub loads : (s : S) → (test s).0 ≡ true → left (test s).1 < left s
  pub stays : (s : S) → left (test s).1 ≤ left s

pub record IsFinite {S : Type 0} (d : Dispenser S) (left : S → ℕ) : Type 0 where
  pub next : Advances left d.next
  pub next_arg : Advances left d.next_arg
  pub next_block : (n : ℕ) → Advances left (d.next_block n)

module _ {S : Type 0} (left : S → ℕ) where
  -- The outcome is an error, or a value with the property at a state with no more than `n` tokens
  -- left; it is not out of fuel.
  abbrev pub Ends : {A : Type 0} → ℕ → (A → Type 0) → Parsing S A → Type 0
  Ends n I (parsed a s) = I a × (left s ≤ n)
  Ends n I (failed e) = Unit
  Ends n I stuck = ⊥

  pub loosen :
      {A : Type 0} (I : A → Type 0) (n m : ℕ) (r : Parsing S A) → n ≤ m → Ends n I r → Ends m I r
  loosen I n m (parsed b t) le p = (p.0, omega (arith, p.1, le))
  loosen I n m (failed e) le p = tt
  loosen I n m stuck le p = p

  pub >>=-Ends :
      {A B : Type 0} (I : A → Type 0) (J : B → Type 0) (n : ℕ) (m : Parsing S A)
      (k : A → S → Parsing S B)
      → Ends n I m
      → ((a : A) (s : S) → I a → left s ≤ n → Ends n J (k a s))
      → Ends n J (m >>= k)
  >>=-Ends I J n (parsed a s) k h f = f a s h.0 h.1
  >>=-Ends I J n (failed e) k h f = tt
  >>=-Ends I J n stuck k h f = absurd h

  pub in_context-Ends :
      {A : Type 0} (I : A → Type 0) (n : ℕ) (message : String) (m : Parsing S A)
      → Ends n I m
      → Ends n I (in_context message m)
  in_context-Ends I n message (parsed a s) h = h
  in_context-Ends I n message (failed e) h = tt
  in_context-Ends I n message stuck h = absurd h

  pub reading-Ends :
      {A : Type 0} (I : A → Type 0) (n : ℕ) (message : String) (r : Reply A) (s : S)
      → ((a : A) → I a)
      → left s ≤ n
      → Ends n I (reading message r s)
  reading-Ends I n message (ok a) s h le = (h a, le)
  reading-Ends I n message (err e) s h le = tt

  -- The rule for a loop: an invariant that the body keeps.
  pub each-Ends :
      {A : Type 0} (I : A → Type 0) (body : ℕ → A → S → Parsing S A) (test : S → Bool × S)
      → Advances left test
      → ((fuel : ℕ) (a : A) (s : S) → left s < fuel → I a → Ends (left s) I (body fuel a s))
      → (fuel : ℕ) (a : A) (s : S) → left s < fuel
      → I a
      → Ends (left s) I (each body test fuel a s)
  unfolding each
  each-Ends I body test moves keeps zero a s enough h = absurd (omega arith)
  each-Ends I body test moves keeps (suc fuel) a s enough h = elim (Bool-cases (test s).0) [
    | inl more ↦
        let fewer = moves.loads s more in
        rw (more, each)
          (loosen I (left (test s).1) (left s) (body fuel a (test s).1 >>= each body test fuel)
            (omega (arith, fewer))
            (>>=-Ends I I (left (test s).1) (body fuel a (test s).1) (each body test fuel)
              (keeps fuel a (test s).1 (omega (arith, fewer, enough)) h)
              (λ b t q le.
                loosen I (left t) (left (test s).1) (each body test fuel b t) le (
                  each-Ends I body test moves keeps fuel b t (omega (arith, le, fewer, enough))
                    q))))
    | inr over ↦ rw (over, each) (h, moves.stays s)
  ]

abbrev pub Any : {A : Type 0} → A → Type 0
Any a = Unit

module _ {S : Type 0} (d : Dispenser S) (left : S → ℕ) (finite : IsFinite d left) where
  pub value-Ends : (s : S) → Ends left (left s) Any (value d s)
  unfolding value
  value-Ends s = elim (Bool-cases (d.next_arg s).0) [
    | inl more ↦ rw (more, value) (tt, finite.next_arg.stays s)
    | inr over ↦ rw (over, value) tt
  ]

  pub values-Ends :
      (fuel : ℕ) (found : List String) (s : S)
      → left s < fuel
      → Ends left (left s) Any (values d fuel found s)
  unfolding values
  values-Ends fuel found s enough =
      each-Ends left Any (λ left found s. parsed (found ++ d.val s ∷ []) s) d.next_arg
        finite.next_arg (λ f a t e h. (tt, omega arith)) fuel found s enough tt
