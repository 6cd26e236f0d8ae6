-- ===== src/Caddyfile/Reads.antt =====
-- Token trees, dispensers that hand one out, and what a parser's loop makes of its lines.
use mathlib.Core.List.{append_assoc, append-nil}
use caddy_blockchain_health.Common.{
  ℕ, zero, suc, ◌+◌, ◌<◌, ◌≡◌, refl, arith, true, false, List, [], ◌∷◌, ◌++◌, String, length, ◌∙◌,
  ap,
}
use caddy_blockchain_health.Caddyfile.{Dispenser, Parsing, parsed, ◌>>=◌, value, values, each}

-- The lines of a block: each has a name, arguments, and a block of its own, which may be left out.
pub data Segments : Type 0 where
  nil : Segments
  line : String → List String → Segments → Segments → Segments

abbrev pub weight : Segments → ℕ
weight nil = 0
weight (line name args body rest) = suc (length args + weight body + weight rest)

module _ {S : Type 0} (d : Dispenser S) where
  -- The state after the arguments of a line, and after the lines of a block.
  abbrev pub after_args : List String → S → S
  after_args [] s = s
  after_args (a ∷ args) s = after_args args (d.next_arg s).1

  abbrev pub after : ℕ → Segments → S → S
  after n nil s = (d.next_block n s).1
  after n (line name args nil rest) s = after n rest (after_args args (d.next_block n s).1)
  after n (line name args (line name' args' body' rest') rest) s =
      after n rest
        (after (suc n) (line name' args' body' rest') (after_args args (d.next_block n s).1))

  -- The dispenser hands out these arguments, and these lines, and no more.
  abbrev pub ReadsArgs : List String → S → Type 0
  ReadsArgs [] s = ((d.next_arg s).0 ≡ false) × ((d.next_arg s).1 ≡ s)
  ReadsArgs (a ∷ args) s =
      ((d.next_arg s).0 ≡ true) × (d.val (d.next_arg s).1 ≡ a) × ReadsArgs args (d.next_arg s).1

  abbrev pub Reads : ℕ → Segments → S → Type 0
  Reads n nil s = (d.next_block n s).0 ≡ false
  Reads n (line name args nil rest) s =
      ((d.next_block n s).0 ≡ true)
      × (d.val (d.next_block n s).1 ≡ name)
      × ReadsArgs args (d.next_block n s).1
      × Reads n rest (after_args args (d.next_block n s).1)
  Reads n (line name args (line name' args' body' rest') rest) s =
      ((d.next_block n s).0 ≡ true)
      × (d.val (d.next_block n s).1 ≡ name)
      × ReadsArgs args (d.next_block n s).1
      × Reads (suc n) (line name' args' body' rest') (after_args args (d.next_block n s).1)
      × Reads n rest
          (after (suc n) (line name' args' body' rest') (after_args args (d.next_block n s).1))

  pub value-Reads :
      (v : String) (s : S) → ReadsArgs (v ∷ []) s → value d s ≡ parsed v (after_args (v ∷ []) s)
  unfolding value
  value-Reads v s h = rw (h.0, value) (ap (λ x. parsed x (d.next_arg s).1) h.1)

  pub values-Reads :
      (args found : List String) (fuel : ℕ) (s : S)
      → length args < fuel
      → ReadsArgs args s
      → values d fuel found s ≡ parsed (found ++ args) (after_args args s)
  unfolding values
  values-Reads [] found zero s enough h = absurd (omega arith)
  values-Reads [] found (suc fuel) s enough h =
      unfold each in rw (h.0, each) (rw (h.1, append-nil) refl)
  values-Reads (a ∷ args) found zero s enough h = absurd (omega arith)
  values-Reads (a ∷ args) found (suc fuel) s enough h =
      unfold each in
      rw (h.0, each)
        (ap (λ x. values d fuel (found ++ x ∷ []) (d.next_arg s).1) h.1
          ∙ values-Reads args (found ++ a ∷ []) fuel (d.next_arg s).1 (omega arith) h.2
          ∙ ap (λ xs. parsed xs (after_args args (d.next_arg s).1))
              (append_assoc found (a ∷ []) args))

module _ {S A : Type 0} (d : Dispenser S) (body : ℕ → A → S → Parsing S A) (n : ℕ) where
  -- The loop over the lines of a block turns a value into another one.
  abbrev pub Gives : A → Segments → A → Type 0
  Gives a segs r =
      (fuel : ℕ) (s : S)
      → weight segs < fuel
      → Reads d n segs s
      → each body (d.next_block n) fuel a s ≡ parsed r (after d n segs s)

  pub nil-Gives : (a : A) → Gives a nil a
  nil-Gives a zero s enough h = absurd (omega arith)
  nil-Gives a (suc fuel) s enough h = unfold each in rw (h, each)

  -- A line with no block, by what the loop's body makes of it.
  pub leaf-Gives :
      (name : String) (args : List String) (rest : Segments) (a b r : A)
      → ((fuel : ℕ) (t : S)
          → length args < fuel
          → d.val t ≡ name
          → ReadsArgs d args t
          → body fuel a t ≡ parsed b (after_args d args t))
      → Gives b rest r
      → Gives a (line name args nil rest) r
  leaf-Gives name args rest a b r one more zero s enough h = absurd (omega arith)
  leaf-Gives name args rest a b r one more (suc fuel) s enough h =
      unfold each in
      rw (h.0, each)
        (rw (one fuel (d.next_block n s).1 (omega arith) h.1 h.2)
          (more fuel (after_args d args (d.next_block n s).1) (omega arith) h.3))

  -- A line with a block.
  pub block-Gives :
      (name : String) (args : List String) (name' : String) (args' : List String)
      (body' rest' rest : Segments) (a b r : A)
      → ((fuel : ℕ) (t : S)
          → weight (line name' args' body' rest') < fuel
          → d.val t ≡ name
          → ReadsArgs d args t
          → Reads d (suc n) (line name' args' body' rest') (after_args d args t)
          → body fuel a t
            ≡ parsed b (after d (suc n) (line name' args' body' rest') (after_args d args t)))
      → Gives b rest r
      → Gives a (line name args (line name' args' body' rest') rest) r
  block-Gives name args name' args' body' rest' rest a b r one more zero s enough h =
      absurd (omega arith)
  block-Gives name args name' args' body' rest' rest a b r one more (suc fuel) s enough h =
      unfold each in
      rw (h.0, each)
        (rw (one fuel (d.next_block n s).1 (omega arith) h.1 h.2 h.3)
          (more fuel _ (omega arith) h.4))

  -- A line with one value, which the body hands on to `k`.
  pub value_leaf :
      (name v : String) (rest : Segments) (a b r : A) (k : String → S → Parsing S A)
      → ((fuel : ℕ) (t : S) → d.val t ≡ name → body fuel a t ≡ (value d t >>= k))
      → ((u : S) → k v u ≡ parsed b u)
      → Gives b rest r
      → Gives a (line name (v ∷ []) nil rest) r
  value_leaf name v rest a b r k body_is gives =
      leaf-Gives name (v ∷ []) rest a b r (λ fuel t enough at h.
        body_is fuel t at
        ∙ ap (λ m. m >>= k) (value-Reads d v t h)
        ∙ gives (after_args d (v ∷ []) t))
