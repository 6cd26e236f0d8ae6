-- ===== src/Registry/Shared.antt =====
-- metrics.go: the global metrics are kept as long as there are references, and shared meanwhile.
use caddy_blockchain_health.Common.{
  ℕ, suc, ◌-◌, ◌<◌, ◌≡◌, refl, arith, true, false, ◌⊎◌, inl, inr, List, [], ◌∷◌, Option, none, some,
  if◌then◌else◌, ◌==◌, Bool-cases, Option-cases, ap, ◌∙◌, sym, subst,
}
use caddy_blockchain_health.Types.Protocol.{Reply, ok, err}
use caddy_blockchain_health.Registry.{
  Collector, Prometheus, Globals, no_globals, default_of, current, adopt, register_with,
  new_collectors, acquire_global_metrics, release_global_metrics,
}

module _ {Reg World : Type 0} (prometheus : Prometheus Reg World) where
  -- There are metrics, with the registerer they were registered with, just while there are
  -- references.
  abbrev pub IsSound : Globals Reg → Type 0
  IsSound g =
      ((g.refs ≡ 0) × (g.metrics ≡ none) × (g.registerer ≡ none))
      ⊎ ((0 < g.refs)
          × ((m : List Collector) × (g.metrics ≡ some m))
          × ((r : Reg) × (g.registerer ≡ some r)))

  adopt-IsSound :
      (reg : Reg) (g : Globals Reg) (made : Reply (List Collector) × World)
      → IsSound g
      → IsSound (adopt prometheus reg g made).1.0
  adopt-IsSound reg g (err e, w) h = h
  adopt-IsSound reg g (ok m, w) h = inr (omega arith, (m, refl), (reg, refl))

  -- What `acquireGlobalMetrics` does, by whether there are metrics for the registerer.
  acquire-cases :
      (given : Option Reg) (g : Globals Reg) (w : World)
      → ((m : List Collector) × (current prometheus
              (default_of prometheus given)
              g.metrics
              g.registerer
            ≡ some m)
          × (acquire_global_metrics prometheus given g w
              ≡ (ok m, (record g { refs = suc g.refs }, w))))
        ⊎ (acquire_global_metrics prometheus given g w
            ≡ adopt prometheus
                (default_of prometheus given)
                g
                (register_with prometheus (default_of prometheus given) (new_collectors g.count) w))
  unfolding acquire_global_metrics
  acquire-cases given g w =
      elim (Option-cases
        (current prometheus (default_of prometheus given) g.metrics g.registerer)) [
          | inl missing ↦ inr (rw (missing, acquire_global_metrics) refl)
          | inr found ↦ inl (found.0, found.1, rw (found.1, acquire_global_metrics) refl)
        ]

  sound_current :
      (reg : Reg) (g : Globals Reg) (m : List Collector)
      → IsSound g
      → current prometheus reg g.metrics g.registerer ≡ some m
      → (g.metrics ≡ some m) × ((r : Reg) × (g.registerer ≡ some r)) × (0 < g.refs)
  sound_current reg g m (inl h) found =
      absurd (absent (ap (λ o. current prometheus reg o g.registerer) (sym h.1) ∙ found))
    where
      absent : none ≡ some m → ⊥
      absent e = cc e
  sound_current reg g m (inr h) found = (
    h.1.1
        ∙ same h.1.0 h.2.0 (
            ap (λ o. current prometheus reg o (some h.2.0)) (sym h.1.1)
            ∙ ap (λ o. current prometheus reg g.metrics o) (sym h.2.1)
            ∙ found),
    h.2,
    h.0,
  )
    where
      same :
          (n : List Collector) (r : Reg)
          → current prometheus reg (some n) (some r) ≡ some m
          → some n ≡ some m
      same n r e = elim (Bool-cases (prometheus.same r reg)) [
        | inl reg_same ↦ subst (λ b. (if b then some n else none) ≡ some m) reg_same e
        | inr reg_other ↦
            absurd (cc (subst (λ b. (if b then some n else none) ≡ some m) reg_other e))
      ]

  acquire-IsSound :
      (given : Option Reg) (g : Globals Reg) (w : World)
      → IsSound g
      → IsSound (acquire_global_metrics prometheus given g w).1.0
  acquire-IsSound given g w h = elim (acquire-cases given g w) [
    | inl shared ↦
        let s = sound_current (default_of prometheus given) g shared.0 h shared.1 in
        subst (λ o. IsSound o.1.0) (sym shared.2) (inr (omega arith, (shared.0, s.0), s.1))
    | inr made ↦
        subst (λ o. IsSound o.1.0) (sym made)
          (adopt-IsSound (default_of prometheus given) g
            (register_with prometheus (default_of prometheus given) (new_collectors g.count) w) h)
  ]

  release-IsSound : (g : Globals Reg) → IsSound g → IsSound (release_global_metrics g)
  unfolding release_global_metrics
  release-IsSound g h = elim (Bool-cases (g.refs - 1 == 0)) [
    | inl last ↦ rw last (inl (refl, refl, refl))
    | inr more ↦ rw more (still h more)
  ]
    where
      still : IsSound g → (g.refs - 1 == 0) ≡ false → IsSound (record g { refs = g.refs - 1 })
      still (inl s) n = absurd (grind (arith, s.0, n))
      still (inr s) n = inr (ground (arith, n), s.1, s.2)

-- What happens to the global metrics in a process.
pub data Call (Reg : Type 0) : Type 0 where
  acquire : Option Reg → Call Reg
  release : Call Reg

module _ {Reg World : Type 0} (prometheus : Prometheus Reg World) where
  abbrev pub run : List (Call Reg) → Globals Reg × World → Globals Reg × World
  run [] s = s
  run (acquire given ∷ calls) s = run calls (acquire_global_metrics prometheus given s.0 s.1).1
  run (release ∷ calls) s = run calls (release_global_metrics s.0, s.1)

  from-IsSound :
      (calls : List (Call Reg)) (s : Globals Reg × World)
      → IsSound prometheus s.0
      → IsSound prometheus (run calls s).0
  from-IsSound [] s h = h
  from-IsSound (acquire given ∷ calls) s h =
      from-IsSound calls (acquire_global_metrics prometheus given s.0 s.1).1
        (acquire-IsSound prometheus given s.0 s.1 h)
  from-IsSound (release ∷ calls) s h =
      from-IsSound calls (release_global_metrics s.0, s.1) (release-IsSound prometheus s.0 h)

  -- After any calls of `acquireGlobalMetrics` and `releaseGlobalMetrics` since the process began,
  -- failed registrations included, either there are references, global metrics and their
  -- registerer, or there is none of the three.
  pub run-IsSound :
      (calls : List (Call Reg)) (w : World) → IsSound prometheus (run calls (no_globals, w)).0
  run-IsSound calls w = from-IsSound calls (no_globals, w) (inl (refl, refl, refl))

  abbrev value_of : Reply (List Collector) → List Collector
  value_of (ok m) = m
  value_of (err e) = []

  -- The metrics are those that a call with this registerer finds.
  abbrev Finds : Option Reg → List Collector → Globals Reg → Type 0
  Finds given m g = current prometheus (default_of prometheus given) g.metrics g.registerer ≡ some m

  adopt-Finds :
      (given : Option Reg) (g g' : Globals Reg) (w : World) (m : List Collector)
      (made : Reply (List Collector) × World)
      → prometheus.same (default_of prometheus given) (default_of prometheus given) ≡ true
      → adopt prometheus (default_of prometheus given) g made ≡ (ok m, (g', w))
      → Finds given m g'
  adopt-Finds given g g' w m (err e, v) reflexive h = absurd (cc (ap (λ x. x.0) h))
  adopt-Finds given g g' w m (ok n, v) reflexive h =
      let reg = default_of prometheus given in
      subst (λ d. Finds given m d) (ap (λ x. x.1.0) h)
        (ap (λ b. if b then some n else none) reflexive ∙ ap (λ x. some (value_of x.0)) h)

  -- A registerer equal to itself: after a successful `acquireGlobalMetrics`, a further call with
  -- the same registerer succeeds in any state of the registries, with the same metrics; it
  -- registers nothing and adds one reference.
  pub acquire_global_metrics_again :
      (given : Option Reg) (g g' : Globals Reg) (w w' v : World) (m : List Collector)
      → prometheus.same (default_of prometheus given) (default_of prometheus given) ≡ true
      → acquire_global_metrics prometheus given g w ≡ (ok m, (g', w'))
      → acquire_global_metrics prometheus given g' v ≡ (ok m, (record g' { refs = suc g'.refs }, v))
  unfolding acquire_global_metrics
  acquire_global_metrics_again given g g' w w' v m reflexive h =
      rw (finds, acquire_global_metrics) refl
    where
      finds : Finds given m g'
      finds = elim (acquire-cases prometheus given g w) [
        | inr made ↦
            adopt-Finds given g g' w' m
              (register_with prometheus (default_of prometheus given) (new_collectors g.count) w)
              reflexive (sym made ∙ h)
        | inl shared ↦
            let e = sym shared.2 ∙ h in
            subst (λ d. Finds given m d) (ap (λ x. x.1.0) e)
              (shared.1 ∙ ap (λ x. some (value_of x.0)) e)
      ]

  -- The references after a call, by how it ended.
  abbrev pub refs_after : Reply (List Collector) → ℕ → ℕ
  refs_after (ok m) n = suc n
  refs_after (err e) n = n

  adopt-refs :
      (reg : Reg) (g : Globals Reg) (made : Reply (List Collector) × World)
      → (adopt prometheus reg g made).1.0.refs ≡ refs_after (adopt prometheus reg g made).0 g.refs
  adopt-refs reg g (err e, w) = refl
  adopt-refs reg g (ok m, w) = refl

  pub acquire-refs :
      (given : Option Reg) (g : Globals Reg) (w : World)
      → (acquire_global_metrics prometheus given g w).1.0.refs
        ≡ refs_after (acquire_global_metrics prometheus given g w).0 g.refs
  acquire-refs given g w = elim (acquire-cases prometheus given g w) [
    | inl shared ↦ subst (λ r. r.1.0.refs ≡ refs_after r.0 g.refs) (sym shared.2) refl
    | inr made ↦
        let reg = default_of prometheus given in
        subst (λ r. r.1.0.refs ≡ refs_after r.0 g.refs) (sym made)
          (adopt-refs reg g (register_with prometheus reg (new_collectors g.count) w))
  ]

pub release-refs : {Reg : Type 0} (g : Globals Reg) → (release_global_metrics g).refs ≡ g.refs - 1
unfolding release_global_metrics
release-refs g = ground arith
