-- ===== src/Observe/Timers/Stretches.antt =====
-- internal/observe/observe.go: each timer against the stretch of ticks that it is about.
use benchwarmer.Prelude.{
  ℕ, zero, suc, ◌<◌, ◌≡◌, ◌⊎◌, inl, inr, refl, sym, ap, subst, Bool, true, false, [], ◌∷◌, All,
  if◌then◌else◌, arith,
}
use benchwarmer.Platform.{Platform}
use benchwarmer.Policy.Types.{GpuFacts}
use benchwarmer.Observe.State.{Observer, run_since, run_for}
use benchwarmer.Observe.Measure.{Input}
use benchwarmer.Observe.{is_gap, observe}
use benchwarmer.Observe.Timers.{
  Ticks, after, last_time, crit_holds, soft_holds, below_holds, healthy_holds, IsBroken, Stretch,
  begins, goes_on, Measures,
}
use benchwarmer.Observe.Timers.Tick.{Advances, observe-TickLaw}

module _ (P : Platform) where
  -- The start that a timer keeps after these ticks
  abbrev Runs : (Input P → Bool) → Ticks P → ℕ → Type 0
  Runs holds [] s = s ≡ 0
  Runs holds ((now, i) ∷ h) s =
      ((holds i ≡ false) × (s ≡ 0)) ⊎ ((0 < s) × Stretch P holds ((now, i) ∷ h) s)

  stopped-IsBroken :
      (holds : Input P → Bool) (now : ℕ) (i : Input P) (h : Ticks P)
      → Runs holds h 0
      → IsBroken P holds now i h
  stopped-IsBroken holds now i [] r = tt
  stopped-IsBroken holds now i (x ∷ h) (inl (e, _)) = inr e
  stopped-IsBroken holds now i (x ∷ h) (inr (p, _)) = absurd (omega (arith, p))

  gap-IsBroken :
      (holds : Input P → Bool) (now : ℕ) (i : Input P) (h : Ticks P)
      → is_gap P now i (last_time P h) ≡ true
      → IsBroken P holds now i h
  gap-IsBroken holds now i [] e = absurd (ground (arith, e))
  gap-IsBroken holds now i (x ∷ h) e = inl e

  running-Stretch :
      (holds : Input P → Bool) (h : Ticks P) (n : ℕ)
      → Runs holds h (suc n)
      → Stretch P holds h (suc n)
  running-Stretch holds [] n e = absurd (omega (arith, e))
  running-Stretch holds (x ∷ h) n (inl (_, e)) = absurd (omega (arith, e))
  running-Stretch holds (x ∷ h) n (inr (_, r)) = r

  running_on : (now n : ℕ) → suc n ≡ run_since true now (suc n)
  running_on now n = ground arith

  run_since-Runs :
      (holds : Input P → Bool) (now : ℕ) (i : Input P) (h : Ticks P) (b g : Bool)
      → holds i ≡ b
      → is_gap P now i (last_time P h) ≡ g
      → 0 < now
      → (s : ℕ) → Runs holds h s
      → Runs holds ((now, i) ∷ h) (run_since b now (if g then 0 else s))
  run_since-Runs holds now i h false g hb hg p s r = inl (hb, refl)
  run_since-Runs holds now i h true true hb hg p s r =
      inr (p, begins now i h hb (gap-IsBroken holds now i h hg))
  run_since-Runs holds now i h true false hb hg p zero r =
      inr (p, begins now i h hb (stopped-IsBroken holds now i h r))
  run_since-Runs holds now i h true false hb hg p (suc n) r =
      subst (Runs holds ((now, i) ∷ h)) (running_on now n)
        (inr (ground arith, goes_on now i h (suc n) hb hg (running-Stretch holds h n r)))

  run_for-Measures :
      (holds : Input P → Bool) (now : ℕ) (i : Input P) (h : Ticks P) (b : Bool) (s : ℕ)
      → holds i ≡ b
      → Runs holds ((now, i) ∷ h) (run_since b now s)
      → Measures P holds now i h (run_for b now s)
  run_for-Measures holds now i h false s hb r = inl (hb, refl)
  run_for-Measures holds now i h true s hb (inl (e, _)) = absurd (ground (arith, e, hb))
  run_for-Measures holds now i h true s hb (inr (_, r)) = inr (run_since true now s, r, refl)

  -- The four starts that an observer keeps
  abbrev KeepsRuns : Ticks P → Observer → Type 0
  KeepsRuns h o =
      (o.last_tick ≡ last_time P h)
      × Runs (crit_holds P) h o.above_crit_since
      × Runs (soft_holds P) h o.above_soft_since
      × Runs (below_holds P) h o.below_soft_since
      × Runs (healthy_holds P) h o.healthy_since

  after_tick :
      (holds : Input P → Bool) (now : ℕ) (i : Input P) (h : Ticks P) (last s s' d : ℕ)
      → 0 < now
      → last ≡ last_time P h
      → Runs holds h s
      → Advances P (holds i) now (if is_gap P now i last then 0 else s) s' d
      → Runs holds ((now, i) ∷ h) s' × Measures P holds now i h d
  after_tick holds now i h last s s' d p e r (es, ed) =
      let start = if is_gap P now i last then 0 else s in
      let runs =
        run_since-Runs holds now i h (holds i) (is_gap P now i last) refl
          (ap (λ t. is_gap P now i t) (sym e)) p s r in
      (
        subst (Runs holds ((now, i) ∷ h)) (sym es) runs,
        subst (Measures P holds now i h) (sym ed)
            (run_for-Measures holds now i h (holds i) start refl runs),
      )

  -- What the four timers of these facts measure
  abbrev pub MeasuresAll : ℕ → Input P → Ticks P → GpuFacts P → Type 0
  MeasuresAll now i h f =
      Measures P (crit_holds P) now i h f.above_critical_for
      × Measures P (soft_holds P) now i h f.above_soft_for
      × Measures P (below_holds P) now i h f.below_soft_for
      × Measures P (healthy_holds P) now i h f.healthy_for

  tick_step :
      (now : ℕ) (i : Input P) (h : Ticks P)
      → 0 < now
      → KeepsRuns h (after P h)
      → KeepsRuns ((now, i) ∷ h) (after P ((now, i) ∷ h))
        × MeasuresAll now i h (observe P now i (after P h)).1.0
  unfolding after
  tick_step now i h p (e, crit, soft, below, healthy) =
      let o = after P h in
      let r = observe P now i o in
      let f = r.1.0 in
      let (t, crit2, soft2, below2, healthy2) = observe-TickLaw P now i o in
      let (c1, c2) =
        after_tick (crit_holds P) now i h o.last_tick o.above_crit_since r.0.above_crit_since
          f.above_critical_for p e crit crit2 in
      let (s1, s2) =
        after_tick (soft_holds P) now i h o.last_tick o.above_soft_since r.0.above_soft_since
          f.above_soft_for p e soft soft2 in
      let (b1, b2) =
        after_tick (below_holds P) now i h o.last_tick o.below_soft_since r.0.below_soft_since
          f.below_soft_for p e below below2 in
      let (h1, h2) =
        after_tick (healthy_holds P) now i h o.last_tick o.healthy_since r.0.healthy_since
          f.healthy_for p e healthy healthy2 in
      ((t, c1, s1, b1, h1), (c2, s2, b2, h2))

  after-KeepsRuns : (h : Ticks P) → All (λ x. 0 < x.0) h → KeepsRuns h (after P h)
  unfolding after
  after-KeepsRuns [] a = (refl, refl, refl, refl, refl)
  after-KeepsRuns ((now, i) ∷ h) a = (tick_step now i h a.0 (after-KeepsRuns h a.1)).0

  -- At every tick, whatever ticks came before it (none of them at the zero time), the time for which the
  -- facts say that external use has been above the critical level, above the soft level and below it,
  -- and that the telemetry has been healthy, is 0 where the condition fails at this tick, and else the
  -- time since the tick that began the stretch: the first of the ticks in a row at which the condition
  -- holds, with no gap (a longer one than `longest_gap`, or a clock that went back) between two of them.
  pub observe-MeasuresAll :
      (now : ℕ) (i : Input P) (h : Ticks P)
      → 0 < now
      → All (λ x. 0 < x.0) h
      → MeasuresAll now i h (observe P now i (after P h)).1.0
  observe-MeasuresAll now i h p a = (tick_step now i h p (after-KeepsRuns h a)).1
