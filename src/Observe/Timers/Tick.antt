-- ===== src/Observe/Timers/Tick.antt =====
-- internal/observe/observe.go: one tick, as it moves the start of each stretch on.
use benchwarmer.Prelude.{
  ℕ, ◌≡◌, refl, subst, ◌∙◌, Bool, true, false, not, List, Option, none, some, if◌then◌else◌, arith,
}
use benchwarmer.Platform.{Platform}
use benchwarmer.Policy.Types.{Confidence}
use benchwarmer.Telemetry.{Sample}
use benchwarmer.Observe.State.{Observer, reset_windows, run_since, run_for, is_none}
use benchwarmer.Observe.Measure.{Input, own_of, confidence}
use benchwarmer.Observe.{hysteresis, track_confidence, graded, gpu, is_gap, after_gap, observe}
use benchwarmer.Observe.Timers.{
  passes_at, crit_test, soft_test, below_test, confidence_of, crit_holds, soft_holds, below_holds,
  healthy_holds,
}

module _ (P : Platform) where
  -- One tick, from the test at the tick: the new start of a stretch and its length
  abbrev pub Advances : Bool → ℕ → ℕ → ℕ → ℕ → Type 0
  Advances cond now since since' d =
      (since' ≡ run_since cond now since) × (d ≡ run_for cond now since)

  abbrev GradedLaw : ℕ → Input P → Option (Sample P) → Confidence → Observer → Type 0
  GradedLaw now i x c o =
      let r = graded P now i (own_of P i) x c o in
      (r.0.last_tick ≡ o.last_tick)
      × Advances (passes_at P (crit_test P) i x c) now o.above_crit_since r.0.above_crit_since
          r.1.above_critical_for
      × Advances (passes_at P (soft_test P) i x c) now o.above_soft_since r.0.above_soft_since
          r.1.above_soft_for
      × Advances (passes_at P (below_test P) i x c) now o.below_soft_since r.0.below_soft_since
          r.1.below_soft_for
      × (r.0.healthy_since ≡ o.healthy_since)

  graded_law :
      (now : ℕ) (i : Input P) (x : Option (Sample P)) (c : Confidence) (o : Observer)
      → GradedLaw now i x c o
  unfolding reset_windows hysteresis
  graded_law now i none c o = (refl, (refl, refl), (refl, refl), (refl, refl), refl)
  graded_law now i (some s) Confidence.none o =
      (refl, (refl, refl), (refl, refl), (refl, refl), refl)
  graded_law now i (some s) Confidence.high o =
      (refl, (refl, refl), (refl, refl), (refl, refl), refl)
  graded_law now i (some s) Confidence.degraded o =
      (refl, (refl, refl), (refl, refl), (refl, refl), refl)
  graded_law now i (some s) Confidence.unset o =
      (refl, (refl, refl), (refl, refl), (refl, refl), refl)

  abbrev HealthyLaw : ℕ → Input P → Option (Sample P) → Confidence → Observer → Type 0
  HealthyLaw now i x c o =
      let r = graded P now i (own_of P i) x c (track_confidence P now c o) in
      Advances (not (is_none c)) now o.healthy_since r.0.healthy_since r.1.healthy_for

  abbrev lacks_sample : Option (Sample P) → Bool
  lacks_sample none = true
  lacks_sample (some s) = false

  healthy_law :
      (now : ℕ) (i : Input P) (x : Option (Sample P)) (c : Confidence) (o : Observer)
      → (lacks_sample x ≡ true → is_none c ≡ true)
      → HealthyLaw now i x c o
  unfolding reset_windows hysteresis track_confidence
  healthy_law now i none Confidence.none o h = (refl, refl)
  healthy_law now i none Confidence.high o h = absurd (ground (arith, h refl))
  healthy_law now i none Confidence.degraded o h = absurd (ground (arith, h refl))
  healthy_law now i none Confidence.unset o h = absurd (ground (arith, h refl))
  healthy_law now i (some s) Confidence.none o h = (refl, refl)
  healthy_law now i (some s) Confidence.high o h = (refl, refl)
  healthy_law now i (some s) Confidence.degraded o h = (refl, refl)
  healthy_law now i (some s) Confidence.unset o h = (refl, refl)

  confidence_lacks :
      (i : Input P) (own : List ℕ) (x : Option (Sample P))
      → lacks_sample x ≡ true
      → is_none (confidence P i own x) ≡ true
  unfolding confidence
  confidence_lacks i own none h = refl
  confidence_lacks i own (some s) h = absurd (ground arith)

  -- `track_confidence` leaves the rest alone.
  track_rest :
      (now : ℕ) (c : Confidence) (o : Observer)
      → let o2 = track_confidence P now c o in
        (o2.last_tick ≡ o.last_tick)
        × (o2.above_crit_since ≡ o.above_crit_since)
        × (o2.above_soft_since ≡ o.above_soft_since)
        × (o2.below_soft_since ≡ o.below_soft_since)
  unfolding track_confidence
  track_rest now Confidence.none o = (refl, refl, refl, refl)
  track_rest now Confidence.high o = (refl, refl, refl, refl)
  track_rest now Confidence.degraded o = (refl, refl, refl, refl)
  track_rest now Confidence.unset o = (refl, refl, refl, refl)

  -- The starts of the stretches, after a gap
  abbrev pub unless_gap : ℕ → Input P → Observer → ℕ → ℕ
  unless_gap now i o since = if is_gap P now i o.last_tick then 0 else since

  gap_fields :
      (now : ℕ) (o : Observer) (b : Bool)
      → let o2 = record (if b then record (reset_windows o) { healthy_since = 0 } else o) {
        last_tick = now;
      } in
        (o2.last_tick ≡ now)
        × (o2.above_crit_since ≡ (if b then 0 else o.above_crit_since))
        × (o2.above_soft_since ≡ (if b then 0 else o.above_soft_since))
        × (o2.below_soft_since ≡ (if b then 0 else o.below_soft_since))
        × (o2.healthy_since ≡ (if b then 0 else o.healthy_since))
  unfolding reset_windows
  gap_fields now o true = (refl, refl, refl, refl, refl)
  gap_fields now o false = (refl, refl, refl, refl, refl)

  gap_rest :
      (now : ℕ) (i : Input P) (o : Observer)
      → let o2 = after_gap P now i o in
        (o2.last_tick ≡ now)
        × (o2.above_crit_since ≡ unless_gap now i o o.above_crit_since)
        × (o2.above_soft_since ≡ unless_gap now i o o.above_soft_since)
        × (o2.below_soft_since ≡ unless_gap now i o o.below_soft_since)
        × (o2.healthy_since ≡ unless_gap now i o o.healthy_since)
  unfolding after_gap reset_windows
  gap_rest now i o = gap_fields now o (is_gap P now i o.last_tick)

  Advances-from :
      (b : Bool) (now : ℕ) {s t a d : ℕ} → s ≡ t → Advances b now s a d → Advances b now t a d
  Advances-from b now {s} {t} {a} {d} e h = subst (λ x. Advances b now x a d) e h

  -- One tick: where each stretch starts, and how long it is by now
  abbrev pub TickLaw : ℕ → Input P → Observer → Type 0
  TickLaw now i o =
      let r = observe P now i o in
      let f = r.1.0 in
      (r.0.last_tick ≡ now)
      × Advances (crit_holds P i) now (unless_gap now i o o.above_crit_since) r.0.above_crit_since
          f.above_critical_for
      × Advances (soft_holds P i) now (unless_gap now i o o.above_soft_since) r.0.above_soft_since
          f.above_soft_for
      × Advances (below_holds P i) now (unless_gap now i o o.below_soft_since) r.0.below_soft_since
          f.below_soft_for
      × Advances (healthy_holds P i) now (unless_gap now i o o.healthy_since) r.0.healthy_since
          f.healthy_for

  pub observe-TickLaw : (now : ℕ) (i : Input P) (o : Observer) → TickLaw now i o
  unfolding observe gpu
  observe-TickLaw now i o =
      let c = confidence_of P i in
      let o1 = after_gap P now i o in
      let (t, crit, soft, below, _) = graded_law now i i.sample c (track_confidence P now c o1) in
      let (t1, crit1, soft1, below1) = track_rest now c o1 in
      let (t2, crit2, soft2, below2, healthy2) = gap_rest now i o in
      let healthy = healthy_law now i i.sample c o1 (confidence_lacks i (own_of P i) i.sample) in
      (
        t ∙ t1 ∙ t2,
        Advances-from (crit_holds P i) now (crit1 ∙ crit2) crit,
        Advances-from (soft_holds P i) now (soft1 ∙ soft2) soft,
        Advances-from (below_holds P i) now (below1 ∙ below2) below,
        Advances-from (healthy_holds P i) now healthy2 healthy,
      )
