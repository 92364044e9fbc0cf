-- ===== src/Observe/Timers.antt =====
-- internal/observe/observe.go: what the timers measure, over all ticks.
pub mod Tick
pub mod Stretches
use benchwarmer.Prelude.{
  ℕ, ◌-◌, ◌<◌, ◌≡◌, ◌⊎◌, ◌∙◌, ◌==◌, Bool, true, false, not, ◌&&◌, List, [], ◌∷◌, Option, none, some,
  if◌then◌else◌,
}
use benchwarmer.Platform.{Platform}
use benchwarmer.Policy.Types.{Confidence, GpuFacts}
use benchwarmer.Telemetry.{Sample}
use benchwarmer.Observe.State.{Observer, new_observer, is_none}
use benchwarmer.Observe.Measure.{Input, own_of, confidence, measure}
use benchwarmer.Observe.{above_crit, above_soft, is_gap, observe}

module _ (P : Platform) where
  -- The latest tick stands first.
  abbrev pub Ticks : Type 0
  Ticks = List (ℕ × Input P)

  unfoldable pub after : Ticks → Observer
  after [] = new_observer
  after ((now, i) ∷ h) = (observe P now i (after h)).0

  abbrev pub last_time : Ticks → ℕ
  last_time [] = 0
  last_time ((now, i) ∷ h) = now

  -- Whether a tick counts, with this confidence, and passes the test on its facts
  abbrev pub passes_at :
      (Input P → GpuFacts P → Bool) → Input P → Option (Sample P) → Confidence → Bool
  passes_at test i none c = false
  passes_at test i (some s) c = not (is_none c) && test i (measure P i (own_of P i) s c)

  abbrev pub crit_test : Input P → GpuFacts P → Bool
  crit_test i g = g.external_util_trusted && above_crit P i g

  abbrev pub soft_test : Input P → GpuFacts P → Bool
  soft_test i g = g.external_util_trusted && above_soft P i g

  abbrev pub below_test : Input P → GpuFacts P → Bool
  below_test i g = g.external_util_trusted && not (above_soft P i g)

  abbrev pub confidence_of : Input P → Confidence
  confidence_of i = confidence P i (own_of P i) i.sample

  abbrev pub crit_holds : Input P → Bool
  crit_holds i = passes_at crit_test i i.sample (confidence_of i)

  abbrev pub soft_holds : Input P → Bool
  soft_holds i = passes_at soft_test i i.sample (confidence_of i)

  abbrev pub below_holds : Input P → Bool
  below_holds i = passes_at below_test i i.sample (confidence_of i)

  abbrev pub healthy_holds : Input P → Bool
  healthy_holds i = not (is_none (confidence_of i))

  -- What came before does not go on in this tick.
  abbrev pub IsBroken : (Input P → Bool) → ℕ → Input P → Ticks → Type 0
  IsBroken holds now i [] = Unit
  IsBroken holds now i ((t, j) ∷ h) = (is_gap P now i t ≡ true) ⊎ (holds j ≡ false)

  -- The condition has held without a break since the tick at this time, and not before it.
  pub data Stretch (holds : Input P → Bool) : Ticks → ℕ → Type 0 where
    begins :
        (now : ℕ) (i : Input P) (h : Ticks)
        → holds i ≡ true
        → IsBroken holds now i h
        → Stretch holds ((now, i) ∷ h) now
    goes_on :
        (now : ℕ) (i : Input P) (h : Ticks) (s : ℕ)
        → holds i ≡ true
        → is_gap P now i (last_time h) ≡ false
        → Stretch holds h s
        → Stretch holds ((now, i) ∷ h) s

  -- The number is the time for which the condition has held.
  abbrev pub Measures : (Input P → Bool) → ℕ → Input P → Ticks → ℕ → Type 0
  Measures holds now i h d =
      ((holds i ≡ false) × (d ≡ 0)) ⊎ ((s : ℕ) × Stretch holds ((now, i) ∷ h) s × (d ≡ now - s))
