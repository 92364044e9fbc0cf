-- ===== src/Observe/Memory.antt =====
-- internal/observe/observe.go: where the memory that a sample shows in use is counted.
use benchwarmer.Prelude.{
  ℕ, ◌+◌, ◌-◌, ◌/◌, ◌≤◌, min, max, ltb, Bool, true, false, not, List, [], ◌∷◌, if◌then◌else◌, arith,
}
use benchwarmer.Platform.{Platform}
use benchwarmer.Policy.Types.{Confidence, high, degraded, GpuFacts}
use benchwarmer.Telemetry.{Sample, ProcGpu, Demand, is_own, split, sum_bytes, external_bytes}
use benchwarmer.Observe.State.{is_high}
use benchwarmer.Observe.Measure.{mib, Input, is_nil, measured_external, own_vram, measure}

module _ (P : Platform) where
  mib_le : (a b : ℕ) → a ≤ b → a / mib ≤ b / mib
  mib_le a b h = omega (arith, h)

  mib_sub : (u o e : ℕ) → u - o ≤ e → u / mib ≤ o / mib + e / mib + 1
  mib_sub u o e h = omega (arith, h)

  external_bytes-covers :
      (s : Sample P) (ps : List (ProcGpu P)) (o e : ℕ)
      → s.dedicated_used_bytes - o ≤ external_bytes P s ps o e
  external_bytes-covers s [] o e = ground arith
  external_bytes-covers s (p ∷ ps) o e = ground arith

  min_le : (b : Bool) (x y z : ℕ) → y ≤ z → (if b then 0 else min x y) ≤ z
  min_le b x y z h = ground (arith, h)

  grow : (e x : ℕ) (b : Bool) → e ≤ (if b then max e x else e)
  grow e x b = ground arith

  own_vram_le :
      (i : Input P) (own : List ℕ) (s : Sample P) (d : Demand P)
      → own_vram P i own s d ≤ s.dedicated_used_bytes / mib
  own_vram_le i own s d = min_le (is_nil own) _ _ _ (omega arith)

  external_bytes-has :
      (s : Sample P) (ps : List (ProcGpu P)) (test : ℕ → Bool) (o : ℕ)
      → sum_bytes P test ps ≤ external_bytes P s ps o (sum_bytes P test ps)
  unfolding sum_bytes
  external_bytes-has s [] test o = ground arith
  external_bytes-has s (p ∷ ps) test o =
      grow (sum_bytes P test (p ∷ ps)) _ (ltb o s.dedicated_used_bytes)

  -- Where the memory in use is counted: measured figures are rounded down one by one.
  abbrev pub Counted : Bool → Sample P → GpuFacts P → Type 0
  Counted true s f = s.dedicated_used_bytes / mib ≤ f.own_vram_mib + f.external_vram_mib + 1
  Counted false s f =
      (f.own_vram_mib ≤ s.dedicated_used_bytes / mib)
      × (s.dedicated_used_bytes / mib ≤ f.own_vram_mib + f.external_vram_mib)

  inferred :
      (own_mib used ext : ℕ)
      → own_mib ≤ used
      → (ext ≤ max (used - own_mib) ext)
        × ((own_mib ≤ used) × (used ≤ own_mib + max (used - own_mib) ext))
  inferred own_mib used ext h = (omega arith, (h, omega (arith, h)))

  -- Whatever the confidence, what the sample attributes to other processes is in the external memory, and
  -- no memory in use is lost between the runtime and the others: own and external together reach the
  -- adapter's figure, up to the rounding where both are measured, and where they are inferred the runtime is
  -- given no more than that figure, whatever footprint it is taken to have.
  pub measure-Counted :
      (i : Input P) (own : List ℕ) (s : Sample P) (c : Confidence)
      → let f = measure P i own s c in
        (measured_external P own s ≤ f.external_vram_mib) × Counted (is_high c) s f
  unfolding measure split
  measure-Counted i own s high = (
    mib_le _ _ (
        external_bytes-has s s.processes (λ pid. not (is_own P own pid))
          (sum_bytes P (is_own P own) s.processes)),
    mib_sub _ _ _ (external_bytes-covers s s.processes (sum_bytes P (is_own P own) s.processes) _),
  )
  measure-Counted i own s degraded =
      inferred _ _ (measured_external P own s) (own_vram_le i own s (split P s own))
  measure-Counted i own s Confidence.none =
      inferred _ _ (measured_external P own s) (own_vram_le i own s (split P s own))
  measure-Counted i own s Confidence.unset =
      inferred _ _ (measured_external P own s) (own_vram_le i own s (split P s own))
