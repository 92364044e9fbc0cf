-- ===== src/Controller/Timing.antt =====
-- internal/controller/step.go: the escalating waits after crashes, telemetry losses, GPU resets and
-- failed kills.
use native.Mathlib.Nat.{pow-suc}
use benchwarmer.Prelude.{
  ℕ, zero, suc, ◌+◌, ◌-◌, ◌*◌, ◌^◌, ◌≤◌, ◌<◌, ◌≡◌, ap, ◌∙◌, ltb, min, max, arith, if◌then◌else◌,
  Bool-cases, inl, inr,
}
use benchwarmer.Platform.{Platform}
use benchwarmer.Config.{second}
use benchwarmer.Controller.Types.{Controller, set_recovery}

-- `for i := 1; i < n && d < cap; i++ { d *= 2 }`, with the rounds that are left.
unfoldable pub double : ℕ → ℕ → ℕ → ℕ
double zero d cap = d
double (suc rounds) d cap = let rest = double rounds (d * 2) cap in if ltb d cap then rest else d

-- The wait at the `n`th attempt.
unfoldable pub escalate : ℕ → ℕ → ℕ → ℕ
unfolding double
escalate n initial cap = min (double (n - 1) initial cap) cap

abbrev pub zombie_backoff : ℕ → ℕ
zombie_backoff attempts = escalate attempts (10 * second) (300 * second)

unfoldable pub backoff : (P : Platform) → ℕ → Controller P → Controller P
backoff P now c =
    let n = suc c.crash_count in
    set_recovery P now
      (escalate n c.cfg.recovery.crash_backoff_initial c.cfg.recovery.crash_backoff_max)
      "crash backoff" (record c { crash_count = n })

double-lt : (rounds d cap : ℕ) → d < 2 * cap → double rounds d cap < 2 * cap
unfolding double
double-lt zero d cap h = h
double-lt (suc rounds) d cap h = elim (Bool-cases (ltb d cap)) [
  | inl less ↦ rw less (double-lt rounds (d * 2) cap (ground arith))
  | inr more ↦ rw more h
]

pow_shift : (d k : ℕ) → d * 2 * 2 ^ k ≡ d * 2 ^ suc k
pow_shift d k = rw (pow-suc) (grind arith)

le-mul_pow : (d k : ℕ) → d ≤ d * 2 ^ k
le-mul_pow d zero = omega arith
le-mul_pow d (suc k) = omega (arith, le-mul_pow d k, pow_shift d k)

min_above : (a b cap : ℕ) → cap ≤ a → a ≤ b → min a cap ≡ min b cap
min_above a b cap h k = omega arith

min-double : (rounds d cap : ℕ) → min (double rounds d cap) cap ≡ min (d * 2 ^ rounds) cap
unfolding double
min-double zero d cap = omega arith
min-double (suc rounds) d cap = elim (Bool-cases (ltb d cap)) [
  | inl less ↦ rw less (min-double rounds (d * 2) cap ∙ ap (λ t. min t cap) (pow_shift d rounds))
  | inr more ↦
      rw more (min_above d (d * 2 ^ suc rounds) cap (ground arith) (le-mul_pow d (suc rounds)))
]

-- The wait at attempt `n` is the initial wait doubled n - 1 times, or the cap if that is less; no
-- doubling on the way reaches twice the cap, if the initial wait does not.
escalate_lem :
    (n initial cap : ℕ)
    → initial < 2 * cap
    → (escalate n initial cap ≡ min (initial * 2 ^ (n - 1)) cap)
      × (double (n - 1) initial cap < 2 * cap)
unfolding escalate
escalate_lem n initial cap h = (min-double (n - 1) initial cap, double-lt (n - 1) initial cap h)

-- After a crash the recovery ends no sooner than it would have, nor than the initial wait after now,
-- doubled for each earlier crash and capped; it is the later of these two.
backoff_lem :
    (P : Platform) (now : ℕ) (c : Controller P)
    → let c' = backoff P now c in
      let r = c.cfg.recovery in
      (c'.crash_count ≡ suc c.crash_count)
      × (c'.timers.recovery_until
          ≡ max c.timers.recovery_until
              (now + min (r.crash_backoff_initial * 2 ^ c.crash_count) r.crash_backoff_max))
unfolding backoff escalate set_recovery
backoff_lem P now c =
    let r = c.cfg.recovery in
    ground (arith, min-double c.crash_count r.crash_backoff_initial r.crash_backoff_max)
