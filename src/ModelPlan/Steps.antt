-- ===== src/ModelPlan/Steps.antt =====
-- internal/modelplan/modelplan.go: the number of tokens that fit into the room.
use native.Mathlib.Nat.{le-div_iff_mul-le, div-lt_iff_lt-mul}
use benchwarmer.Prelude.{ℕ, ◌+◌, ◌*◌, ◌/◌, ◌^◌, ◌≤◌, ◌<◌, min, leb, ◌⊎◌, inl, inr, if-cases, arith}
use benchwarmer.ModelPlan.{mib, context_step, round_down, kv_mib, fit_tokens}

pub kv_mib-fits : (kv room tokens : ℕ) → 0 < kv → tokens ≤ room * mib / kv → kv_mib kv tokens ≤ room
kv_mib-fits kv room tokens pos h =
    omega (arith, (le-div_iff_mul-le {k = kv} {x = tokens} {y = room * mib} pos).0 h)

kv_mib-exceeds : (kv room tokens : ℕ) → 0 < kv → room * mib / kv < tokens → room < kv_mib kv tokens
kv_mib-exceeds kv room tokens pos h =
    omega (arith, (div-lt_iff_lt-mul {k = kv} {x = room * mib} {y = tokens} pos).0 h)

-- What the fitting number of tokens is: whole steps below the limit that fit, and one more step is
-- beyond the limit or does not fit.
abbrev pub IsFitting : ℕ → ℕ → ℕ → ℕ → Type 0
IsFitting room kv limit fit =
    (fit ≤ limit)
    × (fit ≤ room * mib / kv)
    × ((limit < fit + context_step) ⊎ (room < kv_mib kv (fit + context_step)))

steps_below :
    (q limit : ℕ)
    → let f = round_down (min q limit) context_step in
      (f ≤ limit) × (f ≤ q) × ((limit < f + context_step) ⊎ (q < f + context_step))
steps_below q limit = ground arith

pub fit_tokens-IsFitting :
    (room kv limit : ℕ)
    → 0 < kv
    → context_step ≤ fit_tokens room kv limit
    → IsFitting room kv limit (fit_tokens room kv limit)
unfolding fit_tokens
fit_tokens-IsFitting room kv limit pos h =
    let q = room * mib / kv in
    let f = round_down (min q limit) context_step in
    let (a, b, c) = steps_below q limit in
    if-cases (λ n. context_step ≤ n → IsFitting room kv limit n) (leb (2 ^ 63) kv)
      (λ _ low. absurd (omega arith))
      (λ _ _. (
        a,
        b,
        elim c [ inl l ↦ inl l | inr m ↦ inr (kv_mib-exceeds kv room (f + context_step) pos m) ],
      ))
      h
