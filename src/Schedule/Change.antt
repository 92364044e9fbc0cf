-- ===== src/Schedule/Change.antt =====
-- internal/schedule/schedule.go, NextChange: the search finds the first whole minute at which another
-- profile, or the same for another reason, comes into force, within eight days.
use text.Mathlib.TextPositions.{eq_refl}
use native.Mathlib.Nat.{add-zero}
use benchwarmer.Prelude.{
  ℕ, zero, suc, ◌+◌, ◌-◌, ◌*◌, ◌/◌, ◌%◌, ◌<◌, ◌≡◌, refl, subst, ltb, Bool, true, false, List, [],
  ◌∷◌, any, Option, none, some, String, arith, Bool-cases, inl, inr,
}
use benchwarmer.Platform.{Platform, LocalTime}
use benchwarmer.Config.{Schedule, Config, minute_ns}
use benchwarmer.Schedule.{
  Source, default, ai_priority, schedule, first_match, active_in, differs, scan_minutes,
  horizon_rounds, next_change,
}

differs_self : (P : Platform) (a : String) (s : Source) → differs P (a, s) (a, s) ≡ false
differs_self P a default = rw (eq_refl a)
differs_self P a ai_priority = rw (eq_refl a)
differs_self P a (schedule n) = rw (eq_refl a) (rw (eq_refl n))

round_shift : (t j : ℕ) → t + minute_ns + j * minute_ns ≡ t + suc j * minute_ns
round_shift t j = omega arith

module _ (P : Platform) (c : Config P) (zone : ℕ → LocalTime) where
  -- Another profile or source is in force at `v` than at `now`.
  abbrev changed : ℕ → ℕ → Bool
  changed now v = differs P (active_in P c v zone) (active_in P c now zone)

  abbrev Unchanged : String × Source → ℕ → ℕ → Type 0
  Unchanged cur t k =
      (j : ℕ) → j < k → differs P (active_in P c (t + j * minute_ns) zone) cur ≡ false

  abbrev Found : String × Source → ℕ → ℕ → ℕ → Option ℕ → Type 0
  Found cur rounds end t none =
      (j : ℕ)
      → j < rounds
      → t + j * minute_ns < end
      → differs P (active_in P c (t + j * minute_ns) zone) cur ≡ false
  Found cur rounds end t (some u) =
      (k : ℕ) × (u ≡ t + k * minute_ns)
      × (u < end)
      × (differs P (active_in P c u zone) cur ≡ true)
      × Unchanged cur t k

  later_round :
      (cur : String × Source) (t j : ℕ) {b : Bool}
      → differs P (active_in P c (t + minute_ns + j * minute_ns) zone) cur ≡ b
      → differs P (active_in P c (t + suc j * minute_ns) zone) cur ≡ b
  later_round cur t j {b} h =
      subst (λ v. differs P (active_in P c v zone) cur ≡ b) (round_shift t j) h

  Unchanged-suc :
      (cur : String × Source) (t k : ℕ)
      → differs P (active_in P c t zone) cur ≡ false
      → Unchanged cur (t + minute_ns) k
      → Unchanged cur t (suc k)
  Unchanged-suc cur t k now h zero lt = rw (add-zero t) now
  Unchanged-suc cur t k now h (suc j) lt = later_round cur t j (h j (omega arith))

  Found-suc :
      (cur : String × Source) (rounds end t : ℕ) (r : Option ℕ)
      → differs P (active_in P c t zone) cur ≡ false
      → Found cur rounds end (t + minute_ns) r
      → Found cur (suc rounds) end t r
  Found-suc cur rounds end t none now h = λ j lt before. go j lt before
    where
      go :
          (j : ℕ)
          → j < suc rounds
          → t + j * minute_ns < end
          → differs P (active_in P c (t + j * minute_ns) zone) cur ≡ false
      go zero lt before = rw (add-zero t) now
      go (suc j) lt before = later_round cur t j (h j (omega arith) (omega arith))
  Found-suc cur rounds end t (some u) now (k, at, before, new, old) =
      (suc k, omega arith, before, new, Unchanged-suc cur t k now old)

  scan_minutes-Found :
      (cur : String × Source) (rounds end t : ℕ)
      → Found cur rounds end t (scan_minutes P rounds c zone cur end t)
  unfolding scan_minutes
  scan_minutes-Found cur zero end t = λ j h _. elim h [ ]
  scan_minutes-Found cur (suc rounds) end t = elim (Bool-cases (ltb t end)) [
    | inr over ↦ rw over (λ j _ before. absurd (ground arith))
    | inl more ↦ elim (Bool-cases (differs P (active_in P c t zone) cur)) [
      | inl new ↦ rw (more, new) (0, omega arith, ground arith, new, λ j h. elim h [ ])
      | inr same ↦
          rw (more, same)
            (Found-suc cur rounds end t _ same (scan_minutes-Found cur rounds end (t + minute_ns)))
    ]
  ]

  -- What a next change must be: with `none` nothing changes at a whole minute of the next eight days;
  -- with `some u` that is such a minute, something changes at it, and nothing at those before it.
  pub IsNextChange : ℕ → Option ℕ → Type 0
  IsNextChange now none =
      (v : ℕ)
      → v % minute_ns ≡ 0
      → now < v
      → v < now + horizon_rounds * minute_ns
      → changed now v ≡ false
  IsNextChange now (some u) =
      (u % minute_ns ≡ 0)
      × (now < u)
      × (u < now + horizon_rounds * minute_ns)
      × (changed now u ≡ true)
      × ((v : ℕ) → v % minute_ns ≡ 0 → now < v → v < u → changed now v ≡ false)

  round_of : ℕ → ℕ → ℕ
  round_of now v = (v - (now / minute_ns * minute_ns + minute_ns)) / minute_ns

  round_of_lem :
      (now v : ℕ)
      → v % minute_ns ≡ 0
      → now < v
      → now / minute_ns * minute_ns + minute_ns + round_of now v * minute_ns ≡ v
  unfolding round_of
  round_of_lem now v a h = omega arith

  Found-IsNextChange :
      (now : ℕ) (r : Option ℕ)
      → Found
          (active_in P c now zone)
          horizon_rounds
          (now + horizon_rounds * minute_ns)
          (now / minute_ns * minute_ns + minute_ns)
          r
      → IsNextChange now r
  unfolding IsNextChange
  Found-IsNextChange now none h = λ v a after before.
      subst (λ w. changed now w ≡ false) (round_of_lem now v a after)
        (h (round_of now v) (omega (arith, round_of_lem now v a after))
          (omega (arith, round_of_lem now v a after)))
  Found-IsNextChange now (some u) (k, at, before, new, old) = (
    omega arith,
    omega arith,
    before,
    new,
    λ v a after earlier.
        subst (λ w. changed now w ≡ false) (round_of_lem now v a after)
          (old (round_of now v) (omega (arith, round_of_lem now v a after))),
  )

  first_match-disabled :
      (fallback : String) (l : List Schedule) (local : LocalTime)
      → any (λ s. s.enabled) l ≡ false
      → first_match P fallback l local ≡ (fallback, default)
  unfolding first_match
  first_match-disabled fallback [] local h = refl
  first_match-disabled fallback (s ∷ l) local h =
      ground (arith, first_match-disabled fallback l local)

  -- Where the time zone loads, NextChange returns the first whole minute after `now`, within eight
  -- days, at which the active profile or its source differs from those at `now`, and no time only if
  -- there is none.
  pub next_change-IsNextChange :
      (now : ℕ) → P.load_location c.timezone ≡ some zone → IsNextChange now (next_change P c now)
  unfolding next_change
  next_change-IsNextChange now loads = elim (Bool-cases (any (λ s. s.enabled) c.schedules)) [
    | inl enabled ↦
        rw (loads, next_change, enabled)
          (Found-IsNextChange now _
            (scan_minutes-Found (active_in P c now zone) horizon_rounds _ _))
    | inr disabled ↦
        rw (loads, next_change, disabled)
          (unfold IsNextChange active_in in
            λ v _ _ _.
              rw
                (
                  first_match-disabled c.default_profile c.schedules (zone v) disabled,
                  first_match-disabled c.default_profile c.schedules (zone now) disabled,
                )
                (differs_self P c.default_profile default))
  ]
