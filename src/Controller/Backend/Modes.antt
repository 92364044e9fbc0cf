-- ===== src/Controller/Backend/Modes.antt =====
-- internal/controller/backend.go: how long a requested mode lasts.
use benchwarmer.Prelude.{
  ℕ, ℤ, pos, negsuc, ◌+◌, ◌≤◌, ◌≡◌, ◌≢◌, ◌⊎◌, ◌↔◌, inl, inr, refl, Bool, false, Option, none, some,
  String, str_eq, arith,
}
use benchwarmer.Platform.{Platform}
use benchwarmer.Policy.Types.{Mode, auto, pause, ai_priority}
use benchwarmer.Controller.Types.{Controller}
use benchwarmer.Controller.Observe.{expire_mode}
use benchwarmer.Controller.Backend.{Calendar, mode_end, with_mode, capped, set_mode}

module _ (P : Platform) where
  -- No duration, or one that is not above 0
  abbrev pub IsBadSpan : Option ℤ → Type 0
  IsBadSpan none = Unit
  IsBadSpan (some (pos d)) = d ≡ 0
  IsBadSpan (some (negsuc d)) = Unit

  -- Neither a keyword nor a text that is a positive duration.
  abbrev pub IsBadDuration : Calendar → String → Type 0
  IsBadDuration k s =
      (str_eq s "" ≡ false)
      × (str_eq s "until_reboot" ≡ false)
      × (str_eq s "until_tomorrow" ≡ false)
      × IsBadSpan (k.parse_duration s)

  mode_end-none :
      (k : Calendar) (now : ℕ) (m : Mode) (s : String) (c : Controller P)
      → (mode_end P k now m s c ≡ none) ↔ IsBadDuration k s
  unfolding mode_end
  mode_end-none k now m s c = (λ h. ground arith, λ h. ground arith)

  -- An AI Priority mode always has an end.
  mode_end_ai :
      (k : Calendar) (now : ℕ) (s : String) (c : Controller P) {reboot : Bool}
      → mode_end P k now ai_priority s c ≢ some (none, reboot)
  unfolding mode_end
  mode_end_ai k now s c = λ h. ground arith

  with_mode_ai :
      (now : ℕ) (e : Option (Option ℕ × Bool)) (c c' : Controller P)
      → ((reboot : Bool) → e ≢ some (none, reboot))
      → with_mode P now ai_priority e c ≡ some c'
      → (until : ℕ) × (c'.mode.until ≡ some until)
        × (until ≤ now + c.cfg.modes.max_ai_priority)
        × (c'.mode.mode ≡ ai_priority)
  with_mode_ai now none c c' ends h = absurd (ground arith)
  with_mode_ai now (some (none, reboot)) c c' ends h = absurd (ends reboot refl)
  with_mode_ai now (some (some until, reboot)) c c' ends h =
      (capped P now ai_priority until c, ground arith, ground arith, ground arith)

  expire_lem :
      (t until : ℕ) (c : Controller P)
      → c.mode.until ≡ some until
      → until ≤ t
      → (expire_mode P t c).mode ≡ record { mode = auto; until = none }
  unfolding expire_mode
  expire_lem t until c e h = ground arith

  -- An AI Priority mode that is set, for whatever duration, has an end that is no later than
  -- `max_ai_priority` from now, and a step after that time finds the mode Auto.
  pub ai_priority_ends :
      (k : Calendar) (now t : ℕ) (s : String) (c c' : Controller P)
      → set_mode P k now ai_priority s c ≡ some c'
      → now + c.cfg.modes.max_ai_priority ≤ t
      → ((until : ℕ) × (c'.mode.until ≡ some until) × (until ≤ now + c.cfg.modes.max_ai_priority))
        × (c'.mode.mode ≡ ai_priority)
        × ((expire_mode P t c').mode ≡ record { mode = auto; until = none })
  unfolding set_mode
  ai_priority_ends k now t s c c' h late =
      let (until, e, bound, m) =
        with_mode_ai now (mode_end P k now ai_priority s c) c c'
          (λ reboot. mode_end_ai k now s c {reboot = reboot}) h in
      ((until, e, bound), m, expire_lem t until c' e (omega arith))

  with_mode-none :
      (now : ℕ) (m : Mode) (e : Option (Option ℕ × Bool)) (c : Controller P)
      → (with_mode P now m e c ≡ none) ↔ (e ≡ none)
  with_mode-none now m none c = (λ h. refl, λ h. refl)
  with_mode-none now m (some (until, reboot)) c = (λ h. ground arith, λ h. ground arith)

  pub set_mode-none :
      (k : Calendar) (now : ℕ) (m : Mode) (s : String) (c : Controller P)
      → (set_mode P k now m s c ≡ none) ↔ ((m ≡ Mode.unset) ⊎ ((m ≢ auto) × IsBadDuration k s))
  unfolding set_mode
  set_mode-none k now auto s c = (λ h. ground arith, λ h. ground arith)
  set_mode-none k now pause s c =
      let (fails, bad) = mode_end-none k now pause s c in
      let (refused, fail) = with_mode-none now pause (mode_end P k now pause s c) c in
      (λ h. inr (ground arith, fails (refused h)), λ h. ground (arith, bad, fail))
  set_mode-none k now ai_priority s c =
      let (fails, bad) = mode_end-none k now ai_priority s c in
      let (refused, fail) = with_mode-none now ai_priority (mode_end P k now ai_priority s c) c in
      (λ h. inr (ground arith, fails (refused h)), λ h. ground (arith, bad, fail))
  set_mode-none k now Mode.unset s c = (λ h. inl refl, λ h. refl)
