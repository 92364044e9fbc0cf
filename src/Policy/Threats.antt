-- ===== src/Policy/Threats.antt =====
-- internal/policy/evaluate.go: what holds of the facts where no rule of the first four tiers matches.
use benchwarmer.Prelude.{
  Option, none, inr, ◌≤◌, ◌<◌, ◌≡◌, refl, true, false, ◌⊎◌, List, [], ◌∷◌, ◌++◌, arith, any, some,
  str_eq,
}
use benchwarmer.Platform.{Platform}
use benchwarmer.Policy.Types.{Growth, grown, shrunk}
use benchwarmer.Policy.Rules.{
  Match, Eval, game_confirmation, confirmed_child, safety_rules, pause_rules, critical_rules,
  gaming_rules, yield_rules, is_none, is_pause,
}

module _ (P : Platform) where
  -- The external memory does not grow.
  abbrev pub IsSteady : Growth → Type 0
  IsSteady (grown n) = n ≡ 0
  IsSteady (shrunk n) = Unit

  -- The temperature, if it is known, is below this one.
  abbrev pub IsBelow : P.Float → Option P.Float → Type 0
  IsBelow limit none = Unit
  IsBelow limit (some t) = P.float_le limit t ≡ false

  read-IsBelow :
      (limit : P.Float) (x : Option P.Float)
      → ((t : P.Float) → x ≡ some t → P.float_le limit t ≡ false)
      → IsBelow limit x
  read-IsBelow limit none h = tt
  read-IsBelow limit (some t) h = h t refl

  or_read-IsBelow :
      (A : Type 0) (limit : P.Float) (x : Option P.Float)
      → ((t : P.Float) → x ≡ some t → A ⊎ (P.float_le limit t ≡ false))
      → A ⊎ IsBelow limit x
  or_read-IsBelow A limit none h = inr tt
  or_read-IsBelow A limit (some t) h = h t refl

  -- No reason of the first four tiers to stop: safety, pause, critical contention and gaming.
  pub record IsUnthreatened (e : Eval P) : Type 0 where
    pub on : e.s.power.shutting_down ≡ false
    pub awake : e.s.power.suspending ≡ false
    pub present : e.s.power.device_lost ≡ false
    pub cool : IsBelow e.c.safety.gpu_temp_critical_c e.s.gpu.temperature_c
    -- A stopped runtime waits until the GPU has cooled down.
    pub cooled_down :
        (e.running ≡ true) ⊎ IsBelow e.c.safety.gpu_temp_resume_c e.s.gpu.temperature_c
    -- Telemetry is lost only after its grace, and only where there is something to run.
    pub observed :
        (is_none e.s.gpu.confidence ≡ false)
        ⊎ (e.s.gpu.none_for < e.c.telemetry.loss_grace)
        ⊎ ((e.running ≡ false) × (str_eq e.s.runtime.setup_problem "" ≡ false))
    pub unpaused : is_pause e.mode ≡ false
    -- Memory of a running runtime runs out when others take more.
    pub roomy :
        (is_none e.s.gpu.confidence ≡ true)
        ⊎ (e.running ≡ false)
        ⊎ (e.s.gpu.vram_total_mib ≡ 0)
        ⊎ (e.c.contention.vram_free_critical_mib ≤ e.s.gpu.vram_free_mib)
        ⊎ IsSteady e.s.gpu.external_vram_growth_mib
    pub unloaded :
        (is_none e.s.gpu.confidence ≡ true)
        ⊎ (e.s.gpu.external_util_trusted ≡ false)
        ⊎ (P.float_lt (P.of_int 0) e.c.contention.external_util_critical_pct ≡ false)
        ⊎ (e.s.gpu.above_critical_for ≡ 0)
        ⊎ (e.s.gpu.above_critical_for < e.c.contention.critical_window)
    pub uncontended :
        (is_none e.s.gpu.confidence ≡ true)
        ⊎ (e.s.gpu.external_vram_mib < e.c.contention.external_vram_critical_mib)
    pub no_game : any (game_confirmation P e) e.s.apps.games ≡ false
    pub no_child : any (confirmed_child P e) e.s.apps.launcher_children ≡ false
    -- No unknown application in full screen uses the GPU.
    pub no_fullscreen :
        (e.s.session.known ≡ false)
        ⊎ (e.s.session.locked ≡ true)
        ⊎ (e.s.session.fullscreen ≡ false)
        ⊎ (str_eq e.s.session.foreground_class "" ≡ false)
        ⊎ (e.s.gpu.external_util_trusted ≡ false)
        ⊎ (P.float_le e.soft_util e.s.gpu.external_util_pct ≡ false)

  append-nil_inv : (xs ys : List Match) → xs ++ ys ≡ [] → (xs ≡ []) × (ys ≡ [])
  append-nil_inv [] ys h = (refl, h)
  append-nil_inv (x ∷ xs) ys h = cc

  safety_rules-nil :
      (e : Eval P)
      → safety_rules P e ≡ []
      → (e.s.power.shutting_down ≡ false)
        × (e.s.power.suspending ≡ false)
        × (e.s.power.device_lost ≡ false)
  unfolding safety_rules
  safety_rules-nil e h = ground arith

  safety_rules-cool :
      (e : Eval P) (t : P.Float)
      → safety_rules P e ≡ []
      → e.s.gpu.temperature_c ≡ some t
      → P.float_le e.c.safety.gpu_temp_critical_c t ≡ false
  unfolding safety_rules
  safety_rules-cool e t h k = ground arith

  safety_rules-cooled :
      (e : Eval P) (t : P.Float)
      → safety_rules P e ≡ []
      → e.s.gpu.temperature_c ≡ some t
      → (e.running ≡ true) ⊎ (P.float_le e.c.safety.gpu_temp_resume_c t ≡ false)
  unfolding safety_rules
  safety_rules-cooled e t h k = ground arith

  safety_rules-observed :
      (e : Eval P)
      → safety_rules P e ≡ []
      → (is_none e.s.gpu.confidence ≡ false)
        ⊎ (e.s.gpu.none_for < e.c.telemetry.loss_grace)
        ⊎ ((e.running ≡ false) × (str_eq e.s.runtime.setup_problem "" ≡ false))
  unfolding safety_rules
  safety_rules-observed e h = ground arith

  pause_rules-nil : (e : Eval P) → pause_rules P e ≡ [] → is_pause e.mode ≡ false
  unfolding pause_rules
  pause_rules-nil e h = ground arith

  critical_rules-nil :
      (e : Eval P)
      → critical_rules P e ≡ []
      → (is_none e.s.gpu.confidence ≡ true)
        ⊎ (e.s.gpu.external_vram_mib < e.c.contention.external_vram_critical_mib)
  unfolding critical_rules
  critical_rules-nil e h = ground arith

  critical_rules-roomy :
      (e : Eval P)
      → critical_rules P e ≡ []
      → (is_none e.s.gpu.confidence ≡ true)
        ⊎ (e.running ≡ false)
        ⊎ (e.s.gpu.vram_total_mib ≡ 0)
        ⊎ (e.c.contention.vram_free_critical_mib ≤ e.s.gpu.vram_free_mib)
        ⊎ IsSteady e.s.gpu.external_vram_growth_mib
  unfolding critical_rules
  critical_rules-roomy e h = ground arith

  critical_rules-unloaded :
      (e : Eval P)
      → critical_rules P e ≡ []
      → (is_none e.s.gpu.confidence ≡ true)
        ⊎ (e.s.gpu.external_util_trusted ≡ false)
        ⊎ (P.float_lt (P.of_int 0) e.c.contention.external_util_critical_pct ≡ false)
        ⊎ (e.s.gpu.above_critical_for ≡ 0)
        ⊎ (e.s.gpu.above_critical_for < e.c.contention.critical_window)
  unfolding critical_rules
  critical_rules-unloaded e h = ground arith

  gaming_rules-fullscreen :
      (e : Eval P)
      → gaming_rules P e ≡ []
      → (e.s.session.known ≡ false)
        ⊎ (e.s.session.locked ≡ true)
        ⊎ (e.s.session.fullscreen ≡ false)
        ⊎ (str_eq e.s.session.foreground_class "" ≡ false)
        ⊎ (e.s.gpu.external_util_trusted ≡ false)
        ⊎ (P.float_le e.soft_util e.s.gpu.external_util_pct ≡ false)
  unfolding gaming_rules
  gaming_rules-fullscreen e h = ground arith

  gaming_rules-nil :
      (e : Eval P)
      → gaming_rules P e ≡ []
      → (any (game_confirmation P e) e.s.apps.games ≡ false)
        × (any (confirmed_child P e) e.s.apps.launcher_children ≡ false)
  unfolding gaming_rules
  gaming_rules-nil e h = ground arith

  pub yield_rules-nil : (e : Eval P) → yield_rules P e ≡ [] → IsUnthreatened e
  unfolding yield_rules
  yield_rules-nil e h =
      let (safe, h1) = append-nil_inv (safety_rules P e) _ h in
      let (unpaused, h2) = append-nil_inv (pause_rules P e) _ h1 in
      let (uncontended, h3) = append-nil_inv (critical_rules P e) _ h2 in
      let (no_game, h4) = append-nil_inv (gaming_rules P e) _ h3 in
      record {
        on = (safety_rules-nil e safe).0;
        awake = (safety_rules-nil e safe).1;
        present = (safety_rules-nil e safe).2;
        cool = read-IsBelow _ _ (λ t k. safety_rules-cool e t safe k);
        cooled_down = or_read-IsBelow _ _ _ (λ t k. safety_rules-cooled e t safe k);
        observed = safety_rules-observed e safe;
        unpaused = pause_rules-nil e unpaused;
        roomy = critical_rules-roomy e uncontended;
        unloaded = critical_rules-unloaded e uncontended;
        uncontended = critical_rules-nil e uncontended;
        no_game = (gaming_rules-nil e no_game).0;
        no_child = (gaming_rules-nil e no_game).1;
        no_fullscreen = gaming_rules-fullscreen e no_game;
      }
