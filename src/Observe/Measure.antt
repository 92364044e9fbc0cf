-- ===== src/Observe/Measure.antt =====
-- internal/observe/observe.go: the input of a tick, and what a sample of the GPU shows by itself. The
-- texts that explain a confidence are left out.
use benchwarmer.Prelude.{
  ℕ, ◌-◌, ◌/◌, ◌%◌, ◌^◌, min, max, ltb, ◌==◌, Bool, true, false, not, ◌&&◌, ◌||◌, List, [], ◌∷◌,
  ◌++◌, map, any, Option, none, some, String, if◌then◌else◌,
}
use benchwarmer.Platform.{Platform}
use benchwarmer.Config.{Config, Profile}
use benchwarmer.Policy.Types.{Confidence, high, degraded, grown, GpuFacts}
use benchwarmer.Telemetry.{Sample, ProcGpu, Demand, is_own, split, sum_bytes, float_max}
use benchwarmer.Observe.State.{is_high}

abbrev pub mib : ℕ
mib = 1_048_576

-- `own[uint32(p)]`
abbrev pub pid32 : ℕ → ℕ
pid32 p = p % 2 ^ 32

abbrev pub is_nil {ℓ} : {A : Type ℓ} → List A → Bool
is_nil [] = true
is_nil (x ∷ xs) = false

-- The report of the session agent
pub record AgentReport (P : Platform) : Type 0 where
  pub foreground_pid : ℕ
  pub foreground_name : String
  pub foreground_path : String
  pub fullscreen : Bool
  pub idle_seconds : P.Float
  pub locked : Bool

module _ (P : Platform) where
  open P use {Float, float_le, float_lt, float_add, float_sub, float_mul, float_div, of_int, to_int}

  -- One tick. The list of processes is none when the snapshot failed; the agent's report stands with the
  -- instant at which it came. `session_stale_after` is of the section `signals`.
  pub record Input : Type 0 where
    pub sample : Option (Sample P)
    pub runtime_pid : ℕ
    pub own_pids : List ℕ
    pub runtime_active : Bool
    pub footprint_mib : ℕ
    pub profile : Profile P
    pub config : Config P
    pub session_stale_after : ℕ
    pub agent : Option (AgentReport P)
    pub agent_at : ℕ

  abbrev pub own_of : Input → List ℕ
  own_of i = (if ltb 0 i.runtime_pid then pid32 i.runtime_pid ∷ [] else []) ++ map pid32 i.own_pids

  -- The difference of the two figures of the memory is more than the larger tolerance.
  unfoldable pub mismatch : Sample P → Bool
  unfolding sum_bytes
  mismatch s =
      let adapter = float_div (of_int s.dedicated_used_bytes) (of_int mib) in
      let sum = float_div (of_int (sum_bytes P (λ pid. true) s.processes)) (of_int mib) in
      let diff = float_sub adapter sum in
      let size = if float_lt diff (of_int 0) then float_sub (of_int 0) diff else diff in
      float_lt (float_max P (of_int 1024) (float_div (float_mul adapter (of_int 25)) (of_int 100)))
        size

  unfoldable pub runtime_unseen : Input → List ℕ → Sample P → Bool
  unfolding sum_bytes
  runtime_unseen i own s =
      not (is_nil own)
      && (not (any (λ (p : ProcGpu P). is_own P own p.pid) s.processes)
          || (ltb 0 i.footprint_mib && sum_bytes P (is_own P own) s.processes == 0))

  abbrev grade : Input → List ℕ → Sample P → Confidence
  grade i own s =
      if is_nil s.processes
      then degraded
      else if runtime_unseen i own s || mismatch s
      then degraded
      else high

  unfoldable pub confidence : Input → List ℕ → Option (Sample P) → Confidence
  unfolding mismatch runtime_unseen
  confidence i own none = Confidence.none
  confidence i own (some s) = if not s.complete then Confidence.none else grade i own s

  abbrev pub no_facts : Confidence → GpuFacts P
  no_facts c = record {
    confidence = c;
    none_for = 0;
    healthy_for = 0;
    total_util_pct = of_int 0;
    own_util_pct = of_int 0;
    external_util_pct = of_int 0;
    external_util_trusted = false;
    above_critical_for = 0;
    above_soft_for = 0;
    below_soft_for = 0;
    vram_total_mib = 0;
    vram_used_mib = 0;
    vram_free_mib = 0;
    own_vram_mib = 0;
    external_vram_mib = 0;
    external_vram_growth_mib = grown 0;
    temperature_c = none;
  }

  -- The footprint that a runtime is taken to have where its memory is not measured
  abbrev inferred_footprint : Input → Demand P → ℕ
  inferred_footprint i d =
      let measured = d.own_dedicated_bytes / mib in
      let fp = if i.footprint_mib == 0 && ltb 0 measured then measured else i.footprint_mib in
      if fp == 0 then i.config.runtime.required_free_vram_mib else fp

  abbrev pub measured_external : List ℕ → Sample P → ℕ
  measured_external own s = sum_bytes P (λ pid. not (is_own P own pid)) s.processes / mib

  abbrev pub own_vram : Input → List ℕ → Sample P → Demand P → ℕ
  own_vram i own s d =
      if is_nil own
      then 0
      else min (inferred_footprint i d) (s.dedicated_used_bytes / mib - measured_external own s)

  -- The figures of a sample that counts, without what spans ticks
  unfoldable pub measure : Input → List ℕ → Sample P → Confidence → GpuFacts P
  unfolding split
  measure i own s c =
      let d = split P s own in
      let mine = own_vram i own s d in
      let f = record (no_facts c) {
        total_util_pct = d.total_util_pct;
        own_util_pct = d.own_util_pct;
        vram_total_mib = s.dedicated_total_bytes / mib;
        vram_used_mib = s.dedicated_used_bytes / mib;
        vram_free_mib = d.free_dedicated_bytes / mib;
        temperature_c = s.temperature_c;
      } in
      if is_high c
      then record f {
        external_util_pct = d.external_util_pct;
        external_util_trusted = true;
        own_vram_mib = d.own_dedicated_bytes / mib;
        external_vram_mib = d.external_dedicated_bytes / mib;
      }
      else record f {
        external_util_pct = d.total_util_pct;
        external_util_trusted = not i.runtime_active;
        own_vram_mib = mine;
        external_vram_mib = max (s.dedicated_used_bytes / mib - mine) (measured_external own s);
      }
