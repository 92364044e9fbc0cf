-- ===== src/Observe/Apps.antt =====
-- internal/observe/observe.go: `apps`, the facts about applications, without the list of all users of the
-- GPU, which only the owner's view reads, and `byDemand`. A sort that keeps the order of equals is an
-- insertion sort from the end; a map by process id holds the last entry of each.
pub mod Sorted
pub mod Chosen
pub mod Foreign
mod Samples
use benchwarmer.Prelude.{
  ℕ, ◌-◌, ◌/◌, ltb, leb, ◌==◌, Bool, true, false, not, ◌&&◌, ◌||◌, List, [], ◌∷◌, map, Option, none,
  some, String, str_eq, if◌then◌else◌,
}
use benchwarmer.Platform.{Platform, codes}
use benchwarmer.Policy.Types.{AppMatch, AppFacts, GpuFacts, SessionFacts}
use benchwarmer.Classify.{new_rule, classify}
use benchwarmer.Telemetry.{Sample, ProcGpu, is_own, max_util}
use benchwarmer.Observe.State.{Observer, is_none}
use benchwarmer.Observe.{observe}
use benchwarmer.Observe.Measure.{confidence, own_of, mib, AgentReport, Input}

-- internal/signals/process.go
pub record Process : Type 0 where
  pub pid : ℕ
  pub ppid : ℕ
  pub name : String
  pub path : String
  pub create_time : ℕ

-- The last process with this id
unfoldable pub by_pid : ℕ → List Process → Option Process
by_pid pid [] = none
by_pid pid (p ∷ ps) = elim (by_pid pid ps) [
  | some q ↦ some q
  | none ↦ if p.pid == pid then some p else none
]

abbrev pub or_itself : Process → Option Process → Process
or_itself p none = p
or_itself p (some q) = q

module _ (P : Platform) where
  open P use {Float, float_le, float_lt, of_int}

  unfoldable pub usage_of : ℕ → List (ProcGpu P) → Option (ProcGpu P)
  usage_of pid [] = none
  usage_of pid (u ∷ us) = elim (usage_of pid us) [
    | some v ↦ some v
    | none ↦ if u.pid == pid then some u else none
  ]

  abbrev util_of : Option (ProcGpu P) → Float
  util_of none = of_int 0
  util_of (some u) = max_util P u

  abbrev vram_of : Option (ProcGpu P) → ℕ
  vram_of none = 0
  vram_of (some u) = u.dedicated_bytes / mib

  abbrev is_foreground : Option (AgentReport P) → ℕ → Bool
  is_foreground none pid = false
  is_foreground (some a) pid = not (a.foreground_pid == 0) && a.foreground_pid == pid

  abbrev is_fullscreen : Option (AgentReport P) → Bool
  is_fullscreen none = false
  is_fullscreen (some a) = a.fullscreen

  unfoldable pub class_by_rules : Input P → Process → String
  unfolding classify new_rule
  class_by_rules i p =
      elim (classify P (map (new_rule P) i.config.applications) (codes p.name) (codes p.path)) [
        | none ↦ ""
        | some rule ↦ rule.class
      ]

  -- `build`, for a process of this class
  unfoldable pub build :
      ℕ → List (ProcGpu P) → Option (AgentReport P) → String → Process → AppMatch P
  unfolding usage_of max_util
  build now usage agent class p =
      let u = usage_of p.pid usage in
      let front = is_foreground agent p.pid in
      record {
        pid = p.pid;
        name = p.name;
        class = class;
        gpu_util_pct = util_of u;
        vram_mib = vram_of u;
        foreground = front;
        fullscreen = front && is_fullscreen agent;
        running_for = if p.create_time == 0 then 0 else now - p.create_time;
      }

  -- A real parent is not younger than its child.
  abbrev is_parent : Process → Process → Bool
  is_parent parent p = not (
      not (parent.create_time == 0)
      && not (p.create_time == 0)
      && ltb p.create_time parent.create_time)

  abbrev pub launched : Input P → List ℕ → Process → Option Process → Bool
  launched i own p none = false
  launched i own p (some parent) =
      not (p.ppid == p.pid)
      && str_eq (class_by_rules i parent) "launcher"
      && not (is_own P own p.ppid)
      && is_parent parent p

  abbrev pub uses_gpu : ℕ → AppMatch P → Bool
  uses_gpu vram m = float_le (of_int 1) m.gpu_util_pct || leb vram m.vram_mib

  -- `byDemand`, as "not after"
  unfoldable pub by_demand : AppMatch P → AppMatch P → Bool
  by_demand x y =
      if float_lt y.gpu_util_pct x.gpu_util_pct
      then true
      else if float_lt x.gpu_util_pct y.gpu_util_pct
      then false
      else if ltb y.vram_mib x.vram_mib
      then true
      else if ltb x.vram_mib y.vram_mib
      then false
      else leb x.pid y.pid

  unfoldable pub insert : AppMatch P → List (AppMatch P) → List (AppMatch P)
  unfolding by_demand
  insert x [] = x ∷ []
  insert x (y ∷ ys) = let rest = insert x ys in if by_demand x y then x ∷ y ∷ ys else y ∷ rest

  unfoldable pub sort : List (AppMatch P) → List (AppMatch P)
  unfolding insert
  sort [] = []
  sort (x ∷ xs) = insert x (sort xs)

  abbrev pub no_apps : AppFacts P
  no_apps = record {
    games = [];
    launchers = [];
    ordinary = [];
    launcher_children = [];
    process_list_ok = true;
  }

  abbrev pub add_ordinary : AppMatch P → AppFacts P → AppFacts P
  add_ordinary m a = if uses_gpu 64 m then record a { ordinary = m ∷ a.ordinary } else a

  abbrev pub add_child : Bool → AppMatch P → AppFacts P → AppFacts P
  add_child child m a =
      if child && uses_gpu 128 m
      then record a { launcher_children = record m { class = "game" } ∷ a.launcher_children }
      else a

  -- A process, by its class
  abbrev pub add_app : String → Bool → AppMatch P → AppFacts P → AppFacts P
  add_app class child m a =
      if str_eq class "game"
      then record a { games = m ∷ a.games }
      else if str_eq class "launcher"
      then record a { launchers = m ∷ a.launchers }
      else if str_eq class "ordinary"
      then add_ordinary m a
      else if str_eq class "ignore"
      then a
      else add_child child m a

  unfoldable pub app_lists :
      ℕ
      → Input P
      → List ℕ
      → List (ProcGpu P)
      → Option (AgentReport P)
      → List Process
      → List Process
      → AppFacts P
  unfolding by_pid build class_by_rules
  app_lists now i own usage agent all [] = no_apps
  app_lists now i own usage agent all (p ∷ ps) =
      let rest = app_lists now i own usage agent all ps in
      let c = or_itself p (by_pid p.pid all) in
      let class = class_by_rules i c in
      let child = launched i own p (by_pid p.ppid all) in
      if is_own P own p.pid then rest else add_app class child (build now usage agent class c) rest

  -- `apps`; the processes are none when the snapshot failed.
  unfoldable pub apps :
      ℕ
      → Input P
      → List ℕ
      → List (ProcGpu P)
      → Option (AgentReport P)
      → Option (List Process)
      → AppFacts P
  unfolding app_lists sort
  apps now i own usage agent none = record no_apps { process_list_ok = false }
  apps now i own usage agent (some ps) =
      let a = app_lists now i own usage agent ps ps in
      record a {
        games = sort a.games;
        launchers = sort a.launchers;
        ordinary = sort a.ordinary;
        launcher_children = sort a.launcher_children;
      }

  -- The usage by process of a sample that counts
  abbrev counted_usage : Input P → Option (Sample P) → List (ProcGpu P)
  counted_usage i none = []
  counted_usage i (some s) =
      if is_none (confidence P i (own_of P i) (some s)) then [] else s.processes

  abbrev fresh_agent : ℕ → Input P → Option (AgentReport P)
  fresh_agent now i =
      if i.agent_at == 0 || leb i.session_stale_after (now - i.agent_at) then none else i.agent

  -- `Observer.Observe`, with the applications
  unfoldable pub facts :
      ℕ
      → Input P
      → Option (List Process)
      → Observer
      → Observer × (GpuFacts P × AppFacts P × SessionFacts)
  unfolding observe apps confidence
  facts now i ps o =
      let (o2, (g, s)) = observe P now i o in
      let a = apps now i (own_of P i) (counted_usage i i.sample) (fresh_agent now i) ps in
      (o2, (g, a, s))
