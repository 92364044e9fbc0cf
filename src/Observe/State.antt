-- ===== src/Observe/State.antt =====
-- internal/observe/observe.go: what spans ticks, the timers and the window of memory points.
use benchwarmer.Prelude.{
  ℕ, ◌-◌, leb, ◌==◌, Bool, true, false, not, List, [], ◌∷◌, ◌++◌, if◌then◌else◌,
}
use benchwarmer.Policy.Types.{Confidence, high, degraded, Growth, grown, shrunk}

pub record Point : Type 0 where
  pub at : ℕ
  pub size : ℕ

-- The zero time stands for no time.
pub record Observer : Type 0 where
  pub last_tick : ℕ
  pub last_conf : Confidence
  pub none_since : ℕ
  pub healthy_since : ℕ
  pub above_crit_since : ℕ
  pub above_soft_since : ℕ
  pub below_soft_since : ℕ
  pub vram : List Point

-- `New`
abbrev pub new_observer : Observer
new_observer = record {
  last_tick = 0;
  last_conf = Confidence.unset;
  none_since = 0;
  healthy_since = 0;
  above_crit_since = 0;
  above_soft_since = 0;
  below_soft_since = 0;
  vram = [];
}

unfoldable pub reset_windows : Observer → Observer
reset_windows o = record o {
  above_crit_since = 0;
  above_soft_since = 0;
  below_soft_since = 0;
  vram = [];
}

-- `run`: the start of the stretch in which the condition holds
abbrev pub run_since : Bool → ℕ → ℕ → ℕ
run_since cond now since = if not cond then 0 else if since == 0 then now else since

abbrev pub run_for : Bool → ℕ → ℕ → ℕ
run_for cond now since = if not cond then 0 else now - run_since cond now since

-- The points after the newest one that is not after the cut, with that one
unfoldable pub drop_old : ℕ → Point → List Point → List Point
drop_old cut p [] = p ∷ []
drop_old cut p (q ∷ r) = let rest = drop_old cut q r in if leb q.at cut then rest else p ∷ q ∷ r

abbrev pub difference : ℕ → ℕ → Growth
difference a b = if leb b a then grown (a - b) else shrunk (b - a - 1)

abbrev pub drop_first : ℕ → List Point → List Point
drop_first cut [] = []
drop_first cut (p ∷ r) = drop_old cut p r

abbrev pub from_first : ℕ → List Point → Growth
from_first ext [] = grown 0
from_first ext (p ∷ r) = difference ext p.size

-- The points that are kept, and the growth since the first of them
unfoldable pub growth : ℕ → ℕ → ℕ → List Point → List Point × Growth
unfolding drop_old
growth now ext window vram =
    let kept = drop_first (now - window) (vram ++ (record { at = now; size = ext } ∷ [])) in
    (kept, from_first ext kept)

abbrev pub is_high : Confidence → Bool
is_high high = true
is_high _ = false

abbrev pub is_none : Confidence → Bool
is_none Confidence.none = true
is_none _ = false

abbrev pub same_confidence : Confidence → Confidence → Bool
same_confidence high high = true
same_confidence degraded degraded = true
same_confidence Confidence.none Confidence.none = true
same_confidence Confidence.unset Confidence.unset = true
same_confidence _ _ = false
