-- ===== src/GpuReset.antt =====
-- internal/gpureset/gpureset.go: the watcher that finds resets of the GPU driver by their dumps. What the
-- directories hold at a scan is its input, with the names of the files as code points; the map of what was
-- seen is a function.
pub mod Seen
mod Samples
use benchwarmer.Prelude.{
  ℕ, ltb, Bool, true, not, ◌&&◌, ◌||◌, List, [], ◌∷◌, ◌++◌, map, Option, none, some, if◌then◌else◌,
}
use benchwarmer.Platform.{Platform, codes, same}
use benchwarmer.Policy.Evaluate.{has_prefix}
use benchwarmer.Redact.{ends_with}

abbrev pub Text : Type 0
Text = List ℕ

pub record Reset : Type 0 where
  pub file : Text
  pub time : ℕ

-- An entry of a directory; the time of its last change is none when it cannot be read.
pub record DirEntry : Type 0 where
  pub name : Text
  pub is_dir : Bool
  pub mod_time : Option ℕ

-- The directories, each with what it holds, or none when it cannot be read
abbrev pub Contents : Type 0
Contents = List (Text × Option (List DirEntry))

abbrev pub Seen : Type 0
Seen = Text → Option ℕ

module _ (P : Platform) (join : Text → Text → Text) where
  unfoldable pub is_watchdog_dump : Text → Bool
  unfolding has_prefix ends_with
  is_watchdog_dump name =
      let n = map P.to_lower name in has_prefix (codes "watchdog") n && ends_with (codes ".dmp") n

  abbrev at_time : Text → Option ℕ → List Reset → List Reset
  at_time file none rest = rest
  at_time file (some t) rest = record { file = file; time = t } ∷ rest

  unfoldable pub scan_entries : Text → List DirEntry → List Reset
  unfolding is_watchdog_dump
  scan_entries d [] = []
  scan_entries d (e ∷ es) =
      let rest = scan_entries d es in
      if e.is_dir || not (is_watchdog_dump e.name)
      then rest
      else at_time (join d e.name) e.mod_time rest

  unfoldable pub scan : Contents → List Reset
  unfolding scan_entries
  scan [] = []
  scan ((d, none) ∷ ds) = scan ds
  scan ((d, some es) ∷ ds) = scan_entries d es ++ scan ds

abbrev pub see : Reset → Seen → Seen
see r seen f = if same r.file f then some r.time else seen f

-- `New`, for what a scan has found
unfoldable pub new_seen : List Reset → Seen → Seen
new_seen [] seen = seen
new_seen (r ∷ rs) seen = new_seen rs (see r seen)

abbrev unless_after : ℕ → Option ℕ → Option ℕ
unless_after t none = none
unless_after t (some mt) = if ltb t mt then none else some mt

-- `SetSince`
unfoldable pub set_since : ℕ → Seen → Seen
set_since t seen f = unless_after t (seen f)

abbrev pub is_after : Option ℕ → ℕ → Bool
is_after none t = true
is_after (some prev) t = ltb prev t

-- `Poll`, for what a scan has found
unfoldable pub poll : List Reset → Seen → Seen × List Reset
poll [] seen = (seen, [])
poll (r ∷ rs) seen =
    let now = poll rs (see r seen) in
    let skipped = poll rs seen in
    if is_after (seen r.file) r.time then (now.0, r ∷ now.1) else skipped

-- The resets that successive polls report, in order
unfoldable pub poll_all : List (List Reset) → Seen → List Reset
unfolding poll
poll_all [] seen = []
poll_all (rs ∷ scans) seen = let p = poll rs seen in p.1 ++ poll_all scans p.0
