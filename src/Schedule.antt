-- ===== src/Schedule.antt =====
-- internal/schedule/schedule.go, and the parsers of internal/config/validate.go that it calls:
-- which profile is in force at an instant, and when that changes next.
pub mod Window
pub mod Change
mod Samples
use benchwarmer.Prelude.{
  ℕ, zero, suc, ◌+◌, ◌-◌, ◌*◌, ◌/◌, ◌%◌, ltb, leb, ◌==◌, Bool, true, false, not, ◌&&◌, ◌||◌, List,
  [], ◌∷◌, map, any, Option, none, some, String, str_eq, if◌then◌else◌,
}
use benchwarmer.Platform.{Platform, LocalTime, codes, same}
use benchwarmer.Config.{Schedule, Config, minute_ns}

abbrev digit : ℕ → Option ℕ
digit c = if leb b'0' c && leb c b'9' then some (c - b'0') else none

-- The hour of `time.Parse("15:04", s)`: one digit or two.
abbrev parse_hour : List ℕ → Option (ℕ × List ℕ)
parse_hour [] = none
parse_hour (a ∷ []) = elim (digit a) [ none ↦ none | some x ↦ some (x, []) ]
parse_hour (a ∷ b ∷ rest) = elim (digit a) [
  | none ↦ none
  | some x ↦ elim (digit b) [ none ↦ some (x, b ∷ rest) | some y ↦ some (x * 10 + y, rest) ]
]

-- The rest of it: a colon and two digits, with nothing after them.
abbrev parse_minute : List ℕ → Option ℕ
parse_minute (c ∷ a ∷ b ∷ []) =
    if c == b':'
    then (elim (digit a) [
      | none ↦ none
      | some x ↦ elim (digit b) [ none ↦ none | some y ↦ some (x * 10 + y) ]
    ])
    else none
parse_minute _ = none

abbrev in_range : ℕ → Option ℕ → Option ℕ
in_range h none = none
in_range h (some m) = if ltb h 24 && ltb m 60 then some (h * 60 + m) else none

-- `none` is an error.
unfoldable pub clock_minutes : String → Option ℕ
clock_minutes s = elim (parse_hour (codes s)) [
  | none ↦ none
  | some (h, rest) ↦ in_range h (parse_minute rest)
]

abbrev weekdays : List (String × ℕ)
weekdays =
    ("sun", 0) ∷ ("mon", 1) ∷ ("tue", 2) ∷ ("wed", 3) ∷ ("thu", 4) ∷ ("fri", 5) ∷ ("sat", 6) ∷ []

abbrev find_day : List ℕ → List (String × ℕ) → Option ℕ
find_day s [] = none
find_day s ((name, d) ∷ rest) = if same (codes name) s then some d else find_day s rest

-- `hasDay` for one name of the list.
abbrev is_day : Option ℕ → ℕ → Bool
is_day none d = false
is_day (some w) d = w == d

-- The window from `start` to `end`, in minutes of the day, at minute `m` of day `today`.
unfoldable pub in_minutes : (ℕ → Bool) → ℕ → ℕ → ℕ → ℕ → Bool
in_minutes has_day start end today m =
    if ltb start end
    then has_day today && leb start m && ltb m end
    else if leb start m && has_day today
    then true
    else ltb m end && has_day ((today + 6) % 7)

-- Where a profile comes from: the texts "default", "ai_priority" and "schedule:" with a name.
pub data Source : Type 0 where
  default ai_priority : Source
  schedule : String → Source

abbrev pub same_source : Source → Source → Bool
same_source default default = true
same_source ai_priority ai_priority = true
same_source (schedule a) (schedule b) = str_eq a b
same_source _ _ = false

-- Eight days in minutes.
abbrev pub horizon_rounds : ℕ
horizon_rounds = 11_520

module _ (P : Platform) where
  unfoldable pub weekday : String → Option ℕ
  unfolding same
  weekday s = find_day (map P.to_lower (codes s)) weekdays

  unfoldable pub has_day : Schedule → ℕ → Bool
  has_day s d = any (λ x. is_day (weekday x) d) s.days

  unfoldable pub in_window : Schedule → LocalTime → Bool
  in_window s local = elim (clock_minutes s.start) [
    | none ↦ false
    | some start ↦ elim (clock_minutes s.end) [
      | none ↦ false
      | some end ↦ in_minutes (has_day s) start end local.weekday (local.hour * 60 + local.minute)
    ]
  ]

  unfoldable pub first_match : String → List Schedule → LocalTime → String × Source
  first_match fallback [] local = (fallback, default)
  first_match fallback (s ∷ rest) local =
      if s.enabled && in_window s local
      then (s.profile, schedule s.name)
      else first_match fallback rest local

  unfoldable pub active_in : Config P → ℕ → (ℕ → LocalTime) → String × Source
  active_in c now zone = first_match c.default_profile c.schedules (zone now)

  unfoldable pub active : Config P → ℕ → String × Source
  active c now = elim (P.load_location c.timezone) [
    | none ↦ (c.default_profile, default)
    | some zone ↦ active_in c now zone
  ]

  abbrev pub differs : String × Source → String × Source → Bool
  differs (p, src) (cur, cur_src) = not (str_eq p cur) || not (same_source src cur_src)

  -- The loop of `NextChange`, with the rounds that are left at most.
  unfoldable pub scan_minutes : ℕ → Config P → (ℕ → LocalTime) → String × Source → ℕ → ℕ → Option ℕ
  scan_minutes zero c zone current end t = none
  scan_minutes (suc rounds) c zone current end t =
      let later = scan_minutes rounds c zone current end (t + minute_ns) in
      if ltb t end then (if differs (active_in c t zone) current then some t else later) else none

  -- `none` is the zero time.
  unfoldable pub next_change : Config P → ℕ → Option ℕ
  unfolding scan_minutes
  next_change c now = elim (P.load_location c.timezone) [
    | none ↦ none
    | some zone ↦
        if any (λ s. s.enabled) c.schedules
        then scan_minutes horizon_rounds c zone (active_in c now zone)
            (now + horizon_rounds * minute_ns) (now / minute_ns * minute_ns + minute_ns)
        else none
  ]
