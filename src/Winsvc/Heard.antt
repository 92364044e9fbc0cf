-- ===== src/Winsvc/Heard.antt =====
-- internal/winsvc/supervisor.go: what the service control manager hears, told from the inputs alone.
use benchwarmer.Prelude.{
  ℕ, ◌+◌, ◌%◌, ◌^◌, ◌≡◌, refl, ◌==◌, Bool, true, false, List, [], ◌∷◌, Option, none, some,
  if◌then◌else◌,
}
use benchwarmer.Winsvc.{
  Options, Request, wait_hint, start_pending, running, stop_pending, stopped, Status, status_of,
}
use benchwarmer.Winsvc.Supervisor.{Input, finished, tick, asked, taken}
use benchwarmer.Winsvc.StopState.{earliest, asks_stop}

abbrev pub stop_pending_at : ℕ → ℕ → Status
stop_pending_at c h = record (status_of stop_pending) { checkpoint = c; wait_hint = h }

-- The earliest deadline of the requests to stop so far, the status that a question is answered with,
-- and the reports, the latest first
pub record Heard : Type 0 where
  pub stop_by : Option ℕ
  pub last : Status
  pub reports : List Status

-- That the stop is pending, with the next checkpoint and the time that is left
abbrev pub told : ℕ → ℕ → Heard → Heard
told deadline now h =
    let s = stop_pending_at ((h.last.checkpoint + 1) % 2 ^ 32) (wait_hint deadline now) in
    record h { last = s; reports = s ∷ h.reports }

abbrev pub answered : Heard → Heard
answered h = record h { reports = h.last ∷ h.reports }

abbrev pub ticked : Option ℕ → ℕ → Heard → Heard
ticked none now h = h
ticked (some d) now h = told d now h

-- A request, with the deadline it asks for: the first is told at once, a later one is not.
abbrev pub stopped_by : Option ℕ → Option ℕ → ℕ → Heard → Heard
stopped_by none a now h = h
stopped_by (some d) none now h = record (told d now h) { stop_by = some d }
stopped_by (some d) (some e) now h = record h { stop_by = earliest (some e) (some d) }

-- A question (interrogate) is answered, and nothing else but a request to stop is heard of.
abbrev pub requested : Options → ℕ → Request → Heard → Heard
requested o now r h =
    if r.cmd == 4 then answered h else stopped_by (asks_stop o (asked now r)) h.stop_by now h

-- Whether the handler's error is a failure of the service
abbrev pub is_failure : Bool → Option ℕ → Bool
is_failure err none = err
is_failure err (some d) = false

-- What `supervise` returns when the handler has ended, and all reports
unfoldable pub heard : Options → Heard → List Input → Option Bool × List Status
heard o h [] = (none, h.reports)
heard o h (finished err ∷ xs) =
    let failed = is_failure err h.stop_by in
    (some failed, record (status_of stopped) { failed = failed } ∷ h.reports)
heard o h (tick now ∷ xs) = heard o (ticked h.stop_by now h) xs
heard o h (asked now r ∷ xs) = heard o (requested o now r h) xs
heard o h (taken ∷ xs) = heard o h xs

abbrev pub first_heard : Heard
first_heard = record {
  stop_by = none;
  last = status_of running;
  reports = status_of running ∷ record (status_of start_pending) { wait_hint = 10_000 } ∷ [];
}

-- The reports in order, the latest first
pub data InOrder : List Status → Type 0 where
  started :
      (h : ℕ)
      → InOrder (status_of running ∷ record (status_of start_pending) { wait_hint = h } ∷ [])
  -- A question is answered with the last report.
  again : (s : Status) (rs : List Status) → InOrder (s ∷ rs) → InOrder (s ∷ s ∷ rs)
  stops :
      (h : ℕ) (rs : List Status)
      → InOrder (status_of running ∷ rs)
      → InOrder (stop_pending_at 1 h ∷ status_of running ∷ rs)
  goes_on :
      (c h k : ℕ) (rs : List Status)
      → InOrder (stop_pending_at c h ∷ rs)
      → InOrder (stop_pending_at ((c + 1) % 2 ^ 32) k ∷ stop_pending_at c h ∷ rs)

-- After the handler's end one report follows, and no other.
abbrev pub EndsInOrder : Option Bool → List Status → Type 0
EndsInOrder none rs = InOrder rs
EndsInOrder (some failed) [] = ⊥
EndsInOrder (some failed) (s ∷ rs) =
    (s ≡ record (status_of stopped) { failed = failed }) × InOrder rs

-- What has been told, before and after the first request to stop
data IsTold : Heard → Type 0 where
  before :
      (rs : List Status)
      → InOrder (status_of running ∷ rs)
      → IsTold
          (record { stop_by = none; last = status_of running; reports = status_of running ∷ rs })
  during :
      (d c h : ℕ) (rs : List Status)
      → InOrder (stop_pending_at c h ∷ rs)
      → IsTold (record {
        stop_by = some d;
        last = stop_pending_at c h;
        reports = stop_pending_at c h ∷ rs;
      })

told-InOrder : (h : Heard) → IsTold h → InOrder h.reports
told-InOrder h (before rs i) = i
told-InOrder h (during d c w rs i) = i

answered-IsTold : (h : Heard) → IsTold h → IsTold (answered h)
answered-IsTold h (before rs i) = before (status_of running ∷ rs) (again (status_of running) rs i)
answered-IsTold h (during d c w rs i) =
    during d c w (stop_pending_at c w ∷ rs) (again (stop_pending_at c w) rs i)

ticked-IsTold : (now : ℕ) (h : Heard) → IsTold h → IsTold (ticked h.stop_by now h)
ticked-IsTold now h (before rs i) = before rs i
ticked-IsTold now h (during d c w rs i) =
    let k = wait_hint d now in
    during d ((c + 1) % 2 ^ 32) k (stop_pending_at c w ∷ rs) (goes_on c w k rs i)

stopped_by-IsTold :
    (x : Option ℕ) (now : ℕ) (h : Heard) → IsTold h → IsTold (stopped_by x h.stop_by now h)
stopped_by-IsTold none now h t = t
stopped_by-IsTold (some d) now h (before rs i) =
    let k = wait_hint d now in during d 1 k (status_of running ∷ rs) (stops k rs i)
stopped_by-IsTold (some d) now h (during e c w rs i) = during _ c w rs i

requested-IsTold :
    (o : Options) (now : ℕ) (r : Request) (h : Heard) → IsTold h → IsTold (requested o now r h)
requested-IsTold o now r h t =
    choose (r.cmd == 4) (answered-IsTold h t)
      (stopped_by-IsTold (asks_stop o (asked now r)) now h t)
  where
    choose : (b : Bool) {x y : Heard} → IsTold x → IsTold y → IsTold (if b then x else y)
    choose true t u = t
    choose false t u = u

heard-EndsInOrder :
    (o : Options) (xs : List Input) (h : Heard)
    → IsTold h
    → let r = heard o h xs in EndsInOrder r.0 r.1
unfolding heard
heard-EndsInOrder o [] h t = told-InOrder h t
heard-EndsInOrder o (finished err ∷ xs) h t = (refl, told-InOrder h t)
heard-EndsInOrder o (tick now ∷ xs) h t =
    heard-EndsInOrder o xs (ticked h.stop_by now h) (ticked-IsTold now h t)
heard-EndsInOrder o (asked now r ∷ xs) h t =
    heard-EndsInOrder o xs (requested o now r h) (requested-IsTold o now r h t)
heard-EndsInOrder o (taken ∷ xs) h t = heard-EndsInOrder o xs h t

-- From the start on
pub heard_at_first :
    (o : Options) (xs : List Input) → let r = heard o first_heard xs in EndsInOrder r.0 r.1
heard_at_first o xs =
    heard-EndsInOrder o xs first_heard
      (before (record (status_of start_pending) { wait_hint = 10_000 } ∷ []) (started 10_000))
