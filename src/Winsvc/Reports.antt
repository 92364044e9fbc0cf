-- ===== src/Winsvc/Reports.antt =====
-- internal/winsvc/supervisor.go: the reports to the service control manager.
use benchwarmer.Prelude.{
  ℕ, ◌≡◌, refl, sym, ap, subst, ◌∙◌, ltb, ◌==◌, Bool, true, false, not, ◌&&◌, List, [], ◌∷◌, Option,
  none, some, if◌then◌else◌,
}
use benchwarmer.Winsvc.{Options, wait_hint, Request, stopped, Status, status_of}
use benchwarmer.Winsvc.Supervisor.{
  Plane, new_plane, Input, finished, tick, asked, taken, report_pending, on_request, finish, step,
  loop, supervise,
}
use benchwarmer.Winsvc.StopState.{asks_stop}
use benchwarmer.Winsvc.StopStep.{if_push}
use benchwarmer.Winsvc.Heard.{
  Heard, answered, ticked, stopped_by, requested, is_failure, heard, first_heard, EndsInOrder,
  heard_at_first,
}
use benchwarmer.Winsvc.ReportMoves.{
  View, view, repeated, pended, stop_moves, view-on_request, view-tick,
}

-- The state of the loop that goes with what has been heard
abbrev goes_with : Option ℕ → Status → List Status → View
goes_with none last rs = record {
  stopping = false;
  deadline = 0;
  checkpoint = last.checkpoint;
  ticking = false;
  last = last;
  reports = rs;
  result = none;
}
goes_with (some d) last rs = record {
  stopping = true;
  deadline = d;
  checkpoint = last.checkpoint;
  ticking = true;
  last = last;
  reports = rs;
  result = none;
}

abbrev view_of : Heard → View
view_of h = goes_with h.stop_by h.last h.reports

abbrev heard_at : Option ℕ → Status → List Status → Heard
heard_at a last rs = record { stop_by = a; last = last; reports = rs }

repeated_heard :
    (a : Option ℕ) (last : Status) (rs : List Status)
    → repeated (goes_with a last rs) ≡ view_of (answered (heard_at a last rs))
repeated_heard none last rs = refl
repeated_heard (some d) last rs = refl

tick_heard :
    (a : Option ℕ) (now : ℕ) (last : Status) (rs : List Status)
    → let v = goes_with a last rs in
      (if v.ticking then pended (wait_hint v.deadline now) v else v)
      ≡ view_of (ticked a now (heard_at a last rs))
tick_heard none now last rs = refl
tick_heard (some d) now last rs = refl

stop_heard :
    (x a : Option ℕ) (now : ℕ) (last : Status) (rs : List Status)
    → stop_moves x now (goes_with a last rs) ≡ view_of (stopped_by x a now (heard_at a last rs))
stop_heard none a now last rs = refl
stop_heard (some d) none now last rs = refl
stop_heard (some d) (some e) now last rs =
    if_push (ltb d e) (λ (t : ℕ). goes_with (some t) last rs) d e

request_heard :
    (o : Options) (now : ℕ) (r : Request) (h : Heard)
    → (if r.cmd == 4
        then repeated (view_of h)
        else stop_moves (asks_stop o (asked now r)) now (view_of h))
      ≡ view_of (requested o now r h)
request_heard o now r h =
    let x = asks_stop o (asked now r) in
    view_of-if (r.cmd == 4) (answered h) (stopped_by x h.stop_by now h)
      (repeated_heard h.stop_by h.last h.reports) (stop_heard x h.stop_by now h.last h.reports)
  where
    view_of-if :
        (b : Bool) (x y : Heard) {u v : View}
        → u ≡ view_of x
        → v ≡ view_of y
        → (if b then u else v) ≡ view_of (if b then x else y)
    view_of-if true x y h k = h
    view_of-if false x y h k = k

failure_heard :
    (a : Option ℕ) (err : Bool) (last : Status) (rs : List Status)
    → (err && not (goes_with a last rs).stopping) ≡ is_failure err a
failure_heard none true last rs = refl
failure_heard none false last rs = refl
failure_heard (some d) true last rs = refl
failure_heard (some d) false last rs = refl

abbrev told_of : View → Option Bool × List Status
told_of v = (v.result, v.reports)

goes_with-told :
    (a : Option ℕ) (last : Status) (rs : List Status) → told_of (goes_with a last rs) ≡ (none, rs)
goes_with-told none last rs = refl
goes_with-told (some d) last rs = refl

-- What `supervise` has returned, and all its reports
abbrev pub outcome : Plane → Option Bool × List Status
outcome p = (p.result, p.reports)

abbrev ended_with : Bool → List Status → Option Bool × List Status
ended_with failed rs = (some failed, record (status_of stopped) { failed = failed } ∷ rs)

loop-heard :
    (o : Options) (budget : ℕ) (xs : List Input) (p : Plane) (h : Heard)
    → view p ≡ view_of h
    → outcome (loop o budget xs p) ≡ heard o h xs
unfolding loop step finish heard
loop-heard o budget [] p h e = ap told_of e ∙ goes_with-told h.stop_by h.last h.reports
loop-heard o budget (finished err ∷ xs) p h e =
    ap (λ (v : View). ended_with (err && not v.stopping) v.reports) e
    ∙ ap (λ b. ended_with b (view_of h).reports) (failure_heard h.stop_by err h.last h.reports)
    ∙ ap (λ (t : Option Bool × List Status). ended_with (is_failure err h.stop_by) t.1)
        (goes_with-told h.stop_by h.last h.reports)
loop-heard o budget (tick now ∷ xs) p h e =
    loop-heard o budget xs (if p.ticking then report_pending now p else p) (ticked h.stop_by now h)
      (view-tick now p
        ∙ ap (λ (v : View). if v.ticking then pended (wait_hint v.deadline now) v else v) e
        ∙ tick_heard h.stop_by now h.last h.reports)
loop-heard o budget (asked now r ∷ xs) p h e =
    loop-heard o budget xs (on_request o budget now r p) (requested o now r h) (
      view-on_request o budget now r p
      ∙ ap
          (λ (v : View).
            if r.cmd == 4 then repeated v else stop_moves (asks_stop o (asked now r)) now v)
          e
      ∙ request_heard o now r h)
loop-heard o budget (taken ∷ xs) p h e = loop-heard o budget xs (step o budget taken p) h e

-- Whatever the loop takes, its result and its reports are those that `heard` reads off the inputs: each
-- interrogate is answered, with a copy of the last status; the first request to stop is reported as a
-- pending stop at once, each tick after it as one more, with the time that is then left until the
-- earliest deadline asked for; no other input is reported before the handler's end. And the reports stand
-- in this order: that the service starts, that it runs, that the stop is pending, with the checkpoint 1
-- and then one more each time (as a word of 32 bits), with the answers among them. That the service has
-- stopped is the last report, made when the handler has ended and at no other time, with the failure that
-- `supervise` returns.
pub supervise-EndsInOrder :
    (o : Options) (budget : ℕ) (xs : List Input)
    → let p = supervise o budget xs in
      (outcome p ≡ heard o first_heard xs) × EndsInOrder p.result p.reports
unfolding supervise
supervise-EndsInOrder o budget xs =
    let e = loop-heard o budget xs new_plane first_heard refl in
    (
      e,
      subst (λ (r : Option Bool × List Status). EndsInOrder r.0 r.1) (sym e) (heard_at_first o xs),
    )
