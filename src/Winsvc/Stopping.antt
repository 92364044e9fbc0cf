-- ===== src/Winsvc/Stopping.antt =====
-- internal/winsvc/supervisor.go: when the service stops, by when, and whether it has failed.
use benchwarmer.Prelude.{
  ℕ, ◌≡◌, refl, sym, ap, ◌∙◌, ltb, Bool, true, false, not, ◌&&◌, List, [], ◌∷◌, Option, none, some,
  if◌then◌else◌, arith,
}
use benchwarmer.Winsvc.{Options}
use benchwarmer.Winsvc.Supervisor.{
  Plane, new_plane, Input, finished, tick, asked, taken, report_pending, on_request, finish, step,
  loop, supervise,
}
use benchwarmer.Winsvc.StopState.{Stop, stop_of, stop_at, earliest, asks_stop, stop_by}
use benchwarmer.Winsvc.StopStep.{
  end_of, failed_by, after_stop, stop_of-on_request, stop_of-tick, if_push,
}

after_stop-stop_at :
    (x a : Option ℕ) (r : Option Bool) → after_stop x (stop_at a r) ≡ stop_at (earliest a x) r
after_stop-stop_at none none r = refl
after_stop-stop_at none (some d) r = refl
after_stop-stop_at (some e) none r = refl
after_stop-stop_at (some e) (some d) r = if_push (ltb e d) (λ (x : ℕ). stop_at (some x) r) e d

earliest_none : (a : Option ℕ) → earliest a none ≡ a
earliest_none none = refl
earliest_none (some d) = refl

earliest_assoc : (a b c : Option ℕ) → earliest (earliest a b) c ≡ earliest a (earliest b c)
earliest_assoc none b c = refl
earliest_assoc (some d) none c = refl
earliest_assoc (some d) (some e) none = refl
earliest_assoc (some d) (some e) (some f) = ap some (ground arith)

-- The handler's end
abbrev after_end : Bool → Stop → Stop
after_end err c = record c { result = some (err && not c.stopping) }

after_end-stop_at :
    (err : Bool) (a : Option ℕ)
    → after_end err (stop_at a none) ≡ stop_at a (failed_by (some err) a)
after_end-stop_at true none = refl
after_end-stop_at false none = refl
after_end-stop_at true (some d) = refl
after_end-stop_at false (some d) = refl

-- What the inputs come to, after an earlier request to stop or none
abbrev stops : Options → Option ℕ → List Input → Stop
stops o a xs = let s = earliest a (stop_by o xs) in stop_at s (failed_by (end_of xs) s)

stop_of-loop :
    (o : Options) (budget : ℕ) (xs : List Input) (p : Plane) (a : Option ℕ)
    → stop_of p ≡ stop_at a none
    → stop_of (loop o budget xs p) ≡ stops o a xs
unfolding loop step finish stop_by end_of
stop_of-loop o budget [] p a h = h ∙ ap (λ s. stop_at s none) (sym (earliest_none a))
stop_of-loop o budget (finished err ∷ xs) p a h =
    ap (after_end err) h
    ∙ after_end-stop_at err a
    ∙ ap (λ s. stop_at s (failed_by (some err) s)) (sym (earliest_none a))
stop_of-loop o budget (tick now ∷ xs) p a h =
    stop_of-loop o budget xs (if p.ticking then report_pending now p else p) a
      (stop_of-tick now p ∙ h)
stop_of-loop o budget (asked now r ∷ xs) p a h =
    let x = asks_stop o (asked now r) in
    stop_of-loop o budget xs (on_request o budget now r p) (earliest a x)
      (stop_of-on_request o budget now r p ∙ ap (after_stop x) h ∙ after_stop-stop_at x a none)
    ∙ ap (λ s. stop_at s (failed_by (end_of xs) s)) (earliest_assoc a x (stop_by o xs))
stop_of-loop o budget (taken ∷ xs) p a h = stop_of-loop o budget xs (step o budget taken p) a h

-- Whatever the loop takes before the handler ends: the service is stopping exactly when a stop, a
-- shutdown or a pre-shutdown was asked for, and the handler's context is then cancelled and the ticker
-- runs; the deadline is the earliest of those that were asked for, so a later request never puts it off;
-- and `supervise` reports a failure exactly when the handler returns an error before any of them.
pub supervise-stop_at :
    (o : Options) (budget : ℕ) (xs : List Input)
    → stop_of (supervise o budget xs)
      ≡ stop_at (stop_by o xs) (failed_by (end_of xs) (stop_by o xs))
unfolding supervise
supervise-stop_at o budget xs = stop_of-loop o budget xs new_plane none refl
