-- ===== src/Winsvc/Acks.antt =====
-- internal/winsvc/supervisor.go: what becomes of each suspend notification.
use benchwarmer.Prelude.{
  ℕ, ◌+◌, ◌≡◌, ◌⊎◌, inl, inr, refl, sym, ap, subst, ◌∙◌, ◌==◌, false, ◌&&◌, List, [], ◌∷◌, All,
  none, some, if◌then◌else◌, Bool-cases, arith,
}
use benchwarmer.Winsvc.{Options, Request, new_request, translate, power_event}
use benchwarmer.Winsvc.Supervisor.{
  Plane, new_plane, Input, finished, tick, asked, taken, report, report_pending, on_translated,
  on_request, finish, step, loop, supervise,
}
use benchwarmer.Winsvc.Answers.{
  tally, acked, handed, received, IsQueued, answered, answered-if, IsSuspend,
  answered-on_translated,
}

translate-IsSuspend :
    (o : Options) (budget sid at c : ℕ) → IsSuspend (translate o budget (new_request 13 4 sid at c))
unfolding new_request translate power_event
translate-IsSuspend o budget sid at c = refl

-- A request has no channel, or is a suspend notification.
abbrev Suspends : Options → ℕ → ℕ → Request → Type 0
Suspends o budget id r =
    (tally id r.done ≡ 0) ⊎ (((r.cmd == 4) ≡ false) × IsSuspend (translate o budget r))

new_request-Suspends :
    (o : Options) (budget id cmd t sid at c : ℕ) → Suspends o budget id (new_request cmd t sid at c)
unfolding new_request
new_request-Suspends o budget id cmd t sid at c = elim (Bool-cases (cmd == 13 && t == 4)) [
  | inl e ↦
      let h : 13 ≡ cmd = ground (arith, e) in
      let k : 4 ≡ t = ground (arith, e) in
      inr (
        ground (arith, e),
        subst (λ x. IsSuspend (translate o budget (new_request x t sid at c))) h
            (subst (λ y. IsSuspend (translate o budget (new_request 13 y sid at c))) k
              (translate-IsSuspend o budget sid at c)),
      )
  | inr e ↦ inl (ap (λ b. tally id (if b then some c else none)) e)
]

answered-on_request :
    (o : Options) (budget id now : ℕ) (r : Request) (p : Plane)
    → Suspends o budget id r
    → answered id (on_request o budget now r p) ≡ tally id r.done + answered id p
unfolding on_request
answered-on_request o budget id now r p (inl h) =
    answered-if id _ (r.cmd == 4) (report p.last p) (on_translated now r (translate o budget r) p)
      (omega (arith, h)) (answered-on_translated id now r (translate o budget r) p (inl h))
answered-on_request o budget id now r p (inr (e, s)) =
    ap
      (λ b.
        answered id (if b then report p.last p else on_translated now r (translate o budget r) p))
      e
    ∙ answered-on_translated id now r (translate o budget r) p (inr s)

queued-Suspends :
    (o : Options) (budget id now : ℕ) (r : Request)
    → IsQueued (asked now r)
    → Suspends o budget id r
queued-Suspends o budget id now r (cmd, t, sid, at, c, e) =
    subst (Suspends o budget id) (sym e) (new_request-Suspends o budget id cmd t sid at c)

-- What this input asks for an answer
abbrev asks : ℕ → Input → ℕ
asks id (asked now r) = tally id r.done
asks id x = 0

answered-step :
    (o : Options) (budget id : ℕ) (x : Input) (p : Plane)
    → IsQueued x
    → answered id (step o budget x p) ≡ asks id x + answered id p
unfolding step finish report_pending
answered-step o budget id (finished err) p q = omega arith
answered-step o budget id (tick now) p q =
    answered-if id _ p.ticking (report_pending now p) p (omega arith) (omega arith)
answered-step o budget id (asked now r) p q =
    answered-on_request o budget id now r p (queued-Suspends o budget id now r q)
answered-step o budget id taken p q = omega arith

answered-on :
    (o : Options) (budget id : ℕ) (x : Input) (p : Plane) (n m : ℕ)
    → IsQueued x
    → n ≡ m + answered id (step o budget x p)
    → n ≡ (asks id x + m) + answered id p
answered-on o budget id x p n m q h = omega (arith, h, answered-step o budget id x p q)

answered-loop :
    (o : Options) (budget id : ℕ) (xs : List Input) (p : Plane)
    → All IsQueued xs
    → answered id (loop o budget xs p) ≡ received id xs + answered id p
unfolding loop received
answered-loop o budget id [] p q = omega arith
answered-loop o budget id (finished err ∷ xs) p q = answered-step o budget id (finished err) p q.0
answered-loop o budget id (tick now ∷ xs) p q =
    answered-on o budget id (tick now) p _ (received id xs) q.0
      (answered-loop o budget id xs (step o budget (tick now) p) q.1)
    ∙ omega arith
answered-loop o budget id (asked now r ∷ xs) p q =
    answered-on o budget id (asked now r) p _ (received id xs) q.0
      (answered-loop o budget id xs (step o budget (asked now r) p) q.1)
answered-loop o budget id (taken ∷ xs) p q =
    answered-on o budget id taken p _ (received id xs) q.0
      (answered-loop o budget id xs (step o budget taken p) q.1)
    ∙ omega arith

-- Whatever the loop takes, in whatever order, of the requests that the control handler queues: every
-- channel on which the handler waits is answered for as often as the loop took it before it returned. The
-- loop closes it itself, or hands it over with an event to the service body, never both and never
-- neither, whether the service is stopping or not and whether the channel of events has room or not.
pub supervise-answered :
    (o : Options) (budget : ℕ) (xs : List Input) (id : ℕ)
    → All IsQueued xs
    → let p = supervise o budget xs in acked id p.acks + handed id p.delivered ≡ received id xs
unfolding supervise acked handed
supervise-answered o budget xs id q = answered-loop o budget id xs new_plane q ∙ omega arith
