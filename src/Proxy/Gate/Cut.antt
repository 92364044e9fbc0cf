-- ===== src/Proxy/Gate/Cut.antt =====
-- internal/proxy/gate.go, ForceCloseAll: exactly the active requests are cut off.
use benchwarmer.Prelude.{◌≡◌, refl, ap, ◌∙◌, Bool, true, false, List, [], ◌∷◌, arith, if◌then◌else◌}
use benchwarmer.Proxy.Gate.{
  TicketId, Ticket, Cause, preempted, Gate, id_eqb, is_cancelled, cancel, active_ids, ids,
  preempt_all,
}
use benchwarmer.Proxy.Gate.Events.{is_active}

-- The identifier is in the list.
abbrev pub has_id : TicketId → List TicketId → Bool
has_id id [] = false
has_id id (j ∷ rest) = if id_eqb j id then true else has_id id rest

id_eqb→eq : (j id : TicketId) → id_eqb j id ≡ true → j ≡ id
id_eqb→eq j id h = ground arith

is_cancelled-same :
    (j id : TicketId) (l : List (TicketId × Cause))
    → id_eqb j id ≡ true
    → is_cancelled j l ≡ is_cancelled id l
is_cancelled-same j id l h = ap (λ i. is_cancelled i l) (id_eqb→eq j id h)

cancel-is_cancelled :
    (id j : TicketId) (g : Gate) (cause : Cause)
    → is_cancelled id (cancel j cause g).cancelled
      ≡ (if id_eqb j id then true else is_cancelled id g.cancelled)
unfolding cancel is_cancelled
cancel-is_cancelled id j g cause = ground (arith, is_cancelled-same j id g.cancelled)

preempt_all-is_cancelled :
    (id : TicketId) (l : List TicketId) (g : Gate)
    → is_cancelled id (preempt_all l g).cancelled
      ≡ (if has_id id l then true else is_cancelled id g.cancelled)
unfolding preempt_all
preempt_all-is_cancelled id [] g = refl
preempt_all-is_cancelled id (j ∷ l) g = ground (
  arith,
  preempt_all-is_cancelled id l (cancel j preempted g),
  cancel-is_cancelled id j g preempted,
)

has_id-ids : (id : TicketId) (ts : List Ticket) → has_id id (ids ts) ≡ is_active id ts
has_id-ids id [] = refl
has_id-ids id (t ∷ ts) = ground (arith, has_id-ids id ts)

preempt_all-active : (l : List TicketId) (g : Gate) → (preempt_all l g).active ≡ g.active
unfolding preempt_all cancel
preempt_all-active [] g = refl
preempt_all-active (j ∷ l) g = ground (arith, preempt_all-active l (cancel j preempted g))

-- Cutting off every request that is active cancels exactly the contexts of these, besides those
-- cancelled before, and leaves the requests to be released by their handlers.
pub force_close_cancels_active :
    (g : Gate)
    → let h = preempt_all (active_ids g) g in
      (h.active ≡ g.active)
      × ((id : TicketId)
          → is_cancelled id h.cancelled
            ≡ (if is_active id g.active then true else is_cancelled id g.cancelled))
unfolding active_ids
force_close_cancels_active g = (
  preempt_all-active (ids g.active) g,
  λ id.
      preempt_all-is_cancelled id (ids g.active) g
      ∙ ap (λ (b : Bool). if b then true else is_cancelled id g.cancelled) (has_id-ids id g.active),
)
