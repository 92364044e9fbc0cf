-- ===== src/Proxy/Gate/Events.antt =====
-- internal/proxy/gate.go: what the statements about runs of the gate count and look up.
use benchwarmer.Prelude.{ℕ, suc, Bool, true, false, not, ◌&&◌, List, [], ◌∷◌, if◌then◌else◌}
use benchwarmer.Proxy.Gate.{TicketId, Ticket, id_eqb, Event, opens, admits}

abbrev pub is_opens : Event → Bool
is_opens (opens _) = true
is_opens _ = false

-- How many requests ask for admission.
abbrev pub admit_one : Event → ℕ → ℕ
admit_one (admits _ _) n = suc n
admit_one _ n = n

abbrev pub asked : List Event → ℕ
asked [] = 0
asked (e ∷ es) = admit_one e (asked es)

abbrev pub no_opens : List Event → Bool
no_opens [] = true
no_opens (e ∷ es) = not (is_opens e) && no_opens es

abbrev pub is_active : TicketId → List Ticket → Bool
is_active id [] = false
is_active id (t ∷ ts) = if id_eqb t.id id then true else is_active id ts
