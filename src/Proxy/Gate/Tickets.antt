-- ===== src/Proxy/Gate/Tickets.antt =====
-- internal/proxy/gate.go: the active requests are told apart by their identifiers.
use benchwarmer.Prelude.{
  ℕ, ◌+◌, ◌^◌, ◌≤◌, ◌<◌, ◌≡◌, refl, sym, ap, subst, ◌∙◌, Bool, true, false, inl, inr, List, [], ◌∷◌,
  ◌++◌, if◌then◌else◌, Bool-cases, arith,
}
use benchwarmer.Proxy.Gate.{
  TicketId, Ticket, Gate, id_eqb, u64, unix_milli, remove, new_gate, admit, delete, Event, admits,
  deletes, step, run,
}
use benchwarmer.Proxy.Gate.Events.{admit_one, asked, is_active}

-- The sequence numbers of the active requests fall from the newest on, all below a bound.
abbrev pub Fresh : ℕ → List Ticket → Type 0
Fresh bound [] = Unit
Fresh bound (t ∷ ts) = (t.id.seq < bound) × Fresh t.id.seq ts

Fresh-mono : (m n : ℕ) (ts : List Ticket) → m ≤ n → Fresh m ts → Fresh n ts
Fresh-mono m n [] h f = tt
Fresh-mono m n (t ∷ ts) h f = (omega arith, f.1)

remove-Fresh : (id : TicketId) (n : ℕ) (ts : List Ticket) → Fresh n ts → Fresh n (remove id ts)
unfolding remove
remove-Fresh id n [] f = tt
remove-Fresh id n (t ∷ ts) f =
    ground (arith, remove-Fresh id t.id.seq ts f.1, Fresh-mono t.id.seq n (remove id ts))

remove_absent :
    (id : TicketId) (n : ℕ) (ts : List Ticket) → Fresh n ts → n ≤ id.seq → remove id ts ≡ ts
unfolding remove
remove_absent id n [] f h = refl
remove_absent id n (t ∷ ts) f h = ground (arith, remove_absent id t.id.seq ts f.1)

-- The second list is the first without one ticket, which has this identifier.
abbrev pub LacksOne : TicketId → List Ticket → List Ticket → Type 0
LacksOne id ts us =
    (before : List Ticket) × (t : Ticket) × (after : List Ticket) × (t.id ≡ id)
    × (ts ≡ before ++ (t ∷ after))
    × (us ≡ before ++ after)

id_eqb-eq : (a b : TicketId) → id_eqb a b ≡ true → a ≡ b
id_eqb-eq a b h = ground (arith, h)

remove-head :
    (id : TicketId) (t : Ticket) (ts : List Ticket) (b : Bool)
    → id_eqb t.id id ≡ b
    → remove id (t ∷ ts) ≡ (if b then remove id ts else t ∷ remove id ts)
unfolding remove
remove-head id t ts b e = ap (λ x. if x then remove id ts else t ∷ remove id ts) e

LacksOne-there :
    (id : TicketId) (t : Ticket) (ts us : List Ticket)
    → LacksOne id ts us
    → LacksOne id (t ∷ ts) (t ∷ us)
LacksOne-there id t ts us (before, u, after, e, h, k) =
    (t ∷ before, u, after, e, ap (λ l. t ∷ l) h, ap (λ l. t ∷ l) k)

-- Taking out an active request takes out that one alone.
remove-LacksOne :
    (id : TicketId) (n : ℕ) (ts : List Ticket)
    → Fresh n ts
    → is_active id ts ≡ true
    → LacksOne id ts (remove id ts)
remove-LacksOne id n [] f h = absurd (ground (arith, h))
remove-LacksOne id n (t ∷ ts) f h = elim (Bool-cases (id_eqb t.id id)) [
  | inl e ↦
      let same = id_eqb-eq t.id id e in
      (
        [],
        t,
        ts,
        same,
        refl,
        remove-head id t ts true e ∙ remove_absent id t.id.seq ts f.1 (ground (arith, e)),
      )
  | inr e ↦ subst (LacksOne id (t ∷ ts)) (sym (remove-head id t ts false e)) (
      LacksOne-there id t ts (remove id ts)
        (remove-LacksOne id t.id.seq ts f.1 (ground (arith, h, e))))
]

-- The counter has not wrapped, and the active requests have distinct numbers up to it.
pub record IsValid (g : Gate) : Type 0 where
  pub unwrapped : g.seq < 2 ^ 64
  pub fresh : Fresh (g.seq + 1) g.active

step-IsValid : (e : Event) (g : Gate) → admit_one e g.seq < 2 ^ 64 → IsValid g → IsValid (step e g)
unfolding step
step-IsValid (admits a b) g h v =
    let id : TicketId = record { millis = unix_milli a; seq = u64 (g.seq + 1) } in
    ground (
      arith,
      remove-Fresh id (g.seq + 1) g.active v.fresh,
      Fresh-mono (g.seq + 1) (u64 (g.seq + 1)) (remove id g.active),
    )
step-IsValid (deletes id) g h v = ground (arith, remove-Fresh id (g.seq + 1) g.active)
step-IsValid e g h v = ground arith

step-seq : (e : Event) (g : Gate) → (step e g).seq ≤ admit_one e g.seq
unfolding step
step-seq e g = ground arith

next_bound :
    (e : Event) (g : Gate) (k : ℕ)
    → g.seq + admit_one e k < 2 ^ 64
    → (step e g).seq ≤ admit_one e g.seq
    → (step e g).seq + k < 2 ^ 64
next_bound e g k h le = ground arith

admit_bound : (e : Event) (n k : ℕ) → n + admit_one e k < 2 ^ 64 → admit_one e n < 2 ^ 64
admit_bound e n k h = ground arith

run-IsValid :
    (es : List Event) (g : Gate) → g.seq + asked es < 2 ^ 64 → IsValid g → IsValid (run es g)
unfolding run
run-IsValid [] g h v = v
run-IsValid (e ∷ es) g h v =
    run-IsValid es (step e g) (next_bound e g (asked es) h (step-seq e g))
      (step-IsValid e g (admit_bound e g.seq (asked es) h) v)

new_gate-IsValid : IsValid new_gate
unfolding new_gate
new_gate-IsValid = omega arith

step-seq_add : (e : Event) (g : Gate) (k : ℕ) → (step e g).seq + k ≤ g.seq + admit_one e k
step-seq_add e g k = ground (arith, step-seq e g)

run-seq : (es : List Event) (g : Gate) → (run es g).seq ≤ g.seq + asked es
unfolding run
run-seq [] g = omega arith
run-seq (e ∷ es) g = omega (arith, run-seq es (step e g), step-seq_add e g (asked es))

new_gate-seq : new_gate.seq ≡ 0
unfolding new_gate
new_gate-seq = refl

admit-active :
    (now started : ℕ) (g : Gate)
    → IsValid g
    → g.seq + 1 < 2 ^ 64
    → g.is_open ≡ true
    → (admit now started g).0.active
      ≡ record {
        id = record { millis = unix_milli now; seq = g.seq + 1 };
        started = started;
        upstream = g.upstream;
      }
        ∷ g.active
unfolding admit
admit-active now started g v h o =
    let id : TicketId = record { millis = unix_milli now; seq = u64 (g.seq + 1) } in
    ground (arith, remove_absent id (g.seq + 1) g.active v.fresh)

delete-LacksOne :
    (id : TicketId) (g : Gate)
    → IsValid g
    → is_active id g.active ≡ true
    → LacksOne id g.active (delete id g).active
unfolding delete
delete-LacksOne id g v a = remove-LacksOne id (g.seq + 1) g.active v.fresh a

-- After any events that ask fewer than 2^64 times for admission, the next admission at an open gate
-- adds one request to those active and displaces none, and a release of an active request takes out
-- that request and leaves all others, in their order.
pub gate_counts_requests :
    (es : List Event) (now started : ℕ)
    → asked es + 1 < 2 ^ 64
    → let g = run es new_gate in
      (g.is_open ≡ true
        → (admit now started g).0.active
          ≡ record {
            id = record { millis = unix_milli now; seq = g.seq + 1 };
            started = started;
            upstream = g.upstream;
          }
            ∷ g.active)
      × ((id : TicketId) → is_active id g.active ≡ true → LacksOne id g.active (delete id g).active)
gate_counts_requests es now started h =
    let g = run es new_gate in
    let v = run-IsValid es new_gate (omega (arith, new_gate-seq)) new_gate-IsValid in
    (
      admit-active now started g v (omega (arith, new_gate-seq, run-seq es new_gate)),
      λ id a. delete-LacksOne id g v a,
    )
