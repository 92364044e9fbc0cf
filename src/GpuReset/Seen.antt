-- ===== src/GpuReset/Seen.antt =====
-- internal/gpureset/gpureset.go: which resets the polls report.
use benchwarmer.Prelude.{
  ℕ, ◌≤◌, ◌≡◌, inl, inr, refl, sym, ap, subst, ◌∙◌, ltb, ltb→lt, Bool, true, false, not, ◌&&◌, ◌||◌,
  List, [], ◌∷◌, ◌++◌, Option, none, some, if◌then◌else◌, Bool-cases, arith,
}
use benchwarmer.Platform.{same}
use benchwarmer.Redact.Cut.{same-eq}
use benchwarmer.GpuReset.{Text, Reset, Seen, see, is_after, poll, poll_all}

-- The time is later than all that were found for this file before, and than the one that was seen first.
abbrev pub is_newer : Text → ℕ → Seen → List Reset → Bool
is_newer f t first [] = is_after (first f) t
is_newer f t first (r ∷ past) = (not (same r.file f) || ltb r.time t) && is_newer f t first past

-- What is new in these, after others (the latest first)
unfoldable pub news : Seen → List Reset → List Reset → List Reset
news first past [] = []
news first past (r ∷ rs) =
    let rest = news first (r ∷ past) rs in
    if is_newer r.file r.time first past then r ∷ rest else rest

-- All that the scans have found, in order
abbrev pub all_found : List (List Reset) → List Reset
all_found [] = []
all_found (rs ∷ scans) = rs ++ all_found scans

is_after_later : (x : Option ℕ) (t u : ℕ) → t ≤ u → is_after x t ≡ true → is_after x u ≡ true
is_after_later none t u l h = refl
is_after_later (some p) t u l h = ground (arith, l, h)

or_later : (b : Bool) (p t u : ℕ) → t ≤ u → (b || ltb p t) ≡ true → (b || ltb p u) ≡ true
or_later true p t u l h = refl
or_later false p t u l h = ground (arith, l, h)

both : {a b : Bool} → (a && b) ≡ true → (a ≡ true) × (b ≡ true)
both {a = true} {b = b} h = (refl, h)
both {a = false} {b = b} h = absurd (ground (arith, h))

and_true : {a b : Bool} → a ≡ true → b ≡ true → (a && b) ≡ true
and_true {a = true} h k = k
and_true {a = false} h k = absurd (ground (arith, h))

-- Where one implies the other
absorb_right : (a b : Bool) → (a ≡ true → b ≡ true) → a ≡ (a && b)
absorb_right true b h = sym (h refl)
absorb_right false b h = refl

absorb_left : (a b : Bool) → (b ≡ true → a ≡ true) → b ≡ (a && b)
absorb_left true b h = refl
absorb_left false true h = sym (h refl)
absorb_left false false h = refl

is_newer_later :
    (f : Text) (t u : ℕ) (first : Seen) (past : List Reset)
    → t ≤ u
    → is_newer f t first past ≡ true
    → is_newer f u first past ≡ true
is_newer_later f t u first [] l h = is_after_later (first f) t u l h
is_newer_later f t u first (r ∷ past) l h =
    let (a, c) = both h in
    and_true (or_later (not (same r.file f)) r.time t u l a) (is_newer_later f t u first past l c)

-- The map knows of the past what decides.
abbrev Knows : Seen → Seen → List Reset → Type 0
Knows seen first past = (f : Text) (t : ℕ) → is_after (seen f) t ≡ is_newer f t first past

see_at :
    (r : Reset) (seen first : Seen) (past : List Reset) (f : Text) (t : ℕ) (b : Bool)
    → same r.file f ≡ b
    → Knows seen first past
    → is_newer r.file r.time first past ≡ true
    → is_after (if b then some r.time else seen f) t
      ≡ ((not b || ltb r.time t) && is_newer f t first past)
see_at r seen first past f t true e k n =
    absorb_right (ltb r.time t) (is_newer f t first past) (λ l.
      is_newer_later f r.time t first past (omega (arith, ltb→lt r.time t l))
        (subst (λ g. is_newer g r.time first past ≡ true) (same-eq r.file f e) n))
see_at r seen first past f t false e k n = k f t

see-Knows :
    (r : Reset) (seen first : Seen) (past : List Reset)
    → Knows seen first past
    → is_newer r.file r.time first past ≡ true
    → Knows (see r seen) first (r ∷ past)
see-Knows r seen first past k n f t = see_at r seen first past f t (same r.file f) refl k n

is_later :
    (r : Reset) (first : Seen) (past : List Reset) (f : Text) (t : ℕ)
    → r.file ≡ f
    → is_newer r.file r.time first past ≡ false
    → is_newer f t first past ≡ true
    → ltb r.time t ≡ true
is_later r first past f t e n h = elim (Bool-cases (ltb r.time t)) [
  | inl l ↦ l
  | inr l ↦
      let late = is_newer_later f t r.time first past (ground (arith, l)) h in
      let at = subst (λ g. is_newer g r.time first past ≡ false) e n in
      absurd (ground (arith, sym late ∙ at))
]

skip_at :
    (r : Reset) (seen first : Seen) (past : List Reset) (f : Text) (t : ℕ) (b : Bool)
    → same r.file f ≡ b
    → Knows seen first past
    → is_newer r.file r.time first past ≡ false
    → is_after (seen f) t ≡ ((not b || ltb r.time t) && is_newer f t first past)
skip_at r seen first past f t true e k n =
    k f t
    ∙ absorb_left (ltb r.time t) (is_newer f t first past)
        (is_later r first past f t (same-eq r.file f e) n)
skip_at r seen first past f t false e k n = k f t

skip-Knows :
    (r : Reset) (seen first : Seen) (past : List Reset)
    → Knows seen first past
    → is_newer r.file r.time first past ≡ false
    → Knows seen first (r ∷ past)
skip-Knows r seen first past k n f t = skip_at r seen first past f t (same r.file f) refl k n

-- The latest first
abbrev onto : List Reset → List Reset → List Reset
onto [] past = past
onto (r ∷ rs) past = onto rs (r ∷ past)

abbrev PollLaw : Seen → List Reset → List Reset → Seen → Type 0
PollLaw first past rs seen =
    let p = poll rs seen in (p.1 ≡ news first past rs) × Knows p.0 first (onto rs past)

-- The law of one round, for the answers of the poll and of the past
abbrev RoundLaw : Reset → Seen → List Reset → List Reset → Seen → Bool → Bool → Type 0
RoundLaw r first past rs seen a n =
    let now = poll rs (see r seen) in
    let p = if a then (now.0, r ∷ now.1) else poll rs seen in
    let rest = news first (r ∷ past) rs in
    (p.1 ≡ (if n then r ∷ rest else rest)) × Knows p.0 first (onto rs (r ∷ past))

poll_law :
    (rs : List Reset) (seen first : Seen) (past : List Reset)
    → Knows seen first past
    → PollLaw first past rs seen
unfolding poll news
poll_law [] seen first past k = (refl, k)
poll_law (r ∷ rs) seen first past k =
    let law = RoundLaw r first past rs seen in
    let known = k r.file r.time in
    elim (Bool-cases (is_newer r.file r.time first past)) [
      | inl e ↦
          let (h, h2) =
            poll_law rs (see r seen) first (r ∷ past) (see-Knows r seen first past k e) in
          subst (λ a. law a (is_newer r.file r.time first past)) (sym (known ∙ e))
            (subst (λ n. law true n) (sym e) (ap (λ l. r ∷ l) h, h2))
      | inr e ↦
          subst (λ a. law a (is_newer r.file r.time first past)) (sym (known ∙ e))
            (subst (λ n. law false n) (sym e)
              (poll_law rs seen first (r ∷ past) (skip-Knows r seen first past k e)))
    ]

push_if :
    (b : Bool) (r : Reset) (xs ys : List Reset)
    → (if b then r ∷ (xs ++ ys) else xs ++ ys) ≡ (if b then r ∷ xs else xs) ++ ys
push_if true r xs ys = refl
push_if false r xs ys = refl

news-append :
    (first : Seen) (rs more past : List Reset)
    → news first past (rs ++ more) ≡ news first past rs ++ news first (onto rs past) more
unfolding news
news-append first [] more past = refl
news-append first (r ∷ rs) more past =
    let b = is_newer r.file r.time first past in
    ap (λ l. if b then r ∷ l else l) (news-append first rs more (r ∷ past))
    ∙ push_if b r (news first (r ∷ past) rs) (news first (onto rs (r ∷ past)) more)

poll_all-after :
    (scans : List (List Reset)) (seen first : Seen) (past : List Reset)
    → Knows seen first past
    → poll_all scans seen ≡ news first past (all_found scans)
unfolding poll_all news
poll_all-after [] seen first past k = refl
poll_all-after (rs ∷ scans) seen first past k =
    let (h, known) = poll_law rs seen first past k in
    ap (λ l. l ++ poll_all scans (poll rs seen).0) h
    ∙ ap (λ l. news first past rs ++ l)
        (poll_all-after scans (poll rs seen).0 first (onto rs past) known)
    ∙ sym (news-append first rs (all_found scans) past)

-- However the findings are spread over polls: from the map that the polls begin with, a dump that a scan
-- finds is reported exactly when its time is later than the one in that map, if there is one, and than
-- each at which an earlier scan found it. So no reset is missed, none is reported twice, and a
-- dump that is rewritten counts again.
pub poll_all-news :
    (scans : List (List Reset)) (seen : Seen) → poll_all scans seen ≡ news seen [] (all_found scans)
poll_all-news scans seen = poll_all-after scans seen seen [] (λ f t. refl)
