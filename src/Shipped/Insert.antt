-- ===== src/Shipped/Insert.antt =====
-- internal/config/builtin.go: the shipped rules that are inserted, and those that are recorded.
use benchwarmer.Prelude.{
  ℕ, zero, suc, ◌≡◌, refl, ap, Bool, true, false, ◌||◌, List, [], ◌∷◌, ◌++◌, All, String, str_eq,
  eq_iff, if-cases, arith,
}
use benchwarmer.Config.{AppRule}
use benchwarmer.Shipped.{mem, place, insert_at, insert_new, unseen, reserved}

pub str_eq_refl : (k : String) → str_eq k k ≡ true
str_eq_refl k = (eq_iff k k).1 refl

-- The first list's names are in the second.
abbrev pub Within : List String → List String → Type 0
Within xs ys = (k : String) → mem k xs ≡ true → mem k ys ≡ true

abbrev pub HasId : AppRule → Type 0
HasId d = str_eq d.id "" ≡ false

reserved-take_drop :
    (n : ℕ) (d : AppRule) (rules : List AppRule)
    → Within (reserved rules) (reserved (insert_at n d rules))
unfolding reserved
reserved-take_drop zero d rules k h = ground arith
reserved-take_drop (suc n) d [] k h = ground arith
reserved-take_drop (suc n) d (r ∷ rs) k h = ground (arith, reserved-take_drop n d rs k)

pub insert_new-Within :
    (earlier ds : List AppRule) (ids seen : List String) (rules : List AppRule)
    → Within (reserved rules) (reserved (insert_new earlier ds ids seen rules).0)
unfolding insert_new
insert_new-Within earlier [] ids seen rules k h = h
insert_new-Within earlier (d ∷ ds) ids seen rules k h =
    let next = insert_at (place earlier rules) d rules in
    if-cases (λ (o : List AppRule × Bool). mem k (reserved o.0) ≡ true)
      (mem d.id ids || mem d.id seen) (λ _. insert_new-Within (d ∷ earlier) ds ids seen rules k h)
      (λ _.
        insert_new-Within (d ∷ earlier) ds (d.id ∷ ids) seen next k
          (reserved-take_drop (place earlier rules) d rules k h))

All-insert_at {κ} :
    (Q : AppRule → Type κ) (n : ℕ) (d : AppRule) (rules : List AppRule)
    → All Q rules
    → Q d
    → All Q (insert_at n d rules)
All-insert_at Q zero d rules h q = (q, h)
All-insert_at Q (suc n) d [] h q = (q, tt)
All-insert_at Q (suc n) d (r ∷ rs) h q = (h.0, All-insert_at Q n d rs h.1 q)

pub All-insert_new {κ} :
    (Q : AppRule → Type κ) (earlier ds : List AppRule) (ids seen : List String)
    (rules : List AppRule)
    → All Q rules
    → All Q ds
    → All Q (insert_new earlier ds ids seen rules).0
unfolding insert_new
All-insert_new Q earlier [] ids seen rules h q = h
All-insert_new Q earlier (d ∷ ds) ids seen rules h q =
    let next = insert_at (place earlier rules) d rules in
    if-cases (λ (o : List AppRule × Bool). All Q o.0) (mem d.id ids || mem d.id seen)
      (λ _. All-insert_new Q (d ∷ earlier) ds ids seen rules h q.1)
      (λ _.
        All-insert_new Q (d ∷ earlier) ds (d.id ∷ ids) seen next
          (All-insert_at Q (place earlier rules) d rules h q.0) q.1)

pub insert_new_seen :
    (earlier ds : List AppRule) (ids seen : List String) (rules : List AppRule)
    → All (λ d. mem d.id seen ≡ true) ds
    → insert_new earlier ds ids seen rules ≡ (rules, false)
unfolding insert_new
insert_new_seen earlier [] ids seen rules h = refl
insert_new_seen earlier (d ∷ ds) ids seen rules h =
    ground (arith, insert_new_seen (d ∷ earlier) ds ids seen rules h.1)

pub unseen_seen :
    (ds : List AppRule) (seen : List String)
    → All (λ d. mem d.id seen ≡ true) ds
    → unseen ds seen ≡ []
unfolding unseen
unseen_seen [] seen h = refl
unseen_seen (d ∷ ds) seen h = ground (arith, unseen_seen ds seen h.1)

pub append_none : (xs : List String) → xs ++ [] ≡ xs
append_none [] = refl
append_none (x ∷ xs) = ap (λ l. x ∷ l) (append_none xs)

mem-append_left : (k : String) (xs ys : List String) → mem k xs ≡ true → mem k (xs ++ ys) ≡ true
mem-append_left k [] ys h = absurd (ground arith)
mem-append_left k (x ∷ xs) ys h = ground (arith, mem-append_left k xs ys)

mem-append_right : (k : String) (xs ys : List String) → mem k ys ≡ true → mem k (xs ++ ys) ≡ true
mem-append_right k [] ys h = h
mem-append_right k (x ∷ xs) ys h = ground (arith, mem-append_right k xs ys h)

mem-append_cons :
    (k y : String) (xs ys : List String) → mem k (xs ++ ys) ≡ true → mem k (xs ++ (y ∷ ys)) ≡ true
mem-append_cons k y [] ys h = ground arith
mem-append_cons k y (x ∷ xs) ys h = ground (arith, mem-append_cons k y xs ys)

All-cons_seen :
    (y : String) (xs ys : List String) (ds : List AppRule)
    → All (λ d. mem d.id (xs ++ ys) ≡ true) ds
    → All (λ d. mem d.id (xs ++ (y ∷ ys)) ≡ true) ds
All-cons_seen y xs ys [] h = tt
All-cons_seen y xs ys (d ∷ ds) h = (mem-append_cons d.id y xs ys h.0, All-cons_seen y xs ys ds h.1)

-- Each name is seen in the end.
pub unseen_recorded :
    (ds : List AppRule) (seen : List String)
    → All (λ d. mem d.id (seen ++ unseen ds seen) ≡ true) ds
unfolding unseen
unseen_recorded [] seen = tt
unseen_recorded (d ∷ ds) seen =
    if-cases (λ more. All (λ e. mem e.id (seen ++ more) ≡ true) (d ∷ ds)) (mem d.id seen)
      (λ y. (mem-append_left d.id seen (unseen ds seen) y, unseen_recorded ds seen))
      (λ _. (
        mem-append_right d.id seen (d.id ∷ unseen ds seen) (ground (arith, str_eq_refl d.id)),
        All-cons_seen d.id seen (unseen ds seen) ds (unseen_recorded ds seen),
      ))
