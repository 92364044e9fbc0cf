-- ===== src/Shipped/Adopt.antt =====
-- internal/config/builtin.go: the rules without an id that are taken to be shipped ones.
use benchwarmer.Prelude.{
  ℕ, ◌≡◌, ◌⊎◌, inl, inr, refl, sym, ap, subst, Bool, true, false, ◌||◌, List, [], ◌∷◌, All, Option,
  none, some, String, str_eq, Bool-cases, Option-cases, arith,
}
use benchwarmer.Platform.{Platform, codes, same}
use benchwarmer.Config.{AppRule}
use benchwarmer.Shipped.{
  mem, reserved, builtin_id, shipped_id, new_id, taken, if_free, with_id, is_taken, adopt,
}
use benchwarmer.Shipped.Insert.{str_eq_refl, Within, HasId}

if_free-Within :
    (xs ys : List String) (o : Option String)
    → Within xs ys
    → if_free xs o ≡ none
    → if_free ys o ≡ none
if_free-Within xs ys none w h = refl
if_free-Within xs ys (some id) w h = ground (arith, w id)

-- After an id is taken it is not free.
if_free_again :
    (ids : List String) (o : Option String) → if_free (with_id ids (if_free ids o)) o ≡ none
if_free_again ids none = refl
if_free_again ids (some id) = ground (arith, str_eq_refl id)

with_id-Within : (ids : List String) (o : Option String) → Within ids (with_id ids o)
with_id-Within ids none k h = h
with_id-Within ids (some id) k h = ground arith

module _ (P : Platform) (shipped : List AppRule) where
  -- The rule keeps its id where these ids are taken.
  abbrev pub Keeps : List String → AppRule → Type 0
  Keeps ids r = new_id P shipped ids r ≡ none

  pub Keeps-Within : (xs ys : List String) (r : AppRule) → Within xs ys → Keeps xs r → Keeps ys r
  unfolding new_id
  Keeps-Within xs ys r w h =
      ground (arith, if_free-Within xs ys (shipped_id P (builtin_id P r) shipped) w)

  pub named-Keeps : (ids : List String) (r : AppRule) → str_eq r.id "" ≡ false → Keeps ids r
  unfolding new_id
  named-Keeps ids r h = ground arith

  pub adopt_kept :
      (ids : List String) (rules : List AppRule)
      → All (Keeps ids) rules
      → adopt P shipped ids rules ≡ (rules, (ids, false))
  unfolding adopt
  adopt_kept ids [] h = refl
  adopt_kept ids (r ∷ rs) (keep, h) =
      subst
        (λ o.
          ◌≡◌ {A = List AppRule × (List String × Bool)}
            (
              taken r o ∷ (adopt P shipped (with_id ids o) rs).0,
              (
                (adopt P shipped (with_id ids o) rs).1.0,
                is_taken o || (adopt P shipped (with_id ids o) rs).1.1,
              ),
            )
            (r ∷ rs, (ids, false)))
        (sym keep)
        (ap (λ (s : List AppRule × (List String × Bool)). (r ∷ s.0, s.1)) (adopt_kept ids rs h))

  adopt-Within :
      (ids : List String) (rules : List AppRule) → Within ids (adopt P shipped ids rules).1.0
  unfolding adopt
  adopt-Within ids [] k h = h
  adopt-Within ids (r ∷ rs) k h =
      adopt-Within (with_id ids (new_id P shipped ids r)) rs k
        (with_id-Within ids (new_id P shipped ids r) k h)

  shipped_id-HasId :
      (t : List ℕ) (ds : List AppRule) (id : String)
      → All HasId ds
      → shipped_id P t ds ≡ some id
      → str_eq id "" ≡ false
  unfolding shipped_id
  shipped_id-HasId t [] id all h = absurd (ground arith)
  shipped_id-HasId t (d ∷ ds) id all h = elim (Bool-cases (same (codes d.id) t)) [
    | inl y ↦ subst (λ k. str_eq k "" ≡ false) {x = d.id} {y = id} (ground arith) all.0
    | inr n ↦ shipped_id-HasId t ds id all.1 (ground arith)
  ]

  if_free-some :
      (ids : List String) (o : Option String) (id : String) → if_free ids o ≡ some id → o ≡ some id
  if_free-some ids none id h = h
  if_free-some ids (some k) id h = ground arith

  new_id-HasId :
      (ids : List String) (r : AppRule) (id : String)
      → All HasId shipped
      → new_id P shipped ids r ≡ some id
      → str_eq id "" ≡ false
  unfolding new_id
  new_id-HasId ids r id all h =
      let t = builtin_id P r in
      shipped_id-HasId t shipped id all
        (if_free-some ids (shipped_id P t shipped) id (ground arith))

  taken-Keeps :
      (ids : List String) (r : AppRule)
      → All HasId shipped
      → Keeps (with_id ids (new_id P shipped ids r)) (taken r (new_id P shipped ids r))
  taken-Keeps ids r all = elim (Option-cases (new_id P shipped ids r)) [
    | inl e ↦ subst (λ o. Keeps (with_id ids o) (taken r o)) (sym e) e
    | inr (id, e) ↦
        subst (λ o. Keeps (with_id ids o) (taken r o)) (sym e)
          (named-Keeps (id ∷ ids) (record r { id = id }) (new_id-HasId ids r id all e))
  ]

  pub adopt-Keeps :
      (ids : List String) (rules : List AppRule)
      → All HasId shipped
      → All (Keeps (adopt P shipped ids rules).1.0) (adopt P shipped ids rules).0
  unfolding adopt
  adopt-Keeps ids [] all = tt
  adopt-Keeps ids (r ∷ rs) all =
      let o = new_id P shipped ids r in
      (
        Keeps-Within (with_id ids o) (adopt P shipped (with_id ids o) rs).1.0 (taken r o)
            (adopt-Within (with_id ids o) rs) (taken-Keeps ids r all),
        adopt-Keeps (with_id ids o) rs all,
      )

  -- The ids that are taken in the end stand in the file.
  reserved-taken :
      (k : String) (ids : List String) (r : AppRule) (rest : List AppRule) (o : Option String)
      → ((id : String) → o ≡ some id → str_eq id "" ≡ false)
      → (mem k (with_id ids o) ≡ true) ⊎ (mem k (reserved rest) ≡ true)
      → (mem k ids ≡ true) ⊎ (mem k (reserved (taken r o ∷ rest)) ≡ true)
  unfolding reserved
  reserved-taken k ids r rest none named (inl h) = inl h
  reserved-taken k ids r rest none named (inr h) = inr (ground arith)
  reserved-taken k ids r rest (some id) named (inr h) = inr (ground arith)
  reserved-taken k ids r rest (some id) named (inl h) = elim (Bool-cases (str_eq k id)) [
    | inl y ↦ inr (ground (arith, named id refl))
    | inr n ↦ inl (ground arith)
  ]

  pub adopt-reserved :
      (k : String) (ids : List String) (rules : List AppRule)
      → All HasId shipped
      → mem k (adopt P shipped ids rules).1.0 ≡ true
      → (mem k ids ≡ true) ⊎ (mem k (reserved (adopt P shipped ids rules).0) ≡ true)
  unfolding adopt
  adopt-reserved k ids [] all h = inl h
  adopt-reserved k ids (r ∷ rs) all h =
      let o = new_id P shipped ids r in
      reserved-taken k ids r (adopt P shipped (with_id ids o) rs).0 o
        (λ id e. new_id-HasId ids r id all e) (adopt-reserved k (with_id ids o) rs all h)

  reserved-taken_cons :
      (k : String) (r : AppRule) (rs rest : List AppRule) (o : Option String)
      → ((id : String) → o ≡ some id → str_eq r.id "" ≡ true)
      → (mem k (reserved rs) ≡ true → mem k (reserved rest) ≡ true)
      → mem k (reserved (r ∷ rs)) ≡ true
      → mem k (reserved (taken r o ∷ rest)) ≡ true
  unfolding reserved
  reserved-taken_cons k r rs rest none nameless w h = ground (arith, w)
  reserved-taken_cons k r rs rest (some id) nameless w h = ground (arith, w, nameless id refl)

  new_id-nameless :
      (ids : List String) (r : AppRule) (id : String)
      → new_id P shipped ids r ≡ some id
      → str_eq r.id "" ≡ true
  unfolding new_id
  new_id-nameless ids r id h = ground arith

  pub reserved-adopt :
      (ids : List String) (rules : List AppRule)
      → Within (reserved rules) (reserved (adopt P shipped ids rules).0)
  unfolding adopt
  reserved-adopt ids [] k h = h
  reserved-adopt ids (r ∷ rs) k h =
      let o = new_id P shipped ids r in
      reserved-taken_cons k r rs (adopt P shipped (with_id ids o) rs).0 o
        (λ id e. new_id-nameless ids r id e) (reserved-adopt (with_id ids o) rs k) h
