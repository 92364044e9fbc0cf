-- ===== src/Redact/Cut.antt =====
-- internal/config/redact.go: how an argument is cut into its flag and its value.
use benchwarmer.Prelude.{
  ℕ, ◌==◌, ◌≡◌, inl, inr, refl, ap, subst, ◌∙◌, true, false, [], ◌∷◌, some, Bool-cases,
  Option-cases, arith,
}
use benchwarmer.Platform.{same}
use benchwarmer.Redact.{Text, starts_with_dash, cut_at_equals, with_value}

pub same_refl : (s : Text) → same s s ≡ true
unfolding same
same_refl [] = refl
same_refl (c ∷ s) = ground (arith, same_refl s)

pub same-eq : (s t : Text) → same s t ≡ true → s ≡ t
unfolding same
same-eq [] [] h = refl
same-eq [] (d ∷ t) h = absurd (ground arith)
same-eq (c ∷ s) [] h = absurd (ground arith)
same-eq (c ∷ s) (d ∷ t) h = ground (arith, same-eq s t)

-- There is no `=` in the text.
abbrev HasNoEquals : Text → Type 0
HasNoEquals [] = Unit
HasNoEquals (c ∷ s) = ((c == b'=') ≡ false) × HasNoEquals s

abbrev IsCut : Text → Text × Text → Type 0
IsCut a x = (with_value x.0 x.1 ≡ a) × HasNoEquals x.0

cons-IsCut :
    (c : ℕ) (s : Text) (x : Text × Text)
    → (c == b'=') ≡ false
    → IsCut s x
    → IsCut (c ∷ s) (c ∷ x.0, x.1)
cons-IsCut c s x n (e, h) = (ap (λ l. c ∷ l) e, (n, h))

-- A text is the name, the `=` and the value that it is cut into.
pub cut_at_equals-IsCut : (a : Text) (x : Text × Text) → cut_at_equals a ≡ some x → IsCut a x
unfolding cut_at_equals
cut_at_equals-IsCut [] x h = absurd (ground arith)
cut_at_equals-IsCut (c ∷ s) x h = elim (Bool-cases (c == b'=')) [
  | inl y ↦ subst (IsCut (c ∷ s)) {x = ([], s)} {y = x} (ground arith) (ground arith, tt)
  | inr n ↦ elim (Option-cases (cut_at_equals s)) [
    | inl none_left ↦ absurd (ground arith)
    | inr (z, e) ↦
        subst (IsCut (c ∷ s)) {x = (c ∷ z.0, z.1)} {y = x} (ground arith)
          (cons-IsCut c s z n (cut_at_equals-IsCut s z e))
  ]
]

pub cut-with_value :
    (name val : Text) → HasNoEquals name → cut_at_equals (with_value name val) ≡ some (name, val)
unfolding cut_at_equals
cut-with_value [] val h = refl
cut-with_value (c ∷ s) val h = ground (arith, cut-with_value s val h.1)

pub dash_of_name :
    (a name val : Text)
    → with_value name val ≡ a
    → starts_with_dash a ≡ true
    → starts_with_dash name ≡ true
unfolding starts_with_dash
dash_of_name a [] val e h = absurd (ground (arith, ap starts_with_dash e))
dash_of_name a (c ∷ s) val e h = ap starts_with_dash e ∙ h
