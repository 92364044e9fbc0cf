-- ===== src/Redact/Restore.antt =====
-- internal/config/redact.go: each argument is restored.
use benchwarmer.Prelude.{
  ◌≡◌, inl, inr, refl, sym, ap, subst, ◌∙◌, Bool, true, false, not, ◌&&◌, ◌||◌, List, [], ◌∷◌, ◌++◌,
  All, Option, none, some, if◌then◌else◌, Bool-cases, Option-cases, if-cases, arith,
}
use benchwarmer.Platform.{same}
use benchwarmer.Redact.{
  Text, redacted, starts_with_dash, cut_at_equals, is_empty, with_value, entry_of, entries,
  secret_of, names_secret, mask_value, mask_own, awaits_value, redact_from, restore_alone,
  restore_cut, with_secret, restore_from, secret_after, is_alone, or_keep,
}
use benchwarmer.Redact.Cut.{same_refl, cut_at_equals-IsCut, cut-with_value, dash_of_name}

-- The text, or the value that it holds, reads as masked.
abbrev pub has_mask : Text → Option (Text × Text) → Bool
has_mask a none = same a redacted
has_mask a (some (name, val)) = same a redacted || same val redacted

abbrev pub IsPlain : Text → Type 0
IsPlain a = has_mask a (cut_at_equals a) ≡ false

All-append_left {κ} :
    (Q : Text × Text → Type κ) (xs ys : List (Text × Text)) → All Q (xs ++ ys) → All Q xs
All-append_left Q [] ys h = tt
All-append_left Q (x ∷ xs) ys h = (h.0, All-append_left Q xs ys h.1)

All-append_right {κ} :
    (Q : Text × Text → Type κ) (xs ys : List (Text × Text)) → All Q (xs ++ ys) → All Q ys
All-append_right Q [] ys h = h
All-append_right Q (x ∷ xs) ys h = All-append_right Q xs ys h.1

module _ (secrets : List (Text × Text)) where
  abbrev pub IsKnown : Text × Text → Type 0
  IsKnown x = secret_of x.0 secrets ≡ some x.1

  restore_plain :
      (prev : Option Text) (a : Text) (x : Option (Text × Text))
      → has_mask a x ≡ false
      → restore_cut secrets prev a x ≡ a
  restore_plain prev a none h = ground arith
  restore_plain prev a (some (name, val)) h = ground arith

  restore_masked :
      (prev : Option Text) (a name val : Text)
      → cut_at_equals a ≡ some (name, val)
      → IsKnown (name, val)
      → restore_cut secrets prev
          (with_value name redacted)
          (cut_at_equals (with_value name redacted))
        ≡ a
  restore_masked prev a name val e k =
      let (whole, none_there) = cut_at_equals-IsCut a (name, val) e in
      let masked = with_value name redacted in
      ap (restore_cut secrets prev masked) (cut-with_value name redacted none_there)
      ∙ ap
          (λ b.
            if b
            then with_secret masked name (secret_of name secrets)
            else restore_alone secrets prev masked)
          (same_refl redacted)
      ∙ ap (with_secret masked name) k
      ∙ whole

  IsKnown-value :
      (a name val : Text) (rest : List Text)
      → starts_with_dash name ≡ true
      → All IsKnown (entry_of a (some (name, val)) rest)
      → IsKnown (name, val)
  IsKnown-value a name val rest d known =
      (subst (λ b. All IsKnown (if b then (name, val) ∷ [] else [])) d known).0

  IsKnown-next :
      (a b : Text) (rest : List Text)
      → starts_with_dash a ≡ true
      → starts_with_dash b ≡ false
      → All IsKnown (entry_of a none (b ∷ rest))
      → IsKnown (a, b)
  IsKnown-next a b rest d n known =
      (subst (λ t. All IsKnown (if t then [] else (a, b) ∷ [])) n
        (subst
          (λ t. All IsKnown (if t then (if starts_with_dash b then [] else (a, b) ∷ []) else [])) d
          known)).0

  module _ (secret_flag : Text → Bool) where
    restore_own :
        (prev : Option Text) (a : Text) (rest : List Text)
        → IsPlain a
        → All IsKnown (entry_of a (cut_at_equals a) rest)
        → restore_cut secrets prev (mask_own secret_flag a) (cut_at_equals (mask_own secret_flag a))
          ≡ a
    unfolding mask_own
    restore_own prev a rest plain known =
        let R = λ (t : Text). restore_cut secrets prev t (cut_at_equals t) ≡ a in
        let as_it_is = restore_plain prev a (cut_at_equals a) plain in
        if-cases R (starts_with_dash a)
          (λ d. elim (Option-cases (cut_at_equals a)) [
            | inl n ↦ subst (λ o. R (mask_value secret_flag a o)) (sym n) as_it_is
            | inr ((name, val), e) ↦
                subst (λ o. R (mask_value secret_flag a o)) (sym e)
                  (if-cases R (names_secret secret_flag name && not (is_empty val))
                    (λ _. restore_masked prev a name val e (
                      IsKnown-value a name val rest
                        (dash_of_name a name val (cut_at_equals-IsCut a (name, val) e).0 d)
                        (subst (λ o. All IsKnown (entry_of a o rest)) e known)))
                    (λ _. as_it_is))
          ])
          (λ _. as_it_is)

    -- What is known of the argument before, where it awaits its value
    abbrev Owed : Bool → Option Text → List Text → Type 0
    Owed false prev args = Unit
    Owed true prev [] = Unit
    Owed true prev (b ∷ rest) = starts_with_dash b ≡ false → secret_after prev secrets ≡ some b

    if_awaited :
        (t : Bool) (prev : Option Text) (args : List Text)
        → (t ≡ true → Owed true prev args)
        → Owed t prev args
    if_awaited false prev args h = tt
    if_awaited true prev args h = h refl

    Owed-value :
        (awaited : Bool) (prev : Option Text) (b : Text) (rest : List Text)
        → awaited ≡ true
        → Owed awaited prev (b ∷ rest)
        → starts_with_dash b ≡ false
        → secret_after prev secrets ≡ some b
    Owed-value true prev b rest e owed n = owed n
    Owed-value false prev b rest e owed n = absurd (ground arith)

    awaits-Owed :
        (a : Text) (rest : List Text) (x : Option (Text × Text))
        → starts_with_dash a ≡ true
        → is_alone x ≡ true
        → All IsKnown (entry_of a x rest)
        → Owed true (some a) rest
    awaits-Owed a [] x d alone known = tt
    awaits-Owed a (b ∷ rest) none d alone known = λ n. IsKnown-next a b rest d n known
    awaits-Owed a (b ∷ rest) (some x) d alone known = absurd (ground arith)

    awaits_dash :
        (a : Text)
        → awaits_value secret_flag a ≡ true
        → (starts_with_dash a ≡ true) × (is_alone (cut_at_equals a) ≡ true)
    unfolding awaits_value
    awaits_dash a h = ground arith

    restored_cons :
        (awaited : Bool) (prev : Option Text) (a t : Text) (rest : List Text)
        → restore_cut secrets prev t (cut_at_equals t) ≡ a
        → restore_from secrets (some a) (redact_from secret_flag awaited rest) ≡ rest
        → restore_from secrets prev (t ∷ redact_from secret_flag awaited rest) ≡ a ∷ rest
    unfolding restore_from
    restored_cons awaited prev a t rest r ih =
        ap (λ b. b ∷ restore_from secrets (some b) (redact_from secret_flag awaited rest)) r
        ∙ ap (λ l. a ∷ l) ih

    restore_value :
        (prev : Option Text) (a : Text)
        → secret_after prev secrets ≡ some a
        → restore_cut secrets prev redacted (cut_at_equals redacted) ≡ a
    unfolding cut_at_equals same
    restore_value prev a e = ap (or_keep redacted) e

    restored_none : (prev : Option Text) → restore_from secrets prev [] ≡ []
    unfolding restore_from
    restored_none prev = refl

    pub restored :
        (awaited : Bool) (prev : Option Text) (args : List Text)
        → All IsPlain args
        → All IsKnown (entries args)
        → Owed awaited prev args
        → restore_from secrets prev (redact_from secret_flag awaited args) ≡ args
    unfolding redact_from entries
    restored awaited prev [] plain known owed = restored_none prev
    restored awaited prev (a ∷ rest) plain known owed =
        let masked = awaited && not (starts_with_dash a) in
        let here =
          All-append_left IsKnown (entry_of a (cut_at_equals a) rest) (entries rest) known in
        let later =
          All-append_right IsKnown (entry_of a (cut_at_equals a) rest) (entries rest) known in
        let next = if_awaited (awaits_value secret_flag a) (some a) rest (λ w.
          awaits-Owed a rest (cut_at_equals a) (awaits_dash a w).0 (awaits_dash a w).1 here) in
        let G = λ (m : Bool).
          restore_from secrets prev (
            (if m then redacted else mask_own secret_flag a)
            ∷ redact_from secret_flag (not m && awaits_value secret_flag a) rest)
          ≡ a ∷ rest in
        elim (Bool-cases masked) [
          | inl y ↦ subst G (sym y) (
              restored_cons false prev a redacted rest
                (restore_value prev a
                  (Owed-value awaited prev a rest (ground arith) owed (ground arith)))
                (restored false (some a) rest plain.1 later tt))
          | inr n ↦ subst G (sym n) (
              restored_cons (awaits_value secret_flag a) prev a (mask_own secret_flag a) rest
                (restore_own prev a rest plain.0 here)
                (restored (awaits_value secret_flag a) (some a) rest plain.1 later next))
        ]
