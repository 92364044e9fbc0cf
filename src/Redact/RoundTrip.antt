-- ===== src/Redact/RoundTrip.antt =====
-- internal/config/redact.go: what a client reads redacted and sends back is restored.
use benchwarmer.Prelude.{◌≡◌, Bool, false, List, [], ◌∷◌, All, none, some, arith}
use benchwarmer.Redact.{Text, entries, secret_of, redact_args, restore_redacted}
use benchwarmer.Redact.Cut.{same_refl}
use benchwarmer.Redact.Restore.{IsPlain, IsKnown, restored}

-- No name stands twice.
abbrev pub AreDistinct : List (Text × Text) → Type 0
AreDistinct [] = Unit
AreDistinct (x ∷ m) = (secret_of x.0 m ≡ none) × AreDistinct m

secret_of_first :
    (x : Text × Text) (m : List (Text × Text))
    → secret_of x.0 m ≡ none
    → secret_of x.0 (x ∷ m) ≡ some x.1
unfolding secret_of
secret_of_first x m h = ground (arith, same_refl x.0)

secret_of_later :
    (x : Text × Text) (m : List (Text × Text)) (name val : Text)
    → secret_of name m ≡ some val
    → secret_of name (x ∷ m) ≡ some val
unfolding secret_of
secret_of_later x m name val h = ground arith

IsKnown-later :
    (x : Text × Text) (m ys : List (Text × Text)) → All (IsKnown m) ys → All (IsKnown (x ∷ m)) ys
IsKnown-later x m [] h = tt
IsKnown-later x m (y ∷ ys) h = (secret_of_later x m y.0 y.1 h.0, IsKnown-later x m ys h.1)

AreDistinct-IsKnown : (m : List (Text × Text)) → AreDistinct m → All (IsKnown m) m
AreDistinct-IsKnown [] d = tt
AreDistinct-IsKnown (x ∷ m) d =
    (secret_of_first x m d.0, IsKnown-later x m m (AreDistinct-IsKnown m d.1))

-- If no argument reads as masked already, and no flag with a value stands twice, then the redacted
-- arguments, sent back, are restored to what they were.
pub restore-redact :
    (secret_flag : Text → Bool) (args : List Text)
    → All IsPlain args
    → AreDistinct (entries args)
    → restore_redacted (redact_args secret_flag args) args ≡ args
unfolding restore_redacted redact_args
restore-redact secret_flag args plain distinct =
    restored (entries args) secret_flag false none args plain
      (AreDistinct-IsKnown (entries args) distinct) tt
