-- ===== src/Redact.antt =====
-- internal/config/redact.go: the secrets among the arguments of the runtime. Texts are lists of bytes.
pub mod Cut
pub mod Restore
pub mod RoundTrip
mod Samples
use benchwarmer.Prelude.{
  ℕ, ◌==◌, Bool, true, false, not, ◌&&◌, ◌||◌, List, [], ◌∷◌, ◌++◌, Option, none, some,
  if◌then◌else◌,
}
use benchwarmer.Platform.{codes, same}

abbrev pub Text : Type 0
Text = List ℕ

abbrev pub redacted : Text
redacted = codes "<redacted>"

unfoldable pub starts_with_dash : Text → Bool
starts_with_dash [] = false
starts_with_dash (c ∷ s) = c == b'-'

-- `strings.Cut` at the first `=`; none where there is no `=`.
unfoldable pub cut_at_equals : Text → Option (Text × Text)
cut_at_equals [] = none
cut_at_equals (c ∷ s) =
    let rest = cut_at_equals s in
    if c == b'='
    then some ([], s)
    else elim rest [ none ↦ none | some (name, val) ↦ some (c ∷ name, val) ]

unfoldable pub ends_with : Text → Text → Bool
unfolding same
ends_with suffix [] = same suffix []
ends_with suffix (c ∷ s) = same suffix (c ∷ s) || ends_with suffix s

abbrev pub is_empty : Text → Bool
is_empty [] = true
is_empty (c ∷ s) = false

abbrev pub with_value : Text → Text → Text
with_value name val = name ++ (b'=' ∷ val)

-- The flags with their values, as `RestoreRedacted` collects them
abbrev pub value_after : Text → List Text → List (Text × Text)
value_after name [] = []
value_after name (b ∷ rest) = if starts_with_dash b then [] else (name, b) ∷ []

abbrev pub entry_of : Text → Option (Text × Text) → List Text → List (Text × Text)
entry_of a none rest = if starts_with_dash a then value_after a rest else []
entry_of a (some (name, val)) rest = if starts_with_dash name then (name, val) ∷ [] else []

unfoldable pub entries : List Text → List (Text × Text)
unfolding cut_at_equals starts_with_dash
entries [] = []
entries (a ∷ rest) = entry_of a (cut_at_equals a) rest ++ entries rest

-- A later entry of a name stands for the earlier ones.
unfoldable pub secret_of : Text → List (Text × Text) → Option Text
unfolding same
secret_of name [] = none
secret_of name ((j, val) ∷ m) = elim (secret_of name m) [
  | some v ↦ some v
  | none ↦ if same j name then some val else none
]

abbrev pub is_alone : Option (Text × Text) → Bool
is_alone none = true
is_alone (some x) = false

module _ (secret_flag : Text → Bool) where
  -- The expression of `secretFlag` matches, and the flag names no file.
  unfoldable pub names_secret : Text → Bool
  unfolding ends_with
  names_secret name =
      secret_flag name
      && not (ends_with (codes "-file") name)
      && not (ends_with (codes "-path") name)

  abbrev pub mask_value : Text → Option (Text × Text) → Text
  mask_value a none = a
  mask_value a (some (name, val)) =
      if names_secret name && not (is_empty val) then with_value name redacted else a

  -- The argument with the value that it holds itself masked
  unfoldable pub mask_own : Text → Text
  unfolding starts_with_dash cut_at_equals names_secret
  mask_own a = if starts_with_dash a then mask_value a (cut_at_equals a) else a

  -- Whether the next argument is the value of this one, a secret
  unfoldable pub awaits_value : Text → Bool
  unfolding starts_with_dash cut_at_equals names_secret
  awaits_value a = starts_with_dash a && is_alone (cut_at_equals a) && names_secret a

  -- `awaited` tells whether the argument before awaits its value.
  unfoldable pub redact_from : Bool → List Text → List Text
  unfolding mask_own awaits_value
  redact_from awaited [] = []
  redact_from awaited (a ∷ rest) =
      let masked = awaited && not (starts_with_dash a) in
      (if masked then redacted else mask_own a) ∷ redact_from (not masked && awaits_value a) rest

  -- `RedactArgs`
  unfoldable pub redact_args : List Text → List Text
  unfolding redact_from
  redact_args args = redact_from false args

abbrev pub or_keep : Text → Option Text → Text
or_keep a none = a
or_keep a (some v) = v

abbrev pub secret_after : Option Text → List (Text × Text) → Option Text
secret_after none secrets = none
secret_after (some prev) secrets = secret_of prev secrets

abbrev pub with_secret : Text → Text → Option Text → Text
with_secret a name none = a
with_secret a name (some v) = with_value name v

abbrev pub restore_alone : List (Text × Text) → Option Text → Text → Text
restore_alone secrets prev a = if same a redacted then or_keep a (secret_after prev secrets) else a

abbrev pub restore_cut : List (Text × Text) → Option Text → Text → Option (Text × Text) → Text
restore_cut secrets prev a none = restore_alone secrets prev a
restore_cut secrets prev a (some (name, val)) =
    if same val redacted
    then with_secret a name (secret_of name secrets)
    else restore_alone secrets prev a

-- `prev` is the argument before, as it was restored.
unfoldable pub restore_from : List (Text × Text) → Option Text → List Text → List Text
unfolding cut_at_equals same secret_of
restore_from secrets prev [] = []
restore_from secrets prev (a ∷ rest) =
    let b = restore_cut secrets prev a (cut_at_equals a) in b ∷ restore_from secrets (some b) rest

-- The arguments that `RestoreRedacted` makes of the incoming ones and the old ones
unfoldable pub restore_redacted : List Text → List Text → List Text
unfolding restore_from entries
restore_redacted incoming old = restore_from (entries old) none incoming
