-- ===== src/Redact/Samples.antt =====
-- Arguments with two secrets, and arguments with one flag twice.
use benchwarmer.Prelude.{◌≡◌, refl, Bool, List, [], ◌∷◌, ◌||◌}
use benchwarmer.Platform.{codes, same}
use benchwarmer.Redact.{
  redacted, Text, cut_at_equals, entries, secret_of, redact_args, restore_redacted,
}
use benchwarmer.Redact.RoundTrip.{restore-redact}

abbrev secret_flag : Text → Bool
secret_flag name = same name (codes "--api-key") || same name (codes "--token")

abbrev arguments : List Text
arguments = codes "--api-key" ∷ codes "k1" ∷ codes "--port" ∷ codes "80" ∷ codes "--token=t1" ∷ []

hidden :
    redact_args secret_flag arguments
    ≡ codes "--api-key" ∷ redacted ∷ codes "--port" ∷ codes "80" ∷ codes "--token=<redacted>" ∷ []
unfolding redact_args
hidden = refl

-- With one flag twice both values become the later one.
twice :
    let args = codes "--api-key" ∷ codes "k1" ∷ codes "--api-key" ∷ codes "k2" ∷ [] in
    restore_redacted (redact_args secret_flag args) args
    ≡ codes "--api-key" ∷ codes "k2" ∷ codes "--api-key" ∷ codes "k2" ∷ []
unfolding redact_args restore_redacted
twice = refl

restore-redact_example : restore_redacted (redact_args secret_flag arguments) arguments ≡ arguments
unfolding cut_at_equals entries secret_of same
restore-redact_example =
    restore-redact secret_flag arguments (refl, (refl, (refl, (refl, (refl, tt)))))
      (refl, (refl, (refl, tt)))
