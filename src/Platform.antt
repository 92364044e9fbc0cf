-- ===== src/Platform.antt =====
-- What the program takes from outside the repository: the processor's floating-point numbers, the
-- lower case of a code point, and the time zone database.
pub mod Plain
use Prim.Native.Char.{code}
use benchwarmer.Prelude.{ℕ, Bool, true, false, List, [], ◌∷◌, ◌&&◌, Option, String, ◌==◌}

-- The code points of a text.
abbrev pub codes : String → List ℕ
codes String.[] = []
codes (String.◌∷◌ c s) = code c ∷ codes s

-- Two texts as code points are the same.
unfoldable pub same : List ℕ → List ℕ → Bool
same [] [] = true
same (c ∷ cs) (d ∷ ds) = c == d && same cs ds
same _ _ = false

-- A wall-clock reading; Sunday is weekday 0.
pub record LocalTime : Type 0 where
  pub weekday : ℕ
  pub hour : ℕ
  pub minute : ℕ

pub record Platform : Type 1 where
  pub Float : Type 0
  pub float_le : Float → Float → Bool
  pub float_lt : Float → Float → Bool
  pub float_eq : Float → Float → Bool
  pub float_add : Float → Float → Float
  pub float_sub : Float → Float → Float
  pub float_mul : Float → Float → Float
  pub float_div : Float → Float → Float
  pub of_int : ℕ → Float
  pub to_int : Float → ℕ
  -- `unicode.ToLower`
  pub to_lower : ℕ → ℕ
  -- `time.LoadLocation`, with `Time.In`; an instant is in nanoseconds since the zero `time.Time`
  pub load_location : String → Option (ℕ → LocalTime)
