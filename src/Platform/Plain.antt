-- ===== src/Platform/Plain.antt =====
-- A concrete platform for tests: numbers without fractions, ASCII lower case, and one zone, "UTC".
use benchwarmer.Prelude.{
  ℕ, ◌+◌, ◌-◌, ◌*◌, ◌/◌, ◌%◌, ltb, leb, ◌==◌, ◌&&◌, if◌then◌else◌, none, some, str_eq,
}
use benchwarmer.Platform.{Platform, LocalTime}

-- The first day of the year 1 was a Monday.
abbrev pub utc : ℕ → LocalTime
utc now = record {
  weekday = (now / 86_400_000_000_000 + 1) % 7;
  hour = now / 3_600_000_000_000 % 24;
  minute = now / 60_000_000_000 % 60;
}

abbrev pub plain : Platform
plain = record {
  Float = ℕ;
  float_le = leb;
  float_lt = ltb;
  float_eq = λ a b. a == b;
  float_add = λ a b. a + b;
  float_sub = λ a b. a - b;
  float_mul = λ a b. a * b;
  float_div = λ a b. a / b;
  of_int = λ n. n;
  to_int = λ n. n;
  to_lower = λ c. if leb b'A' c && leb c b'Z' then c + 32 else c;
  load_location = λ name. if str_eq name "UTC" then some utc else none;
}
