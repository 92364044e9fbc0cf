-- ===== src/Gguf/Samples.antt =====
-- A header with one key.
use benchwarmer.Prelude.{◌≡◌, refl, List, [], ◌∷◌, ◌++◌, ℕ, take}
use benchwarmer.Platform.{codes}
use benchwarmer.Gguf.Reader.{
  truncated, max_header_bytes, ◌>>=◌, bytes, u32, u64, str, little_endian,
}
use benchwarmer.Gguf.Parse.{
  Outcome, refused, found, parse, entries, entry, value, of_tables, wanted,
}
use benchwarmer.Gguf.Budget.{parse_budget}

abbrev le4 : ℕ → List ℕ
le4 n = n ∷ 0 ∷ 0 ∷ 0 ∷ []

abbrev le8 : ℕ → List ℕ
le8 n = le4 n ++ le4 0

-- Version 3, two tensors, one key of 12 bytes, and then what is given.
abbrev named : List ℕ → List ℕ
named rest =
    codes "GGUF"
    ++ (le4 3 ++ (le8 2 ++ (le8 1 ++ (le8 12 ++ (codes "general.name" ++ (le4 8 ++ rest))))))

abbrev name_of : Outcome → List ℕ
name_of (found m) = m.name
name_of (refused e) = []

reads_the_name : name_of (parse (named (le8 2 ++ codes "m1"))) ≡ codes "m1"
unfolding parse ◌>>=◌ bytes u32 u64 str entries entry value of_tables wanted little_endian
reads_the_name = refl

ends_too_soon : parse (named (le8 3 ++ codes "m1")) ≡ refused truncated
unfolding parse ◌>>=◌ bytes u32 u64 str entries entry value of_tables wanted little_endian
ends_too_soon = refl

parse_budget_example :
    parse (named (le8 2 ++ codes "m1"))
    ≡ parse (take max_header_bytes (named (le8 2 ++ codes "m1")))
parse_budget_example = parse_budget (named (le8 2 ++ codes "m1"))
