-- ===== src/Classify.antt =====
-- internal/classify/classify.go: which application rule a process matches. Texts are lists of code
-- points.
pub mod Glob
pub mod Match
pub mod First
mod Samples
use benchwarmer.Prelude.{
  ℕ, ◌==◌, Bool, true, false, not, ◌&&◌, List, [], ◌∷◌, ◌++◌, map, Option, none, some, String,
  str_eq, if◌then◌else◌,
}
use benchwarmer.Platform.{Platform, codes, same}
use benchwarmer.Config.{AppRule}
use benchwarmer.Policy.Evaluate.{has_prefix}
use Glob.{glob_match}

-- A rule with its texts in normal form; an empty text stands for no condition.
pub record Rule : Type 0 where
  pub name : List ℕ
  pub class : String
  pub exe : List ℕ
  pub path : List ℕ
  pub prefix : List ℕ
  pub glob : List ℕ

abbrev pub is_empty : List ℕ → Bool
is_empty [] = true
is_empty _ = false

unfoldable pub rule_name : AppRule → List ℕ
rule_name r =
    if not (str_eq r.name "")
    then codes r.name
    else if not (str_eq r.exe "")
    then codes "exe:" ++ codes r.exe
    else if not (str_eq r.path "")
    then codes "path:" ++ codes r.path
    else if not (str_eq r.path_prefix "")
    then codes "path_prefix:" ++ codes r.path_prefix
    else codes "glob:" ++ codes r.glob

-- What follows the last slash, if there is one.
unfoldable pub after_slash : List ℕ → Option (List ℕ)
after_slash [] = none
after_slash (c ∷ s) = elim (after_slash s) [
  | some rest ↦ some rest
  | none ↦ if c == b'/' then some s else none
]

abbrev or_all : List ℕ → Option (List ℕ) → List ℕ
or_all s none = s
or_all s (some rest) = rest

abbrev is_yes : Option Bool → Bool
is_yes (some b) = b
is_yes none = false

module _ (P : Platform) where
  -- Lower case, with a slash as the only separator.
  unfoldable pub norm : List ℕ → List ℕ
  norm s = map P.to_lower (map (λ c. if c == b'\\' then b'/' else c) s)

  -- `New`
  unfoldable pub new_rule : AppRule → Rule
  unfolding rule_name norm
  new_rule r = record {
    name = rule_name r;
    class = r.class;
    exe = norm (codes r.exe);
    path = norm (codes r.path);
    prefix = norm (codes r.path_prefix);
    glob = norm (codes r.glob);
  }

  unfoldable pub base_name : List ℕ → List ℕ → List ℕ
  unfolding after_slash
  base_name name np =
      let base = if is_empty np then norm name else np in or_all base (after_slash base)

-- Whether a rule matches the path in normal form, and its base name.
unfoldable pub rule_matches : List ℕ → List ℕ → Rule → Bool
unfolding has_prefix same glob_match
rule_matches np base r =
    if not (is_empty r.exe)
    then not (is_empty base) && same base r.exe
    else if is_empty np
    then false
    else if not (is_empty r.path)
    then same np r.path
    else if not (is_empty r.prefix)
    then has_prefix r.prefix np
    else if not (is_empty r.glob)
    then is_yes (glob_match r.glob np)
    else false

unfoldable pub first_rule : List ℕ → List ℕ → List Rule → Option Rule
first_rule np base [] = none
first_rule np base (r ∷ rules) =
    let rest = first_rule np base rules in if rule_matches np base r then some r else rest

-- `Match`: the class and the name of the rule are those of the result.
unfoldable pub classify : (P : Platform) → List Rule → List ℕ → List ℕ → Option Rule
unfolding norm base_name
classify P rules name path = let np = norm P path in first_rule np (base_name P name np) rules
