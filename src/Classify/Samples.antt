-- ===== src/Classify/Samples.antt =====
-- A rule for a directory before one for an executable, and patterns.
use benchwarmer.Prelude.{ℕ, ◌≡◌, refl, Bool, true, false, List, [], ◌∷◌, some, arith}
use benchwarmer.Platform.{codes}
use benchwarmer.Platform.Plain.{plain}
use benchwarmer.Config.{AppRule}
use benchwarmer.Classify.{Rule, new_rule, classify, first_rule, rule_matches}
use benchwarmer.Classify.Glob.{glob_match}
use benchwarmer.Classify.Match.{Matches, NoStar, glob_match_decides, glob_match_starred}

abbrev no_rule : AppRule
no_rule = record {
  id = "";
  name = "";
  exe = "";
  path = "";
  path_prefix = "";
  glob = "";
  class = "";
}

abbrev games : Rule
games = new_rule plain (record no_rule { path_prefix = "C:\\Games\\"; class = "game" })

abbrev launcher : Rule
launcher = new_rule plain (record no_rule { exe = "Steam.exe"; class = "launcher" })

abbrev steam : List ℕ
steam = codes "C:\\Games\\steam.exe"

game_first : classify plain (games ∷ launcher ∷ []) (codes "steam.exe") steam ≡ some games
unfolding classify first_rule new_rule rule_matches
game_first = refl

launcher_first : classify plain (launcher ∷ games ∷ []) (codes "steam.exe") steam ≡ some launcher
unfolding classify first_rule new_rule rule_matches
launcher_first = refl

glob_yes : glob_match (codes "*/ste?m*.exe") (codes "c:/games/steam.exe") ≡ some true
unfolding glob_match
glob_yes = refl

glob_no : glob_match (codes "*/steam") (codes "c:/games/steam.exe") ≡ some false
unfolding glob_match
glob_no = refl

glob_match_decides_example :
    (b : Bool) × (glob_match (codes "*.exe") (codes "steam.exe") ≡ some b)
    × (b ≡ true → Matches (codes "*.exe") (codes "steam.exe"))
    × (NoStar (codes "steam.exe") → Matches (codes "*.exe") (codes "steam.exe") → b ≡ true)
glob_match_decides_example = glob_match_decides (codes "*.exe") (codes "steam.exe")

refused : glob_match (codes "b") (codes "ab") ≡ some false
unfolding glob_match
refused = refl

not_matched : ¬ Matches (codes "b") (codes "ab")
not_matched m =
    let (b, e, _, matched) = glob_match_decides (codes "b") (codes "ab") in
    let yes_b = matched (ground arith) m in cc refused

-- The star stands for `*a`, but the code point `*` of the text is taken to match it alone.
glob_match_starred_example : glob_match (codes "*b") (codes "*ab") ≡ some false
glob_match_starred_example = glob_match_starred (codes "b") (codes "ab") (ground arith) not_matched
