-- ===== src/Shipped/Samples.antt =====
-- Two shipped rules, and a configuration that holds one of them without an id.
use benchwarmer.Prelude.{◌≡◌, refl, false, List, [], ◌∷◌, String}
use benchwarmer.Platform.Plain.{plain}
use benchwarmer.Config.{AppRule}
use benchwarmer.Shipped.{Offer, shipped_id, builtin_id, merge_builtin_rules}
use benchwarmer.Shipped.Once.{merge_again}

abbrev rule_for : String → String → String → AppRule
rule_for id exe class = record {
  id = id;
  name = "";
  exe = exe;
  path = "";
  path_prefix = "";
  glob = "";
  class = class;
}

abbrev two_rules : List AppRule
two_rules =
    rule_for "exe:steam.exe" "steam.exe" "launcher"
    ∷ rule_for "exe:obs64.exe" "obs64.exe" "ordinary"
    ∷ []

abbrev old_file : Offer
old_file = record { applications = rule_for "" "Steam.exe" "game" ∷ []; seen = [] }

rule_added :
    (merge_builtin_rules plain two_rules old_file).0.applications
    ≡ rule_for "exe:steam.exe" "Steam.exe" "game"
      ∷ rule_for "exe:obs64.exe" "obs64.exe" "ordinary"
      ∷ []
unfolding merge_builtin_rules shipped_id builtin_id
rule_added = refl

merge_again_example :
    merge_builtin_rules plain two_rules (merge_builtin_rules plain two_rules old_file).0
    ≡ ((merge_builtin_rules plain two_rules old_file).0, false)
merge_again_example = merge_again plain two_rules old_file (refl, (refl, tt))
