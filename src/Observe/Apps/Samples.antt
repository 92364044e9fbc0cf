-- ===== src/Observe/Apps/Samples.antt =====
-- A game that its launcher has started, beside a runtime with the name of a game.
use benchwarmer.Prelude.{◌≡◌, refl, [], ◌∷◌, map, List, Option, some, none}
use benchwarmer.Platform.{same}
use benchwarmer.Platform.Plain.{plain}
use benchwarmer.Config.{AppRule}
use benchwarmer.Config.Plain.{plain_config}
use benchwarmer.Classify.{
  classify, new_rule, first_rule, norm, base_name, rule_matches, rule_name, after_slash,
}
use benchwarmer.Telemetry.{max_util, max_of}
use benchwarmer.Observe.Measure.{Input}
use benchwarmer.Observe.Samples.{seen, busy}
use benchwarmer.Observe.Apps.{
  Process, by_pid, usage_of, class_by_rules, build, by_demand, insert, sort, app_lists, apps,
}
use benchwarmer.Observe.Apps.Chosen.{AreChosen}
use benchwarmer.Observe.Apps.Foreign.{AllForeign, AllSorted, listed_in, apps-AllForeign}

abbrev no_rule : AppRule
no_rule = record {
  id = "";
  name = "";
  exe = "";
  path = "";
  path_prefix = "";
  glob = "";
  class = "";
}

abbrev runtime_process : Process
runtime_process = record { pid = 7; ppid = 1; name = "game.exe"; path = ""; create_time = 0 }

abbrev launcher : Process
launcher = record { pid = 8; ppid = 1; name = "launcher.exe"; path = ""; create_time = 5 }

abbrev launched_game : Process
launched_game = record { pid = 9; ppid = 8; name = "new.exe"; path = ""; create_time = 6 }

abbrev listed : Input plain
listed = record seen {
  config = record plain_config {
    applications =
        record no_rule { exe = "game.exe"; class = "game" }
        ∷ record no_rule { exe = "launcher.exe"; class = "launcher" }
        ∷ [];
  };
}

-- The child of the launcher counts as a game, and the runtime does not, whatever its name.
listed_children :
    map
      (λ m. m.pid)
      (apps plain 100 listed
        (7 ∷ [])
        busy.processes
        none
        (some (runtime_process ∷ launcher ∷ launched_game ∷ []))).launcher_children
    ≡ 9 ∷ []
unfolding apps app_lists first_rule norm base_name rule_matches rule_name after_slash same by_pid
    build usage_of class_by_rules classify new_rule sort insert by_demand max_util max_of
listed_children = refl

abbrev running : Option (List Process)
running = some (runtime_process ∷ launcher ∷ launched_game ∷ [])

apps-AllForeign_example :
    let a = apps plain 100 listed (7 ∷ []) busy.processes none running in
    AllForeign plain (7 ∷ []) a
    × AllSorted plain a
    × AreChosen plain 100 listed
        (7 ∷ [])
        busy.processes
        none
        (listed_in plain running)
        (listed_in plain running)
        a
apps-AllForeign_example = apps-AllForeign plain 100 listed (7 ∷ []) busy.processes none running
