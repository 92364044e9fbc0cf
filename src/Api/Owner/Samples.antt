-- ===== src/Api/Owner/Samples.antt =====
-- A status of the quiet snapshot of `Policy.Plain`, and a status while a drain was asked for.
use benchwarmer.Prelude.{◌*◌, ◌≡◌, refl, [], ◌∷◌, length, none}
use benchwarmer.Platform.{codes, same}
use benchwarmer.Platform.Plain.{plain}
use benchwarmer.Config.{second}
use benchwarmer.Config.Plain.{plain_config}
use benchwarmer.State.{draining, State}
use benchwarmer.Policy.Evaluate.{evaluate, has_prefix}
use benchwarmer.Policy.Plain.{quiet}
use benchwarmer.Api.OwnerStatus.{OwnerKind, Status, rule_text, evidence_value, before_first}
use benchwarmer.Api.Owner.{derive_owner, owner_classify, by_rule}
use benchwarmer.Api.Owner.Shown.{IsShown, is_fallback, derive_owner-IsShown}

abbrev status : Status
status = record {
  state = State.cooldown;
  rule = "contention.critical_external_util";
  reason = [];
  evidence =
      record { name = "top_external_process"; value = codes "game (85%, 3000 MiB)"; threshold = [] }
      ∷ [];
  next_load_at = none;
  vram_total_mib = 16000;
  config_source = "last-good";
}

status_app : (derive_owner length status (300 * second)).app ≡ codes "game"
unfolding derive_owner owner_classify by_rule has_prefix same evidence_value before_first
status_app = refl

-- A drain that the API asked for is unknown while it lasts.
manual_drain_unknown :
    (derive_owner length (record status { state = draining; rule = "manual.drain" }) 0).kind
    ≡ OwnerKind.unknown
unfolding derive_owner owner_classify by_rule has_prefix same
manual_drain_unknown = refl

derive_owner-IsShown_example :
    let st = record status { rule = rule_text (evaluate plain quiet plain_config).rule } in
    IsShown (is_fallback status) State.cooldown (derive_owner length st (300 * second))
derive_owner-IsShown_example =
    derive_owner-IsShown length plain quiet plain_config status (300 * second)
