-- ===== src/Api/Owner/Shown.antt =====
-- internal/api/owner.go: what the owner sees of a decision of the policy.
use benchwarmer.Prelude.{
  ℕ, ◌≡◌, refl, ap, ◌∙◌, Bool, true, false, not, ◌&&◌, List, [], ◌∷◌, All, All-append, str_eq,
  if◌then◌else◌, arith,
}
use benchwarmer.Platform.{Platform}
use benchwarmer.Config.{Config}
use benchwarmer.State.{State, ready, busy, loading, disabled, stopped, draining, preempting, error}
use benchwarmer.Policy.Types.{Rule, Snapshot}
use benchwarmer.Policy.Rules.{
  Match, Eval, new_eval, safety_rules, pause_rules, critical_rules, gaming_rules, profile_rules,
  yield_rules,
}
use benchwarmer.Policy.Evaluate.{winner, eligibility, run_match, decide, evaluate}
use benchwarmer.Api.OwnerStatus.{
  Text, rule_text, OwnerKind, available, starting, waiting, OwnerStatus, Status,
}
use benchwarmer.Api.Owner.{waits, owner_classify, more_urgent, derive_owner}
use benchwarmer.Api.Owner.Rules.{of_policy, severity_of, is_plain, by_rule-IsPlain}

module _ (P : Platform) where
  abbrev IsOfPolicy : Match → Type 0
  IsOfPolicy m = of_policy m.rule ≡ true

  safety_rules-IsOfPolicy : (e : Eval P) → All IsOfPolicy (safety_rules P e)
  unfolding safety_rules
  safety_rules-IsOfPolicy e = ground arith

  pause_rules-IsOfPolicy : (e : Eval P) → All IsOfPolicy (pause_rules P e)
  unfolding pause_rules
  pause_rules-IsOfPolicy e = ground arith

  critical_rules-IsOfPolicy : (e : Eval P) → All IsOfPolicy (critical_rules P e)
  unfolding critical_rules
  critical_rules-IsOfPolicy e = ground arith

  gaming_rules-IsOfPolicy : (e : Eval P) → All IsOfPolicy (gaming_rules P e)
  unfolding gaming_rules
  gaming_rules-IsOfPolicy e = ground arith

  profile_rules-IsOfPolicy : (e : Eval P) → All IsOfPolicy (profile_rules P e)
  unfolding profile_rules
  profile_rules-IsOfPolicy e = ground arith

  yield_rules-IsOfPolicy : (e : Eval P) → All IsOfPolicy (yield_rules P e)
  unfolding yield_rules
  yield_rules-IsOfPolicy e =
      let join = All-append IsOfPolicy in
      join (safety_rules P e) _ (safety_rules-IsOfPolicy e) (
        join (pause_rules P e) _ (pause_rules-IsOfPolicy e) (
          join (critical_rules P e) _ (critical_rules-IsOfPolicy e)
            (join (gaming_rules P e) _ (gaming_rules-IsOfPolicy e) (profile_rules-IsOfPolicy e))))

  winner-nil-IsOfPolicy : (e : Eval P) → IsOfPolicy (winner P e [])
  unfolding winner eligibility run_match
  winner-nil-IsOfPolicy e = ground arith

  winner-IsOfPolicy :
      (e : Eval P) (ms : List Match) → All IsOfPolicy ms → IsOfPolicy (winner P e ms)
  winner-IsOfPolicy e (m ∷ ms) h = unfold winner in h.0
  winner-IsOfPolicy e [] h = winner-nil-IsOfPolicy e

  decide_rule :
      (e : Eval P) (m : Match) (ms : List Match)
      → IsOfPolicy m
      → of_policy (decide P e m ms).rule ≡ true
  unfolding decide
  decide_rule e m ms h = h

  pub evaluate_rule : (s : Snapshot P) (c : Config P) → of_policy (evaluate P s c).rule ≡ true
  unfolding evaluate new_eval
  evaluate_rule s c =
      let e = new_eval P s c in
      decide_rule e (winner P e (yield_rules P e)) (yield_rules P e)
        (winner-IsOfPolicy e (yield_rules P e) (yield_rules-IsOfPolicy e))

-- The kind that fits the state
abbrev pub Fits : State → OwnerKind → Type 0
Fits ready k = k ≡ available
Fits busy k = k ≡ available
Fits loading k = k ≡ starting
Fits _ k = is_plain k ≡ true

-- Whether the service runs on a fallback configuration
abbrev pub is_fallback : Status → Bool
is_fallback s = not (str_eq s.config_source "") && not (str_eq s.config_source "primary")

abbrev pub IsShown : Bool → State → OwnerStatus → Type 0
IsShown fallback st o = Fits st o.kind × (o.severity ≡ severity_of fallback o.kind)

more_urgent-severity_of : (k : OwnerKind) → more_urgent (severity_of false k) ≡ severity_of true k
more_urgent-severity_of available = refl
more_urgent-severity_of starting = refl
more_urgent-severity_of waiting = refl
more_urgent-severity_of OwnerKind.paused = refl
more_urgent-severity_of OwnerKind.problem = refl
more_urgent-severity_of OwnerKind.unknown = refl

fallback-IsShown :
    (b : Bool) (st : State) (o : OwnerStatus)
    → IsShown false st o
    → IsShown b st
        (if b then record o { config_fallback = true; severity = more_urgent o.severity } else o)
fallback-IsShown true st o (f, h) = (f, ap more_urgent h ∙ more_urgent-severity_of o.kind)
fallback-IsShown false st o h = h

module _ (atoi : Text → ℕ) where
  owner_classify-IsShown :
      (st : State) (r : Rule) (s : Status) (delay : ℕ)
      → of_policy r ≡ true
      → IsShown false st (owner_classify atoi st (record s { rule = rule_text r }) delay)
  unfolding owner_classify
  owner_classify-IsShown ready r s delay h = (refl, refl)
  owner_classify-IsShown busy r s delay h = (refl, refl)
  owner_classify-IsShown loading r s delay h = (refl, refl)
  owner_classify-IsShown draining r s delay h =
      by_rule-IsPlain atoi r s delay (waits true) h (refl, refl)
  owner_classify-IsShown preempting r s delay h =
      by_rule-IsPlain atoi r s delay (waits true) h (refl, refl)
  owner_classify-IsShown stopped r s delay h =
      by_rule-IsPlain atoi r s delay (waits false) h (refl, refl)
  owner_classify-IsShown State.cooldown r s delay h =
      by_rule-IsPlain atoi r s delay (waits false) h (refl, refl)
  owner_classify-IsShown State.suppressed r s delay h =
      by_rule-IsPlain atoi r s delay (waits false) h (refl, refl)
  owner_classify-IsShown disabled r s delay h =
      by_rule-IsPlain atoi r s delay (waits false) h (refl, refl)
  owner_classify-IsShown error r s delay h =
      by_rule-IsPlain atoi r s delay (waits false) h (refl, refl)
  owner_classify-IsShown State.unset r s delay h =
      by_rule-IsPlain atoi r s delay (waits false) h (refl, refl)

  -- Whatever the state of the worker and whatever the status says beside, a decision that Evaluate makes
  -- is never unknown to the owner: AI is available exactly while it serves, starting while it
  -- loads, and otherwise waiting, paused or a problem. The severity is that of the kind, and where AI
  -- works on a fallback configuration it asks for attention.
  pub derive_owner-IsShown :
      (P : Platform) (sn : Snapshot P) (c : Config P) (s : Status) (delay : ℕ)
      → let st = record s { rule = rule_text (evaluate P sn c).rule } in
        IsShown (is_fallback s) s.state (derive_owner atoi st delay)
  unfolding derive_owner
  derive_owner-IsShown P sn c s delay =
      let r = (evaluate P sn c).rule in
      let st = record s { rule = rule_text r } in
      fallback-IsShown (is_fallback s) s.state (owner_classify atoi s.state st delay)
        (owner_classify-IsShown s.state r s delay (evaluate_rule P sn c))
