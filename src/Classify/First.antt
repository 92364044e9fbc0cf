-- ===== src/Classify/First.antt =====
-- internal/classify/classify.go: the first rule that matches decides.
use benchwarmer.Prelude.{
  ℕ, ◌≡◌, inl, inr, refl, ap, subst, Bool, true, false, List, [], ◌∷◌, ◌++◌, Option, none, some,
  arith, Bool-cases, All,
}
use benchwarmer.Platform.{Platform}
use benchwarmer.Classify.{Rule, is_empty, norm, base_name, rule_matches, first_rule, classify}

-- The rule stands in the list behind rules that do not match.
abbrev IsFirst : (Rule → Bool) → List Rule → Rule → Type 0
IsFirst test rules r =
    (before : List Rule) × (after : List Rule) × (rules ≡ before ++ (r ∷ after))
    × All (λ q. test q ≡ false) before
    × (test r ≡ true)

IsFirst-cons :
    (test : Rule → Bool) (q : Rule) (rules : List Rule) (r : Rule)
    → test q ≡ false
    → IsFirst test rules r
    → IsFirst test (q ∷ rules) r
IsFirst-cons test q rules r n (before, after, e, none_before, yes_r) =
    (q ∷ before, after, ap (λ l. q ∷ l) e, (n, none_before), yes_r)

first_rule-some :
    (np base : List ℕ) (rules : List Rule) (r : Rule)
    → first_rule np base rules ≡ some r
    → IsFirst (rule_matches np base) rules r
unfolding first_rule
first_rule-some np base [] r h = absurd (ground arith)
first_rule-some np base (q ∷ rules) r h = elim (Bool-cases (rule_matches np base q)) [
  | inl y ↦ (
    [],
    rules,
    ap (λ t. t ∷ rules) (ground arith),
    tt,
    subst (λ t. rule_matches np base t ≡ true) (ground arith) y,
  )
  | inr n ↦
      IsFirst-cons (rule_matches np base) q rules r n
        (first_rule-some np base rules r (ground arith))
]

first_rule-none :
    (np base : List ℕ) (rules : List Rule)
    → first_rule np base rules ≡ none
    → All (λ q. rule_matches np base q ≡ false) rules
unfolding first_rule
first_rule-none np base [] h = tt
first_rule-none np base (q ∷ rules) h = ground (arith, first_rule-none np base rules)

-- Without a path only a rule with an executable name matches.
no_path : (base : List ℕ) (r : Rule) → rule_matches [] base r ≡ true → is_empty r.exe ≡ false
unfolding rule_matches
no_path base r h = ground arith

-- What the result says of the rules, for the path in normal form and its base name.
abbrev Explains : List ℕ → List ℕ → List Rule → Option Rule → Type 0
Explains np base rules none = All (λ q. rule_matches np base q ≡ false) rules
Explains np base rules (some r) =
    IsFirst (rule_matches np base) rules r × (is_empty np ≡ true → is_empty r.exe ≡ false)

explained :
    (np base : List ℕ) (rules : List Rule) (o : Option Rule)
    → first_rule np base rules ≡ o
    → Explains np base rules o
explained np base rules none h = first_rule-none np base rules h
explained np base rules (some r) h =
    let first = first_rule-some np base rules r h in (first, only_exe np first)
  where
    only_exe :
        (np : List ℕ)
        → IsFirst (rule_matches np base) rules r
        → is_empty np ≡ true
        → is_empty r.exe ≡ false
    only_exe [] (_, _, _, _, yes_r) e = no_path base r yes_r
    only_exe (c ∷ s) f e = cc

-- A process is given the first rule in the list that matches it, and none if no rule does. Where its
-- path cannot be read, that is a rule for the name of an executable.
classify_first :
    (P : Platform) (rules : List Rule) (name path : List ℕ)
    → Explains (norm P path) (base_name P name (norm P path)) rules (classify P rules name path)
unfolding classify
classify_first P rules name path =
    explained (norm P path) (base_name P name (norm P path)) rules _ refl
