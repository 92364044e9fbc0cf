-- ===== src/Policy/Precedence.antt =====
-- internal/policy/evaluate.go: the rules that match come in the order of their tiers, so that the
-- decision is that of the highest tier.
use benchwarmer.Prelude.{ℕ, ◌≤◌, List, [], ◌∷◌, ◌++◌, arith, All, All-append}
use benchwarmer.Platform.{Platform}
use benchwarmer.Config.{Config}
use benchwarmer.Policy.Types.{Snapshot}
use benchwarmer.Policy.Rules.{
  Match, Eval, new_eval, safety_rules, pause_rules, critical_rules, gaming_rules, profile_rules,
  yield_rules,
}
use benchwarmer.Policy.Evaluate.{winner, evaluate}

-- All tiers lie in a range.
abbrev Within : ℕ → ℕ → List Match → Type 0
Within lo hi = All (λ m. (lo ≤ m.tier) × (m.tier ≤ hi))

-- No match is of a higher tier than one before it.
abbrev pub InOrder : List Match → Type 0
InOrder [] = Unit
InOrder (m ∷ ms) = All (λ n. m.tier ≤ n.tier) ms × InOrder ms

Within-le : (k lo hi : ℕ) (ms : List Match) → k ≤ lo → Within lo hi ms → All (λ n. k ≤ n.tier) ms
Within-le k lo hi [] h w = tt
Within-le k lo hi (m ∷ ms) h w = (omega arith, Within-le k lo hi ms h w.1)

Within-mono :
    (lo lo' hi hi' : ℕ) (ms : List Match)
    → lo ≤ lo'
    → hi' ≤ hi
    → Within lo' hi' ms
    → Within lo hi ms
Within-mono lo lo' hi hi' [] p q w = tt
Within-mono lo lo' hi hi' (m ∷ ms) p q w =
    ((omega arith, omega arith), Within-mono lo lo' hi hi' ms p q w.1)

-- Two lists in order, the second of lower tiers, are in order together.
InOrder-append :
    (mid lo hi : ℕ) (xs ys : List Match)
    → Within lo mid xs
    → Within mid hi ys
    → InOrder xs
    → InOrder ys
    → InOrder (xs ++ ys)
InOrder-append mid lo hi [] ys wx wy ox oy = oy
InOrder-append mid lo hi (x ∷ xs) ys wx wy ox oy = (
  All-append (λ n. x.tier ≤ n.tier) xs ys ox.0 (Within-le x.tier mid hi ys wx.0.1 wy),
  InOrder-append mid lo hi xs ys wx.1 wy ox.1 oy,
)

abbrev Sorted : ℕ → ℕ → List Match → Type 0
Sorted lo hi ms = Within lo hi ms × InOrder ms

Sorted-append :
    (lo mid mid' hi : ℕ) (xs ys : List Match)
    → lo ≤ mid
    → mid ≤ mid'
    → mid' ≤ hi
    → Sorted lo mid xs
    → Sorted mid' hi ys
    → Sorted lo hi (xs ++ ys)
Sorted-append lo mid mid' hi xs ys p q r (wx, ox) (wy, oy) = (
  All-append (λ m. (lo ≤ m.tier) × (m.tier ≤ hi)) xs ys
      (Within-mono lo lo hi mid xs (omega arith) (omega arith) wx)
      (Within-mono lo mid' hi hi ys (omega arith) (omega arith) wy),
  InOrder-append mid lo hi xs ys wx (Within-mono mid mid' hi hi ys q (omega arith) wy) ox oy,
)

module _ (P : Platform) where
  safety_rules-Sorted : (e : Eval P) → Sorted 1 1 (safety_rules P e)
  unfolding safety_rules
  safety_rules-Sorted e = ground arith

  pause_rules-Sorted : (e : Eval P) → Sorted 2 2 (pause_rules P e)
  unfolding pause_rules
  pause_rules-Sorted e = ground arith

  critical_rules-Sorted : (e : Eval P) → Sorted 3 3 (critical_rules P e)
  unfolding critical_rules
  critical_rules-Sorted e = ground arith

  gaming_rules-Sorted : (e : Eval P) → Sorted 4 4 (gaming_rules P e)
  unfolding gaming_rules
  gaming_rules-Sorted e = ground arith

  profile_rules-Sorted : (e : Eval P) → Sorted e.profile_tier e.profile_tier (profile_rules P e)
  unfolding profile_rules
  profile_rules-Sorted e = ground arith

  new_eval_tier : (s : Snapshot P) (c : Config P) → 5 ≤ (new_eval P s c).profile_tier
  unfolding new_eval
  new_eval_tier s c = ground arith

  yield_rules-Sorted : (e : Eval P) → 5 ≤ e.profile_tier → Sorted 1 e.profile_tier (yield_rules P e)
  unfolding yield_rules
  yield_rules-Sorted e h =
      Sorted-append 1 1 2 e.profile_tier (safety_rules P e) _ (omega arith) (omega arith)
        (omega arith) (safety_rules-Sorted e)
        (Sorted-append 2 2 3 e.profile_tier (pause_rules P e) _ (omega arith) (omega arith)
          (omega arith) (pause_rules-Sorted e)
          (Sorted-append 3 3 4 e.profile_tier (critical_rules P e) _ (omega arith) (omega arith)
            (omega arith) (critical_rules-Sorted e)
            (Sorted-append 4 4 e.profile_tier e.profile_tier (gaming_rules P e) _ (omega arith)
              (omega arith) (omega arith) (gaming_rules-Sorted e) (profile_rules-Sorted e))))

  winner-first :
      (e : Eval P) (ms : List Match) → InOrder ms → All (λ m. (winner P e ms).tier ≤ m.tier) ms
  unfolding winner
  winner-first e [] o = tt
  winner-first e (m ∷ ms) o = (omega arith, o.0)

  -- The rules that make the worker yield are found in the order of their precedence tiers, and the
  -- decision's tier is not after that of any rule that matches.
  pub evaluate_precedence :
      (s : Snapshot P) (c : Config P)
      → let ms = yield_rules P (new_eval P s c) in
        InOrder ms × All (λ m. (evaluate P s c).tier ≤ m.tier) ms
  unfolding evaluate
  evaluate_precedence s c =
      let e = new_eval P s c in
      let sorted = yield_rules-Sorted e (new_eval_tier s c) in
      (sorted.1, winner-first e (yield_rules P e) sorted.1)
