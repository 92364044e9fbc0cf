-- ===== src/Observe/Apps/Foreign.antt =====
-- internal/observe/observe.go: which processes the facts about applications name.
use mathlib.Core.List.{Permᴰ}
use benchwarmer.Prelude.{
  ℕ, ◌≡◌, inl, inr, refl, sym, ap, subst, ◌∙◌, ◌==◌, Bool, true, false, ◌&&◌, List, [], ◌∷◌, All,
  Option, none, some, String, str_eq, eq_iff, if◌then◌else◌, Bool-cases, arith,
}
use benchwarmer.Platform.{Platform}
use benchwarmer.Policy.Types.{AppMatch, AppFacts}
use benchwarmer.Telemetry.{ProcGpu, is_own}
use benchwarmer.Observe.Measure.{AgentReport, Input}
use benchwarmer.Observe.Apps.{
  Process, by_pid, class_by_rules, build, by_demand, insert, sort, uses_gpu, add_ordinary,
  add_child, add_app, launched, app_lists, apps, or_itself,
}
use benchwarmer.Observe.Apps.Sorted.{IsSorted, sort-IsSorted}
use benchwarmer.Observe.Apps.Chosen.{chosen, sort-Permᴰ, collected-app_lists, AreChosen}

abbrev HasPid : ℕ → Option Process → Type 0
HasPid pid none = Unit
HasPid pid (some q) = q.pid ≡ pid

by_pid-HasPid : (pid : ℕ) (ps : List Process) → HasPid pid (by_pid pid ps)
unfolding by_pid
by_pid-HasPid pid [] = tt
by_pid-HasPid pid (p ∷ ps) =
    last_or pid p (by_pid pid ps) (by_pid-HasPid pid ps) (p.pid == pid) refl
  where
    last_or :
        (pid : ℕ) (p : Process) (x : Option Process)
        → HasPid pid x
        → (b : Bool) → (p.pid == pid) ≡ b
        → HasPid pid (elim x [ some q ↦ some q | none ↦ if b then some p else none ])
    last_or pid p (some q) h b e = h
    last_or pid p none h true e = ground (arith, e)
    last_or pid p none h false e = tt

or_itself-pid : (p : Process) (x : Option Process) → HasPid p.pid x → (or_itself p x).pid ≡ p.pid
or_itself-pid p none h = refl
or_itself-pid p (some q) h = h

module _ (P : Platform) where
  insert-All :
      (Q : AppMatch P → Type 0) (x : AppMatch P) (ys : List (AppMatch P))
      → Q x
      → All Q ys
      → All Q (insert P x ys)
  unfolding insert
  insert-All Q x [] q h = (q, tt)
  insert-All Q x (y ∷ ys) q h =
      All-if Q (by_demand P x y) (x ∷ y ∷ ys) (y ∷ insert P x ys) (q, h)
        (h.0, insert-All Q x ys q h.1)
    where
      All-if :
          (Q : AppMatch P → Type 0) (b : Bool) (xs ys : List (AppMatch P))
          → All Q xs
          → All Q ys
          → All Q (if b then xs else ys)
      All-if Q true xs ys h k = h
      All-if Q false xs ys h k = k

  sort-All : (Q : AppMatch P → Type 0) (xs : List (AppMatch P)) → All Q xs → All Q (sort P xs)
  unfolding sort
  sort-All Q [] h = tt
  sort-All Q (x ∷ xs) h = insert-All Q x (sort P xs) h.0 (sort-All Q xs h.1)

  -- A process of this class that is not the runtime's
  abbrev pub IsForeign : List ℕ → String → AppMatch P → Type 0
  IsForeign own class m = (is_own P own m.pid ≡ false) × (m.class ≡ class)

  abbrev pub AllForeign : List ℕ → AppFacts P → Type 0
  AllForeign own a =
      All (IsForeign own "game") a.games
      × All (IsForeign own "launcher") a.launchers
      × All (IsForeign own "ordinary") a.ordinary
      × All (IsForeign own "game") a.launcher_children

  AllForeign-if :
      (own : List ℕ) (b : Bool) (x y : AppFacts P)
      → (b ≡ true → AllForeign own x)
      → AllForeign own y
      → AllForeign own (if b then x else y)
  AllForeign-if own true x y h k = h refl
  AllForeign-if own false x y h k = k

  of_class :
      (own : List ℕ) (class s : String) (m : AppMatch P)
      → IsForeign own class m
      → str_eq class s ≡ true
      → IsForeign own s m
  of_class own class s m (f, c) e = (f, c ∙ (eq_iff class s).0 e)

  add_app-AllForeign :
      (own : List ℕ) (class : String) (child : Bool) (m : AppMatch P) (a : AppFacts P)
      → IsForeign own class m
      → AllForeign own a
      → AllForeign own (add_app P class child m a)
  add_app-AllForeign own class child m a (f, c) (g, l, o, k) =
      let is = λ (s : String) (e : str_eq class s ≡ true). of_class own class s m (f, c) e in
      AllForeign-if own (str_eq class "game") (record a { games = m ∷ a.games }) _
        (λ e. ((is "game" e, g), l, o, k))
        (AllForeign-if own (str_eq class "launcher") (record a { launchers = m ∷ a.launchers }) _
          (λ e. (g, (is "launcher" e, l), o, k))
          (AllForeign-if own (str_eq class "ordinary") (add_ordinary P m a) _
            (λ e.
              AllForeign-if own (uses_gpu P 64 m) (record a { ordinary = m ∷ a.ordinary }) a
                (λ _. (g, l, (is "ordinary" e, o), k)) (g, l, o, k))
            (AllForeign-if own (str_eq class "ignore") a (add_child P child m a) (λ _. (g, l, o, k))
              (AllForeign-if own (child && uses_gpu P 128 m) _ a (λ _. (g, l, o, ((f, refl), k)))
                (g, l, o, k)))))

  app_lists-AllForeign :
      (now : ℕ) (i : Input P) (own : List ℕ) (usage : List (ProcGpu P))
      (agent : Option (AgentReport P)) (all ps : List Process)
      → AllForeign own (app_lists P now i own usage agent all ps)
  unfolding app_lists build
  app_lists-AllForeign now i own usage agent all [] = (tt, tt, tt, tt)
  app_lists-AllForeign now i own usage agent all (p ∷ ps) =
      let rest = app_lists P now i own usage agent all ps in
      let c = or_itself p (by_pid p.pid all) in
      let class = class_by_rules P i c in
      let child = launched P i own p (by_pid p.ppid all) in
      let kept = app_lists-AllForeign now i own usage agent all ps in
      let same = or_itself-pid p (by_pid p.pid all) (by_pid-HasPid p.pid all) in
      elim (Bool-cases (is_own P own p.pid)) [
        | inl e ↦
            subst
              (λ b.
                AllForeign own (
                  if b then rest else add_app P class child (build P now usage agent class c) rest))
              (sym e) kept
        | inr e ↦
            subst
              (λ b.
                AllForeign own (
                  if b then rest else add_app P class child (build P now usage agent class c) rest))
              (sym e)
              (add_app-AllForeign own class child (build P now usage agent class c) rest
                (ap (is_own P own) same ∙ e, refl) kept)
      ]

  abbrev pub AllSorted : AppFacts P → Type 0
  AllSorted a =
      IsSorted P a.games
      × IsSorted P a.launchers
      × IsSorted P a.ordinary
      × IsSorted P a.launcher_children

  abbrev pub sorted_facts : AppFacts P → AppFacts P
  sorted_facts a = record a {
    games = sort P a.games;
    launchers = sort P a.launchers;
    ordinary = sort P a.ordinary;
    launcher_children = sort P a.launcher_children;
  }

  -- No process is listed when the snapshot failed.
  abbrev pub listed_in : Option (List Process) → List Process
  listed_in none = []
  listed_in (some ps) = ps

  -- Whatever the processes, their parents and what they use: the games and the launchers in the facts are
  -- exactly the processes that are not the runtime's and to which the rules give that class; the ordinary
  -- programs are those of that class that use one percent of the GPU or 64 MiB of its memory; the
  -- launchers' children, which count as games, are those that no rule gives a class of these or ignores,
  -- whose parent is no younger and by the rules a launcher, not the runtime's, and that use one percent or
  -- 128 MiB. So none is lost, none is the runtime's own, and each stands under its class. In each list, of
  -- two neighbours the first uses more of the GPU, or no less of it and more memory, or no less, as much
  -- memory, and has no greater process id.
  pub apps-AllForeign :
      (now : ℕ) (i : Input P) (own : List ℕ) (usage : List (ProcGpu P))
      (agent : Option (AgentReport P)) (ps : Option (List Process))
      → let a = apps P now i own usage agent ps in
        AllForeign own a
        × AllSorted a
        × AreChosen P now i own usage agent (listed_in ps) (listed_in ps) a
  unfolding apps chosen
  apps-AllForeign now i own usage agent none =
      ((tt, tt, tt, tt), (tt, tt, tt, tt), (Permᴰ.nil, Permᴰ.nil, Permᴰ.nil, Permᴰ.nil))
  apps-AllForeign now i own usage agent (some ps) =
      let a = app_lists P now i own usage agent ps ps in
      let (g, l, o, k) = app_lists-AllForeign now i own usage agent ps ps in
      (
        (
          sort-All (IsForeign own "game") a.games g,
          sort-All (IsForeign own "launcher") a.launchers l,
          sort-All (IsForeign own "ordinary") a.ordinary o,
          sort-All (IsForeign own "game") a.launcher_children k,
        ),
        (
          sort-IsSorted P a.games,
          sort-IsSorted P a.launchers,
          sort-IsSorted P a.ordinary,
          sort-IsSorted P a.launcher_children,
        ),
        subst (λ c. AreChosen P now i own usage agent ps ps (sorted_facts c))
            (sym (collected-app_lists P now i own usage agent ps ps))
            (sort-Permᴰ P _, sort-Permᴰ P _, sort-Permᴰ P _, sort-Permᴰ P _),
      )
