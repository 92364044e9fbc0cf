-- ===== src/Observe/Apps/Chosen.antt =====
-- internal/observe/observe.go: which processes become applications, and in which list.
use mathlib.Core.List.{Permᴰ}
use mathlib.Core.List.Permᴰ
use benchwarmer.Prelude.{
  ℕ, ◌≡◌, refl, sym, ap, subst, ◌∙◌, Bool, true, false, not, ◌&&◌, ◌||◌, List, [], ◌∷◌, ◌++◌, when,
  Option, String, str_eq, eq_iff, if◌then◌else◌,
}
use benchwarmer.Platform.{Platform}
use benchwarmer.Policy.Types.{AppMatch, AppFacts}
use benchwarmer.Telemetry.{ProcGpu, is_own}
use benchwarmer.Observe.Measure.{AgentReport, Input}
use benchwarmer.Observe.Apps.{
  Process, by_pid, or_itself, class_by_rules, build, by_demand, insert, sort, uses_gpu, add_app,
  launched, app_lists,
}

module _ {ℓ} {A B : Type ℓ} where
  -- What `f` makes of those that pass the test, in their order
  unfoldable pub chosen : (A → Bool) → (A → B) → List A → List B
  chosen test f [] = []
  chosen test f (x ∷ xs) = when (test x) (f x) ++ chosen test f xs

-- A class that the rules do not give
abbrev pub is_unlisted : String → Bool
is_unlisted c =
    not (str_eq c "game" || str_eq c "launcher" || str_eq c "ordinary" || str_eq c "ignore")

module _ (P : Platform) where
  insert-Permᴰ : (x : AppMatch P) (xs : List (AppMatch P)) → Permᴰ (insert P x xs) (x ∷ xs)
  unfolding insert
  insert-Permᴰ x [] = Permᴰ.refl (x ∷ [])
  insert-Permᴰ x (y ∷ ys) = either (by_demand P x y) (insert P x ys) (insert-Permᴰ x ys)
    where
      either :
          (b : Bool) (rest : List (AppMatch P))
          → Permᴰ rest (x ∷ ys)
          → Permᴰ (if b then x ∷ y ∷ ys else y ∷ rest) (x ∷ y ∷ ys)
      either true rest h = Permᴰ.refl (x ∷ y ∷ ys)
      either false rest h = Permᴰ.trans (Permᴰ.cons refl h) (Permᴰ.swap refl refl)

  pub sort-Permᴰ : (xs : List (AppMatch P)) → Permᴰ (sort P xs) xs
  unfolding sort
  sort-Permᴰ [] = Permᴰ.nil
  sort-Permᴰ (x ∷ xs) = Permᴰ.trans (insert-Permᴰ x (sort P xs)) (Permᴰ.cons refl (sort-Permᴰ xs))

  -- A process added to the list of its class
  abbrev added : (g l o i u c : Bool) → AppMatch P → AppFacts P → AppFacts P
  added g l o i u c m a = record {
    games = when g m ++ a.games;
    launchers = when l m ++ a.launchers;
    ordinary = when (o && u) m ++ a.ordinary;
    launcher_children =
        when (not (g || l || o || i) && c) (record m { class = "game" }) ++ a.launcher_children;
    process_list_ok = a.process_list_ok;
  }

  abbrev put : (g l o i u c : Bool) → AppMatch P → AppFacts P → AppFacts P
  put g l o i u c m a =
      if g
      then record a { games = m ∷ a.games }
      else if l
      then record a { launchers = m ∷ a.launchers }
      else if o
      then (if u then record a { ordinary = m ∷ a.ordinary } else a)
      else if i
      then a
      else if c
      then record a { launcher_children = record m { class = "game" } ∷ a.launcher_children }
      else a

  put-added :
      (g l o i u c : Bool) (m : AppMatch P) (a : AppFacts P)
      → (g ≡ true → (l ≡ false) × (o ≡ false))
      → (l ≡ true → o ≡ false)
      → put g l o i u c m a ≡ added g l o i u c m a
  put-added true l o i u c m a h k = sym (
      ap (λ l. added true l o i u c m a) (h refl).0
      ∙ ap (λ o. added true false o i u c m a) (h refl).1)
  put-added false true o i u c m a h k = sym (ap (λ o. added false true o i u c m a) (k refl))
  put-added false false true i true c m a h k = refl
  put-added false false true i false c m a h k = refl
  put-added false false false true u c m a h k = refl
  put-added false false false false u true m a h k = refl
  put-added false false false false u false m a h k = refl

  is_other :
      (class c d : String) → str_eq c d ≡ false → str_eq class c ≡ true → str_eq class d ≡ false
  is_other class c d h e = subst (λ s. str_eq s d ≡ false) (sym ((eq_iff class c).0 e)) h

  module _ (now : ℕ) (i : Input P) (own : List ℕ) (usage : List (ProcGpu P))
      (agent : Option (AgentReport P)) (all : List Process) where
    -- The class that the rules give the process
    abbrev pub ruled_class : Process → String
    ruled_class p = class_by_rules P i (or_itself p (by_pid p.pid all))

    -- What is known of it
    abbrev pub entry : Process → AppMatch P
    entry p = build P now usage agent (ruled_class p) (or_itself p (by_pid p.pid all))

    -- Not the runtime's, and of this class by the rules
    abbrev pub is_in : String → Process → Bool
    is_in class p = not (is_own P own p.pid) && str_eq (ruled_class p) class

    abbrev pub is_ordinary : Process → Bool
    is_ordinary p =
        not (is_own P own p.pid) && (str_eq (ruled_class p) "ordinary" && uses_gpu P 64 (entry p))

    -- Neither the runtime's nor known to the rules, and started by a launcher that is not the runtime's
    abbrev pub is_child : Process → Bool
    is_child p =
        not (is_own P own p.pid)
        && (is_unlisted (ruled_class p)
            && (launched P i own p (by_pid p.ppid all) && uses_gpu P 128 (entry p)))

    abbrev pub as_game : Process → AppMatch P
    as_game p = record (entry p) { class = "game" }

    abbrev pub collected : List Process → AppFacts P
    collected ps = record {
      games = chosen (is_in "game") entry ps;
      launchers = chosen (is_in "launcher") entry ps;
      ordinary = chosen is_ordinary entry ps;
      launcher_children = chosen is_child as_game ps;
      process_list_ok = true;
    }

    abbrev gather : Process → Bool → AppFacts P → AppFacts P
    gather p b a =
        let c = ruled_class p in
        let m = entry p in
        record {
          games = when (not b && str_eq c "game") m ++ a.games;
          launchers = when (not b && str_eq c "launcher") m ++ a.launchers;
          ordinary = when (not b && (str_eq c "ordinary" && uses_gpu P 64 m)) m ++ a.ordinary;
          launcher_children =
              when
                (not b
                  && (is_unlisted c
                      && (launched P i own p (by_pid p.ppid all) && uses_gpu P 128 m)))
                (as_game p)
              ++ a.launcher_children;
          process_list_ok = a.process_list_ok;
        }

    gathered :
        (p : Process) (b : Bool) (a : AppFacts P)
        → (if b
            then a
            else add_app P (ruled_class p) (launched P i own p (by_pid p.ppid all)) (entry p) a)
          ≡ gather p b a
    gathered p true a = refl
    gathered p false a =
        let c = ruled_class p in
        let is = λ (x : String). str_eq c x in
        put-added (is "game") (is "launcher") (is "ordinary") (is "ignore")
          (uses_gpu P 64 (entry p))
          (launched P i own p (by_pid p.ppid all) && uses_gpu P 128 (entry p)) (entry p) a
          (λ e. (is_other c "game" "launcher" refl e, is_other c "game" "ordinary" refl e))
          (is_other c "launcher" "ordinary" refl)

    pub collected-app_lists :
        (ps : List Process) → app_lists P now i own usage agent all ps ≡ collected ps
    unfolding app_lists chosen
    collected-app_lists [] = refl
    collected-app_lists (p ∷ ps) =
        gathered p (is_own P own p.pid) (app_lists P now i own usage agent all ps)
        ∙ ap (gather p (is_own P own p.pid)) (collected-app_lists ps)

    -- The four lists hold these processes and no others, each as often as it is listed.
    abbrev pub AreChosen : List Process → AppFacts P → Type 0
    AreChosen ps a =
        Permᴰ a.games (chosen (is_in "game") entry ps)
        × Permᴰ a.launchers (chosen (is_in "launcher") entry ps)
        × Permᴰ a.ordinary (chosen is_ordinary entry ps)
        × Permᴰ a.launcher_children (chosen is_child as_game ps)
