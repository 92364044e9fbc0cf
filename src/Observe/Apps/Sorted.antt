-- ===== src/Observe/Apps/Sorted.antt =====
-- internal/observe/observe.go: the order of the applications, by demand.
use benchwarmer.Prelude.{
  ◌≡◌, ◌⊎◌, ◌<◌, ◌≤◌, subst, sym, Bool, true, false, List, [], ◌∷◌, if◌then◌else◌, Bool-cases, inl,
  inr, arith,
}
use benchwarmer.Platform.{Platform}
use benchwarmer.Policy.Types.{AppMatch}
use benchwarmer.Observe.Apps.{by_demand, insert, sort}

module _ (P : Platform) where
  open P use {float_lt}

  -- It uses more of the GPU, or no less of it and more memory, or as much memory under a smaller process id.
  abbrev pub IsBefore : AppMatch P → AppMatch P → Type 0
  IsBefore x y =
      (float_lt y.gpu_util_pct x.gpu_util_pct ≡ true)
      ⊎ ((float_lt x.gpu_util_pct y.gpu_util_pct ≡ false)
          × ((y.vram_mib < x.vram_mib) ⊎ ((y.vram_mib ≡ x.vram_mib) × (x.pid ≤ y.pid))))

  abbrev pub IsBeforeFirst : AppMatch P → List (AppMatch P) → Type 0
  IsBeforeFirst x [] = Unit
  IsBeforeFirst x (y ∷ ys) = IsBefore x y

  -- Each comes before its neighbour.
  abbrev pub IsSorted : List (AppMatch P) → Type 0
  IsSorted [] = Unit
  IsSorted (x ∷ xs) = IsBeforeFirst x xs × IsSorted xs

  by_demand-IsBefore : (x y : AppMatch P) → by_demand P x y ≡ true → IsBefore x y
  unfolding by_demand
  by_demand-IsBefore x y h = ground (arith, h)

  by_demand_total : (x y : AppMatch P) → by_demand P x y ≡ false → by_demand P y x ≡ true
  unfolding by_demand
  by_demand_total x y h = ground (arith, h)

  insert-IsBeforeFirst :
      (y x : AppMatch P) (xs : List (AppMatch P))
      → IsBefore y x
      → IsBeforeFirst y xs
      → IsBeforeFirst y (insert P x xs)
  unfolding insert
  insert-IsBeforeFirst y x [] h k = h
  insert-IsBeforeFirst y x (z ∷ zs) h k = either (by_demand P x z)
    where
      either : (b : Bool) → IsBeforeFirst y (if b then x ∷ z ∷ zs else z ∷ insert P x zs)
      either true = h
      either false = k

  insert-IsSorted :
      (x : AppMatch P) (xs : List (AppMatch P)) → IsSorted xs → IsSorted (insert P x xs)
  unfolding insert
  insert-IsSorted x [] h = (tt, tt)
  insert-IsSorted x (y ∷ ys) h =
      let put = λ (b : Bool). IsSorted (if b then x ∷ y ∷ ys else y ∷ insert P x ys) in
      elim (Bool-cases (by_demand P x y)) [
        | inl e ↦ subst put (sym e) (by_demand-IsBefore x y e, h)
        | inr e ↦ subst put (sym e) (
          insert-IsBeforeFirst y x ys (by_demand-IsBefore y x (by_demand_total x y e)) h.0,
          insert-IsSorted x ys h.1,
        )
      ]

  pub sort-IsSorted : (xs : List (AppMatch P)) → IsSorted (sort P xs)
  unfolding sort
  sort-IsSorted [] = tt
  sort-IsSorted (x ∷ xs) = insert-IsSorted x (sort P xs) (sort-IsSorted xs)
