-- ===== src/ModelPlan/Fits.antt =====
-- internal/modelplan/modelplan.go: what is proposed fits into the memory.
use benchwarmer.Prelude.{
  ℕ, ◌+◌, ◌-◌, ◌≤◌, ◌<◌, min, ltb, leb, ◌==◌, not, ◌&&◌, ◌||◌, List, [], ◌∷◌, ◌++◌, ◌≡◌, ◌⊎◌, inl,
  inr, refl, sym, ap, subst, ◌∙◌, if-cases, arith,
}
use benchwarmer.Platform.{Platform}
use benchwarmer.ModelPlan.Steps.{kv_mib-fits, IsFitting, fit_tokens-IsFitting}
use benchwarmer.ModelPlan.{
  overhead_mib, context_step, vram_step, Input, Recommendation, trained_context, fitting_context,
  free_vram, Plan, is_split, gpu_unknown, no_detail, no_room, too_little_context, round_up, kv_mib,
  context_limit, trained, fit_tokens, drop_context, lower, need, estimate, estimated, first_plan,
  budget_of, compute, with_note,
}

-- The context of the draft once the recommendations are taken
abbrev pub proposed : List Recommendation → ℕ → ℕ
proposed [] ctx = ctx
proposed (trained_context c ∷ rs) ctx = proposed rs c
proposed (fitting_context c ∷ rs) ctx = proposed rs c
proposed (free_vram v ∷ rs) ctx = proposed rs ctx

-- The context that is settled on
abbrev IsSettled : Input → ℕ → ℕ × List Recommendation → Type 0
IsSettled i fit (ctx, rs) =
    (0 < ctx)
    × (ctx ≤ fit)
    × (proposed rs i.current_context ≡ ctx)
    × ((ctx ≡ i.current_context) ⊎ ((ctx ≡ fit) ⊎ (ctx ≡ context_limit i.meta)))

lowered-IsSettled :
    (i : Input) (fit c : ℕ) (rs : List Recommendation)
    → context_step ≤ fit
    → (c ≡ i.current_context) ⊎ ((c ≡ fit) ⊎ (c ≡ context_limit i.meta))
    → proposed rs i.current_context ≡ c
    → drop_context rs ≡ []
    → IsSettled i fit (lower fit (c, rs))
lowered-IsSettled i fit c rs h from e d =
    if-cases (IsSettled i fit) (c == 0 || ltb fit c)
      (λ _. (
        omega (arith, h),
        omega arith,
        ap (λ l. proposed (l ++ (fitting_context fit ∷ [])) i.current_context) d,
        inr (inl refl),
      ))
      (λ n. (ground arith, ground arith, e, from))

lower-IsSettled :
    (i : Input) (fit : ℕ) → context_step ≤ fit → IsSettled i fit (lower fit (trained i))
unfolding drop_context
lower-IsSettled i fit h =
    let limit = context_limit i.meta in
    if-cases (λ c. IsSettled i fit (lower fit c))
      (ltb 0 i.meta.context_length && ltb i.meta.context_length i.current_context)
      (λ _. lowered-IsSettled i fit limit (trained_context limit ∷ []) h (inr (inr refl)) refl refl)
      (λ _. lowered-IsSettled i fit i.current_context [] h (inl refl) refl refl)

proposed_free :
    (rs : List Recommendation) (v d : ℕ) → proposed (rs ++ (free_vram v ∷ [])) d ≡ proposed rs d
proposed_free [] v d = refl
proposed_free (trained_context c ∷ rs) v d = proposed_free rs v c
proposed_free (fitting_context c ∷ rs) v d = proposed_free rs v c
proposed_free (free_vram c ∷ rs) v d = proposed_free rs v d

free_bounds :
    (n total : ℕ)
    → n ≤ total
    → (n ≤ min (round_up n vram_step) total) × (min (round_up n vram_step) total ≤ total)
free_bounds n total h = ground arith

-- A plan for a draft with this context: it is at least one token and within the limit; the memory for
-- it is at most the budget, and at most the free memory that is asked for, which is at most the total;
-- and unless the context is the one of the draft, one more step would be beyond the limit or the
-- budget.
abbrev pub FitsAt : ℕ → Input → Plan → ℕ → Type 0
FitsAt budget i p ctx =
    (0 < ctx)
    × (ctx ≤ context_limit i.meta)
    × (p.estimated_mib ≡ need p ctx)
    × (p.estimated_mib ≤ budget)
    × ((free : ℕ) × (rs : List Recommendation) × (p.recommendations ≡ rs ++ (free_vram free ∷ []))
        × (p.estimated_mib ≤ free)
        × (free ≤ i.gpu.total_mib))
    × ((ctx ≡ i.current_context)
        ⊎ ((context_limit i.meta < ctx + context_step) ⊎ (budget < need p (ctx + context_step))))

-- The plan fits for the draft that takes it.
abbrev pub IsFittingPlan : ℕ → Input → Plan → Type 0
IsFittingPlan budget i p = FitsAt budget i p (proposed p.recommendations i.current_context)

-- Of the room that a budget leaves
need_fits :
    (budget ctx : ℕ) (p : Plan)
    → p.weights_mib + overhead_mib < budget
    → kv_mib p.kv_bytes_per_token ctx ≤ budget - (p.weights_mib + overhead_mib)
    → need p ctx ≤ budget
need_fits budget ctx p room k = omega (arith, room, k)

need_exceeds :
    (budget ctx : ℕ) (p : Plan)
    → budget - (p.weights_mib + overhead_mib) < kv_mib p.kv_bytes_per_token ctx
    → budget < need p ctx
need_exceeds budget ctx p k = omega (arith, k)

-- Whether one more step would be too much, from where the context comes from
next_step :
    (budget fit ctx : ℕ) (i : Input) (p : Plan)
    → (context_limit i.meta < fit + context_step)
      ⊎ (budget - (p.weights_mib + overhead_mib) < kv_mib p.kv_bytes_per_token (fit + context_step))
    → (ctx ≡ i.current_context) ⊎ ((ctx ≡ fit) ⊎ (ctx ≡ context_limit i.meta))
    → (ctx ≡ i.current_context)
      ⊎ ((context_limit i.meta < ctx + context_step) ⊎ (budget < need p (ctx + context_step)))
next_step budget fit ctx i p next (inl same) = inl same
next_step budget fit ctx i p next (inr (inr limit)) = inr (inl (omega (arith, limit)))
next_step budget fit ctx i p (inl l) (inr (inl e)) = inr (inl (omega (arith, l, e)))
next_step budget fit ctx i p (inr m) (inr (inl e)) = inr (
    inr (
      subst (λ n. budget < need p (n + context_step)) (sym e)
        (need_exceeds budget (fit + context_step) p m)))

settled-IsFittingPlan :
    (budget fit : ℕ) (i : Input) (p : Plan) (c : ℕ × List Recommendation)
    → p.weights_mib + overhead_mib < budget
    → budget ≤ i.gpu.total_mib
    → 0 < p.kv_bytes_per_token
    → IsFitting
        (budget - (p.weights_mib + overhead_mib))
        p.kv_bytes_per_token
        (context_limit i.meta)
        fit
    → IsSettled i fit c
    → IsFittingPlan budget i (estimate i.gpu.total_mib c p)
settled-IsFittingPlan budget fit i p (ctx, rs) room le pos (below, fits, next)
      (some_ctx, c, e, from) =
    if-cases (IsFittingPlan budget i) (ctx == 0) (λ z. absurd (ground arith))
      (λ _.
        let left = budget - (p.weights_mib + overhead_mib) in
        let free = min (round_up (need p ctx) vram_step) i.gpu.total_mib in
        let within =
          need_fits budget ctx p room
            (kv_mib-fits p.kv_bytes_per_token left ctx pos (omega (arith, fits, c))) in
        let (lo, hi) = free_bounds (need p ctx) i.gpu.total_mib (omega (arith, within, le)) in
        let q = proposed_free rs free i.current_context ∙ e in
        subst (FitsAt budget i (estimated i.gpu.total_mib (ctx, rs) p)) (sym q) (
          some_ctx,
          omega (arith, c, below),
          refl,
          within,
          (free, rs, refl, lo, hi),
          next_step budget fit ctx i p next from,
        ))

abbrev IsFittingIfAny : ℕ → Input → Plan → Type 0
IsFittingIfAny budget i p = 0 < p.estimated_mib → IsFittingPlan budget i p

without_estimate :
    (budget : ℕ) (i : Input) (p : Plan) → p.estimated_mib ≡ 0 → IsFittingIfAny budget i p
without_estimate budget i p e h = absurd (omega (arith, e, h))

module _ (P : Platform) where
  -- If nine tenths of the memory, as rounded, are at most the memory, then each plan with an estimate
  -- fits: the draft that takes it has a context of at least one token and within the limit; weights,
  -- cache and overhead are at most nine tenths of the memory, and at most the free memory asked for,
  -- which is at most the memory; and a context that was changed is the largest in steps of 1024.
  pub compute-IsFittingPlan :
      (i : Input)
      → budget_of P i.gpu.total_mib ≤ i.gpu.total_mib
      → 0 < (compute P i).estimated_mib
      → IsFittingPlan (budget_of P i.gpu.total_mib) i (compute P i)
  unfolding compute
  compute-IsFittingPlan i le =
      let budget = budget_of P i.gpu.total_mib in
      let p = first_plan i in
      let used = p.weights_mib + overhead_mib in
      let limit = context_limit i.meta in
      let fit = fit_tokens (budget - used) p.kv_bytes_per_token limit in
      let Q = IsFittingIfAny budget i in
      if-cases Q (ltb 1 i.meta.split_count)
        (λ _. without_estimate budget i (with_note (is_split i.meta.split_count) p) refl)
        (λ _.
          if-cases Q (not i.gpu.is_reliable || i.gpu.total_mib == 0)
            (λ _. without_estimate budget i (with_note (gpu_unknown) p) refl)
            (λ _.
              if-cases Q (p.kv_bytes_per_token == 0 || p.weights_mib == 0)
                (λ _. without_estimate budget i (with_note (no_detail) p) refl)
                (λ known.
                  if-cases Q (leb budget used)
                    (λ _. without_estimate budget i (with_note (no_room) p) refl)
                    (λ room.
                      if-cases Q (ltb fit context_step)
                        (λ _. without_estimate budget i (with_note (too_little_context) p) refl)
                        (λ some_fit h.
                          settled-IsFittingPlan budget fit i p (lower fit (trained i))
                            (ground arith) le (ground arith)
                            (fit_tokens-IsFitting (budget - used) p.kv_bytes_per_token limit
                              (ground arith) (ground arith))
                            (lower-IsSettled i fit (ground arith)))))))
