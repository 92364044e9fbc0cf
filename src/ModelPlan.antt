-- ===== src/ModelPlan.antt =====
-- internal/modelplan/modelplan.go: the settings that are proposed for a model. Of a recommendation the
-- reason is left out, and a note is its case. The overhead of a plan is always `overhead_mib`.
pub mod Steps
pub mod Fits
mod Samples
use benchwarmer.Prelude.{
  ℕ, ◌+◌, ◌-◌, ◌*◌, ◌/◌, ◌%◌, ◌^◌, min, ltb, leb, ◌==◌, Bool, not, ◌&&◌, ◌||◌, List, [], ◌∷◌, ◌++◌,
  if◌then◌else◌, when,
}
use benchwarmer.Platform.{Platform}
use benchwarmer.Gguf.Parse.{Metadata}

abbrev pub mib : ℕ
mib = 1_048_576

abbrev pub overhead_mib : ℕ
overhead_mib = 768

abbrev pub max_context : ℕ
max_context = 1_048_576

abbrev pub context_step : ℕ
context_step = 1024

abbrev pub vram_step : ℕ
vram_step = 256

pub record Gpu : Type 0 where
  pub total_mib : ℕ
  pub is_reliable : Bool

pub record Input : Type 0 where
  pub meta : Metadata
  pub file_size : ℕ
  pub gpu : Gpu
  pub current_context : ℕ

-- `runtime.context_size`, from the file or as an estimate, and `runtime.required_free_vram_mib`
pub data Recommendation : Type 0 where
  trained_context fitting_context free_vram : ℕ → Recommendation

pub data Note : Type 0 where
  experts : ℕ → Note
  sliding_window : Note
  assumptions : Note
  is_split : ℕ → Note
  gpu_unknown no_detail no_room too_little_context : Note

pub record Plan : Type 0 where
  pub weights_mib : ℕ
  pub kv_bytes_per_token : ℕ
  pub estimated_mib : ℕ
  pub recommendations : List Recommendation
  pub notes : List Note

-- In two's complement: a number from 2^63 on is negative as an `int`.
unfoldable pub kv_bytes : Metadata → ℕ
kv_bytes m =
    let k =
      if m.key_length == 0 && ltb 0 m.head_count
      then m.embedding_length / m.head_count
      else m.key_length in
    let v = if m.value_length == 0 then k else m.value_length in
    if m.kv_heads_total == 0 || k == 0 || v == 0 then 0 else m.kv_heads_total * (k + v) * 2 % 2 ^ 64

abbrev pub round_up : ℕ → ℕ → ℕ
round_up v step = (v + step - 1) / step * step

abbrev pub round_down : ℕ → ℕ → ℕ
round_down v step = v / step * step

abbrev pub kv_mib : ℕ → ℕ → ℕ
kv_mib kv tokens = (tokens * kv + mib - 1) / mib

abbrev pub context_limit : Metadata → ℕ
context_limit m =
    if ltb 0 m.context_length && ltb m.context_length max_context
    then m.context_length
    else max_context

-- What is proposed of the context whatever the memory
abbrev pub trained : Input → ℕ × List Recommendation
trained i =
    if ltb 0 i.meta.context_length && ltb i.meta.context_length i.current_context
    then (context_limit i.meta, trained_context (context_limit i.meta) ∷ [])
    else (i.current_context, [])

-- As many tokens as fit in the room, in whole steps; of a negative cost none.
unfoldable pub fit_tokens : ℕ → ℕ → ℕ → ℕ
fit_tokens room kv limit =
    if leb (2 ^ 63) kv then 0 else round_down (min (room * mib / kv) limit) context_step

abbrev pub with_note : Note → Plan → Plan
with_note n p = record p { notes = p.notes ++ (n ∷ []) }

-- `dropPath` with the path of the context size
unfoldable pub drop_context : List Recommendation → List Recommendation
drop_context [] = []
drop_context (free_vram v ∷ rs) = free_vram v ∷ drop_context rs
drop_context (_ ∷ rs) = drop_context rs

-- The context lowered to what fits, if it has to be
abbrev pub lower : ℕ → ℕ × List Recommendation → ℕ × List Recommendation
lower fit (ctx, rs) =
    if ctx == 0 || ltb fit ctx
    then (fit, drop_context rs ++ (fitting_context fit ∷ []))
    else (ctx, rs)

abbrev pub need : Plan → ℕ → ℕ
need p ctx = p.weights_mib + kv_mib p.kv_bytes_per_token ctx + overhead_mib

abbrev pub estimated : ℕ → ℕ × List Recommendation → Plan → Plan
estimated total (ctx, rs) p = record p {
  estimated_mib = need p ctx;
  recommendations = rs ++ (free_vram (min (round_up (need p ctx) vram_step) total) ∷ []);
}

abbrev pub estimate : ℕ → ℕ × List Recommendation → Plan → Plan
estimate total (ctx, rs) p =
    if ctx == 0 then record p { recommendations = rs } else estimated total (ctx, rs) p

abbrev pub within_budget : ℕ → Input → ℕ × List Recommendation → Plan → Plan
within_budget budget i chosen p =
    let used = p.weights_mib + overhead_mib in
    let fit = fit_tokens (budget - used) p.kv_bytes_per_token (context_limit i.meta) in
    if leb budget used
    then with_note no_room p
    else if ltb fit context_step
    then with_note too_little_context p
    else estimate i.gpu.total_mib (lower fit chosen) p

abbrev pub first_plan : Input → Plan
first_plan i = record {
  weights_mib = (i.file_size + mib - 1) / mib;
  kv_bytes_per_token = kv_bytes i.meta;
  estimated_mib = 0;
  recommendations = (trained i).1;
  notes =
      when (ltb 0 i.meta.expert_count) (experts i.meta.expert_count)
      ++ (when (ltb 0 i.meta.sliding_win) sliding_window ++ (assumptions ∷ []));
}

module _ (P : Platform) where
  -- Nine tenths of the memory, as Go rounds them
  abbrev pub budget_of : ℕ → ℕ
  budget_of total = P.to_int (P.float_mul (P.of_int total) (P.float_div (P.of_int 9) (P.of_int 10)))

  unfoldable pub compute : Input → Plan
  unfolding kv_bytes fit_tokens drop_context
  compute i =
      let p = first_plan i in
      if ltb 1 i.meta.split_count
      then with_note (is_split i.meta.split_count) p
      else if not i.gpu.is_reliable || i.gpu.total_mib == 0
      then with_note gpu_unknown p
      else if p.kv_bytes_per_token == 0 || p.weights_mib == 0
      then with_note no_detail p
      else within_budget (budget_of i.gpu.total_mib) i (trained i) p
