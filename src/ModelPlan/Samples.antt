-- ===== src/ModelPlan/Samples.antt =====
-- An 8 GiB model on a GPU with 24 GiB.
use benchwarmer.Prelude.{◌*◌, ◌/◌, ◌≡◌, refl, true, [], ◌∷◌, arith}
use benchwarmer.Platform.{Platform}
use benchwarmer.Platform.Plain.{plain}
use benchwarmer.Gguf.Parse.{Metadata}
use benchwarmer.ModelPlan.{Input, fitting_context, free_vram, budget_of, compute}
use benchwarmer.ModelPlan.Fits.{IsFittingPlan, compute-IsFittingPlan}

-- A number stands for as many tenths where it is divided or multiplied.
abbrev tenths : Platform
tenths = record plain { float_mul = λ a b. a * b / 10; float_div = λ a b. a * 10 / b }

abbrev llama : Metadata
llama = record {
  version = 3;
  tensor_count = 291;
  name = [];
  arch = [];
  size_label = [];
  file_type = 7;
  context_length = 131072;
  block_count = 32;
  embedding_length = 4096;
  head_count = 32;
  head_count_kv = 8;
  kv_heads_total = 256;
  key_length = 0;
  value_length = 0;
  expert_count = 0;
  expert_used = 0;
  sliding_win = 0;
  split_count = 0;
}

abbrev whole_context : Input
whole_context = record {
  meta = llama;
  file_size = 8192 * 1048576;
  gpu = record { total_mib = 24576; is_reliable = true };
  current_context = 131072;
}

context_lowered :
    (compute tenths whole_context).recommendations ≡ fitting_context 104448 ∷ free_vram 22016 ∷ []
unfolding compute
context_lowered = refl

some_estimate : (compute tenths whole_context).estimated_mib ≡ 22016
unfolding compute
some_estimate = refl

compute-IsFittingPlan_example :
    IsFittingPlan (budget_of tenths 24576) whole_context (compute tenths whole_context)
compute-IsFittingPlan_example =
    compute-IsFittingPlan tenths whole_context (omega arith) (omega (arith, some_estimate))
