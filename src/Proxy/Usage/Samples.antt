-- ===== src/Proxy/Usage/Samples.antt =====
-- A response in two reads.
use benchwarmer.Prelude.{◌*◌, ◌≡◌, ◌≤◌, refl, [], ◌∷◌, take, length, some, none}
use benchwarmer.Platform.{codes}
use benchwarmer.Proxy.Usage.{
  new_usage, usage_head_bytes, usage_tail_bytes, last, tail_bytes, observe, Matcher, attrs,
}
use benchwarmer.Proxy.Usage.Window.{Reads, all_bytes, observe_all, observe_all-window}

abbrev reads : Reads
reads = (5_000_000, codes "{\"model\": ") ∷ (7_000_000, []) ∷ (9_000_000, codes "\"m\"}") ∷ []

head_read : (observe_all reads (new_usage 2_000_000)).head ≡ codes "{\"model\": \"m\"}"
unfolding observe
head_read = refl

abbrev matcher : Matcher
matcher = record {
  first_model = λ s. some (codes "m");
  last_model = λ s. none;
  last_prompt = λ s. none;
  last_prompt_timing = λ s. some (codes "4");
  last_completion = λ s. none;
  last_completion_timing = λ s. none;
  atoi = λ s. some (length s);
}

read_attrs : attrs matcher (observe_all reads (new_usage 2_000_000)) ≡ record {
  model = some (codes "m");
  prompt_tokens = some 1;
  completion_tokens = none;
  ttft_ms = some 3;
}
unfolding observe attrs
read_attrs = refl

observe_all-window_example :
    let u = observe_all reads (new_usage 2_000_000) in
    (u.head ≡ take usage_head_bytes (all_bytes reads))
    × (tail_bytes u ≡ last usage_tail_bytes (all_bytes reads))
    × (length u.tail ≤ 2 * usage_tail_bytes)
observe_all-window_example = observe_all-window 2_000_000 reads
