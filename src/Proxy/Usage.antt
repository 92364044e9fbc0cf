-- ===== src/Proxy/Usage.antt =====
-- internal/proxy/usage.go: what the log line of a request says of its response. Texts are bytes.
pub mod Window
mod Samples
use benchwarmer.Prelude.{
  ℕ, ◌+◌, ◌-◌, ◌*◌, ◌/◌, min, ltb, ◌==◌, Bool, false, List, [], ◌∷◌, ◌++◌, take, drop, length,
  Option, none, some, if◌then◌else◌,
}

abbrev pub usage_head_bytes : ℕ
usage_head_bytes = 4096

abbrev pub usage_tail_bytes : ℕ
usage_tail_bytes = 8192

abbrev max_model_len : ℕ
max_model_len = 128

-- The zero time stands for no time.
pub record Usage : Type 0 where
  pub start : ℕ
  pub streamed : Bool
  pub first_at : ℕ
  pub head : List ℕ
  pub tail : List ℕ

abbrev pub new_usage : ℕ → Usage
new_usage start = record { start = start; streamed = false; first_at = 0; head = []; tail = [] }

-- The last bytes, as many as there are up to the number
abbrev pub last : ℕ → List ℕ → List ℕ
last n s = drop (length s - n) s

abbrev pub add_head : List ℕ → List ℕ → List ℕ
add_head p head =
    let room = usage_head_bytes - length head in
    if ltb 0 room then head ++ take (min room (length p)) p else head

abbrev pub cut_tail : List ℕ → List ℕ
cut_tail tail =
    if ltb (2 * usage_tail_bytes) (length tail) then last usage_tail_bytes tail else tail

unfoldable pub observe : ℕ → List ℕ → Usage → Usage
observe now [] u = u
observe now (c ∷ s) u = record u {
  first_at = if u.first_at == 0 then now else u.first_at;
  head = add_head (c ∷ s) u.head;
  tail = cut_tail (u.tail ++ (c ∷ s));
}

unfoldable pub tail_bytes : Usage → List ℕ
tail_bytes u = if ltb usage_tail_bytes (length u.tail) then last usage_tail_bytes u.tail else u.tail

-- Go's library: the first and the last group that an expression matches, and `strconv.Atoi`, where a
-- negative number cannot come up.
pub record Matcher : Type 0 where
  pub first_model : List ℕ → Option (List ℕ)
  pub last_model : List ℕ → Option (List ℕ)
  pub last_prompt : List ℕ → Option (List ℕ)
  pub last_prompt_timing : List ℕ → Option (List ℕ)
  pub last_completion : List ℕ → Option (List ℕ)
  pub last_completion_timing : List ℕ → Option (List ℕ)
  pub atoi : List ℕ → Option ℕ

-- The fields of the log line; a field that is unknown is left out.
pub record Attrs : Type 0 where
  pub model : Option (List ℕ)
  pub prompt_tokens : Option ℕ
  pub completion_tokens : Option ℕ
  pub ttft_ms : Option ℕ

abbrev or_match : Option (List ℕ) → Option (List ℕ) → Option (List ℕ)
or_match (some m) n = some m
or_match none n = n

abbrev at_most : Option (List ℕ) → Option (List ℕ)
at_most none = none
at_most (some m) = some (if ltb max_model_len (length m) then take max_model_len m else m)

module _ (M : Matcher) where
  -- `lastInt` of two expressions, of which the first that matches counts
  abbrev last_int : Option (List ℕ) → Option (List ℕ) → Option ℕ
  last_int (some m) n = M.atoi m
  last_int none (some m) = M.atoi m
  last_int none none = none

  unfoldable pub attrs : Usage → Attrs
  unfolding tail_bytes
  attrs u =
      let tail = tail_bytes u in
      record {
        model = at_most (or_match (M.first_model u.head) (M.last_model tail));
        prompt_tokens = last_int (M.last_prompt tail) (M.last_prompt_timing tail);
        completion_tokens = last_int (M.last_completion tail) (M.last_completion_timing tail);
        ttft_ms = if u.first_at == 0 then none else some ((u.first_at - u.start) / 1_000_000);
      }
