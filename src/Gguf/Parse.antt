-- ===== src/Gguf/Parse.antt =====
-- internal/gguf/gguf.go: `Parse`. A map is an association list with the last entry first.
use benchwarmer.Prelude.{
  ℕ, zero, suc, ◌+◌, ◌-◌, ◌*◌, ◌%◌, ◌^◌, min, max, ltb, leb, ◌==◌, Bool, true, false, not, ◌&&◌,
  ◌||◌, List, [], ◌∷◌, ◌++◌, Option, none, some, String, if◌then◌else◌, length, drop, any,
}
use benchwarmer.Platform.{codes, same}
use benchwarmer.Gguf.Reader.{
  Error, not_gguf, truncated, too_large, unsupported_version, M, ◌>>=◌, ◌>>◌, pure, failed, bytes,
  u32, u64, str, or_empty,
}
use benchwarmer.Gguf.Value.{t_string, t_array, scalar_size, uint, skip_value, skip_items}

pub record Metadata : Type 0 where
  pub version : ℕ
  pub tensor_count : ℕ
  pub name : List ℕ
  pub arch : List ℕ
  pub size_label : List ℕ
  pub file_type : ℕ
  pub context_length : ℕ
  pub block_count : ℕ
  pub embedding_length : ℕ
  pub head_count : ℕ
  pub head_count_kv : ℕ
  pub kv_heads_total : ℕ
  pub key_length : ℕ
  pub value_length : ℕ
  pub expert_count : ℕ
  pub expert_used : ℕ
  pub sliding_win : ℕ
  pub split_count : ℕ

pub data Outcome : Type 0 where
  found : Metadata → Outcome
  refused : Error → Outcome

-- The maps of `Parse`.
pub record Tables : Type 0 where
  pub ints : List (List ℕ × ℕ)
  pub strs : List (List ℕ × List ℕ)
  pub kv_heads : List (List ℕ × ℕ)
  pub kv_max : List (List ℕ × ℕ)

abbrev pub max_kv_count : ℕ
max_kv_count = 65536

abbrev pub max_key_len : ℕ
max_key_len = 256

abbrev pub max_string_len : ℕ
max_string_len = 1_048_576

abbrev pub max_kept_array : ℕ
max_kept_array = 4096

unfoldable pub find : {A : Type 0} → List ℕ → List (List ℕ × A) → Option A
unfolding same
find key [] = none
find key ((k, v) ∷ rest) = if same k key then some v else find key rest

unfoldable pub has_suffix : List ℕ → String → Bool
unfolding same
has_suffix s suffix =
    leb (length (codes suffix)) (length s)
    && same (drop (length s - length (codes suffix)) s) (codes suffix)

abbrev exact_keys : List String
exact_keys =
    "general.architecture" ∷ "general.name" ∷ "general.size_label" ∷ "general.file_type"
    ∷ "split.count" ∷ []

abbrev suffixes : List String
suffixes =
    ".context_length" ∷ ".block_count" ∷ ".embedding_length" ∷ ".attention.head_count"
    ∷ ".attention.head_count_kv" ∷ ".attention.key_length" ∷ ".attention.value_length"
    ∷ ".expert_count" ∷ ".expert_used_count" ∷ ".attention.sliding_window" ∷ []

unfoldable pub wanted : List ℕ → Bool
unfolding has_suffix same
wanted key = any (λ k. same key (codes k)) exact_keys || any (has_suffix key) suffixes

abbrev u64_wrap : ℕ → ℕ
u64_wrap n = n % 2 ^ 64

abbrev pub add_head : ℕ → ℕ → ℕ × Bool → ℕ × ℕ
add_head sum mx (v, true) = (u64_wrap (sum + v), max mx v)
add_head sum mx (v, false) = (sum, mx)

-- The sum and the largest of the elements of an array.
unfoldable pub heads : ℕ → ℕ → ℕ → ℕ → M (ℕ × ℕ)
heads zero et sum mx r = ((sum, mx), r)
heads (suc n) et sum mx r =
    let (v, r') = uint et r in
    let more = heads n et (add_head sum mx v).0 (add_head sum mx v).1 r' in
    let (bad, _) = failed r in if bad then ((sum, mx), r) else more

abbrev pub put_str : Tables → List ℕ → List ℕ × Bool → Tables
put_str t key (s, true) = record t { strs = (key, s) ∷ t.strs }
put_str t key (s, false) = t

abbrev pub put_int : Tables → List ℕ → ℕ × Bool → Tables
put_int t key (v, true) = record t { ints = (key, v) ∷ t.ints }
put_int t key (v, false) = t

abbrev pub put_heads : Tables → List ℕ → ℕ × ℕ → Tables
put_heads t key (sum, mx) = record t {
  kv_heads = (key, sum) ∷ t.kv_heads;
  kv_max = (key, mx) ∷ t.kv_max;
}

unfoldable pub array_value : Tables → List ℕ → ℕ → ℕ → Bool → M Tables
array_value t key et n true = pure t
array_value t key et n false =
    if scalar_size et == 0
      || ltb max_kept_array n
      || not (has_suffix key ".attention.head_count_kv")
    then (skip_items et n >> pure t)
    else (heads n et 0 0 >>= λ h. pure (put_heads t key h))

-- The value of a key that is wanted.
unfoldable pub value : Tables → List ℕ → ℕ → M Tables
value t key ty =
    if ty == t_string
    then (str max_string_len >>= λ s. pure (put_str t key s))
    else if ty == t_array
    then (u32 >>= λ et. u64 >>= λ n. failed >>= λ bad. array_value t key et n bad)
    else if scalar_size ty == 0
    then (skip_value 3 ty >> pure t)
    else (uint ty >>= λ v. pure (put_int t key v))

unfoldable pub entry_value : Tables → List ℕ × Bool → ℕ → Bool → M Tables
entry_value t key ty true = pure t
entry_value t key ty false =
    if not key.1 || not (wanted key.0) then (skip_value 3 ty >> pure t) else value t key.0 ty

unfoldable pub entry : Tables → M Tables
unfolding entry_value
entry t = str max_key_len >>= λ key. u32 >>= λ ty. failed >>= λ bad. entry_value t key ty bad

unfoldable pub entries : ℕ → Tables → M Tables
entries zero t r = (t, r)
entries (suc n) t r =
    let more = entries n (entry t r).0 (entry t r).1 in
    let (bad, _) = failed r in if bad then (t, r) else more

abbrev int_of : Option ℕ → ℕ
int_of none = 0
int_of (some n) = n

abbrev str_of : Option (List ℕ) → List ℕ
str_of none = []
str_of (some s) = s

-- The head counts of the layers where the file gives them, and else one count for each layer.
unfoldable pub with_heads : Option ℕ → Option ℕ → Metadata → Metadata
with_heads (some sum) mx m = record m { kv_heads_total = sum; head_count_kv = int_of mx }
with_heads none mx m =
    let kv = if m.head_count_kv == 0 then m.head_count else m.head_count_kv in
    record m { head_count_kv = kv; kv_heads_total = u64_wrap (kv * m.block_count) }

abbrev no_metadata : Metadata
no_metadata = record {
  version = 0;
  tensor_count = 0;
  name = [];
  arch = [];
  size_label = [];
  file_type = 0;
  context_length = 0;
  block_count = 0;
  embedding_length = 0;
  head_count = 0;
  head_count_kv = 0;
  kv_heads_total = 0;
  key_length = 0;
  value_length = 0;
  expert_count = 0;
  expert_used = 0;
  sliding_win = 0;
  split_count = 0;
}

unfoldable pub of_tables : ℕ → ℕ → Tables → Metadata
unfolding find with_heads
of_tables version tensors t =
    let int = λ (k : List ℕ). int_of (find k t.ints) in
    let arch = str_of (find (codes "general.architecture") t.strs) in
    let key = λ (k : String). arch ++ codes k in
    let m = record no_metadata {
      version = version;
      tensor_count = tensors;
      name = str_of (find (codes "general.name") t.strs);
      size_label = str_of (find (codes "general.size_label") t.strs);
      arch = arch;
      file_type = min (int (codes "general.file_type")) (2 ^ 32 - 1);
      split_count = int (codes "split.count");
    } in
    elim arch [
      | [] ↦ m
      | _ ↦
          with_heads (find (key ".attention.head_count_kv") t.kv_heads)
            (find (key ".attention.head_count_kv") t.kv_max)
            (record m {
              context_length = int (key ".context_length");
              block_count = int (key ".block_count");
              embedding_length = int (key ".embedding_length");
              head_count = int (key ".attention.head_count");
              head_count_kv = int (key ".attention.head_count_kv");
              key_length = int (key ".attention.key_length");
              value_length = int (key ".attention.value_length");
              expert_count = int (key ".expert_count");
              expert_used = int (key ".expert_used_count");
              sliding_win = int (key ".attention.sliding_window");
            })
    ]

abbrev pub no_tables : Tables
no_tables = record { ints = []; strs = []; kv_heads = []; kv_max = [] }

abbrev pub error_of : M (Option Error)
error_of r = (r.err, r)

-- The early return of an error.
abbrev pub or_refuse : Option Error → M Outcome → M Outcome
or_refuse none next = next
or_refuse (some e) next = pure (refused e)

unfoldable pub body : ℕ → ℕ → ℕ → M Outcome
body version tensors kvs =
    if ltb max_kv_count kvs
    then pure (refused too_large)
    else (entries kvs no_tables >>= λ t.
        error_of >>= λ e. or_refuse e (pure (found (of_tables version tensors t))))

abbrev pub counts : ℕ → M Outcome
counts version =
    u64 >>= λ tensors. u64 >>= λ kvs. error_of >>= λ e. or_refuse e (body version tensors kvs)

abbrev pub versioned : ℕ → M Outcome
versioned version =
    if ltb version 2 || ltb 3 version
    then pure (refused (unsupported_version version))
    else counts version

abbrev pub bad_magic : Option Error → Error
bad_magic none = not_gguf
bad_magic (some truncated) = not_gguf
bad_magic (some e) = e

abbrev pub is_error : Option Error → Bool
is_error none = false
is_error (some e) = true

unfoldable pub header : M Outcome
unfolding body
header = bytes 4 >>= λ magic. error_of >>= λ e.
    if is_error e || not (same (or_empty magic) (codes "GGUF"))
    then pure (refused (bad_magic e))
    else (u32 >>= λ version. error_of >>= λ e'. or_refuse e' (versioned version))

unfoldable pub parse : List ℕ → Outcome
unfolding header
parse file = (header (record { rest = file; read = 0; err = none })).0
