-- ===== src/Gguf/Reader.antt =====
-- internal/gguf/gguf.go: the reader. A method of `reader` is a function of the reader that returns its
-- result and the reader after it; the file is the list of the bytes to come.
use benchwarmer.Prelude.{
  ℕ, ◌+◌, ◌*◌, ltb, leb, Bool, true, false, not, List, [], ◌∷◌, Option, none, some, if◌then◌else◌,
  length, take, drop, is_some,
}

pub data Error : Type 0 where
  not_gguf truncated too_large malformed : Error
  unsupported_version : ℕ → Error

pub record Reader : Type 0 where
  pub rest : List ℕ
  pub read : ℕ
  pub err : Option Error

-- `MaxHeaderBytes`, 64 << 20
abbrev pub max_header_bytes : ℕ
max_header_bytes = 67_108_864

abbrev pub M : Type 0 → Type 0
M A = Reader → A × Reader

infixl 5 ◌>>=◌ ◌>>◌
unfoldable pub ◌>>=◌ : {A B : Type 0} → M A → (A → M B) → M B
◌>>=◌ m f r = let (a, r') = m r in f a r'

abbrev pub ◌>>◌ : {A B : Type 0} → M A → M B → M B
m >> k = m >>= λ _. k

abbrev pub pure : {A : Type 0} → A → M A
pure a r = (a, r)

-- `rd.err != nil`
abbrev pub failed : M Bool
failed r = (is_some r.err, r)

abbrev pub or_else : Option Error → Error → Option Error
or_else none e = some e
or_else (some d) e = some d

-- The first error stays.
unfoldable pub fail : Error → M (Unit {0})
fail e r = (tt, record r { err = or_else r.err e })

-- `take`: whether `n` more bytes may be read.
unfoldable pub allow : ℕ → M Bool
unfolding fail
allow n r =
    if is_some r.err
    then (false, r)
    else if ltb max_header_bytes (r.read + n)
    then (false, (fail too_large r).1)
    else (true, record r { read = r.read + n })

-- Where the file ends too soon, what is left of it is read.
abbrev pub at_end : M (Unit {0})
at_end r = fail truncated (record r { rest = [] })

abbrev pub read_full : ℕ → M (Option (List ℕ))
read_full n r =
    if leb n (length r.rest)
    then (some (take n r.rest), record r { rest = drop n r.rest })
    else (none, (at_end r).1)

-- None stands for a nil slice.
unfoldable pub bytes : ℕ → M (Option (List ℕ))
unfolding allow
bytes n r = let (ok, r') = allow n r in if ok then read_full n r' else (none, r')

abbrev pub discard : ℕ → M (Unit {0})
discard n r = if leb n (length r.rest) then (tt, record r { rest = drop n r.rest }) else at_end r

unfoldable pub skip : ℕ → M (Unit {0})
unfolding allow
skip n r =
    if ltb max_header_bytes n
    then fail too_large r
    else let (ok, r') = allow n r in if ok then discard n r' else fail too_large r'

-- `binary.LittleEndian`
unfoldable pub little_endian : List ℕ → ℕ
little_endian [] = 0
little_endian (b ∷ bs) = b + 256 * little_endian bs

abbrev or_zero : Option (List ℕ) → ℕ
or_zero none = 0
or_zero (some bs) = little_endian bs

unfoldable pub u32 : M ℕ
u32 = bytes 4 >>= λ b. pure (or_zero b)

unfoldable pub u64 : M ℕ
u64 = bytes 8 >>= λ b. pure (or_zero b)

abbrev pub or_empty : Option (List ℕ) → List ℕ
or_empty none = []
or_empty (some bs) = bs

abbrev pub str_body : ℕ → ℕ → Bool → M (List ℕ × Bool)
str_body limit n true = pure ([], false)
str_body limit n false =
    if ltb limit n
    then (skip n >> pure ([], false))
    else (bytes n >>= λ b. failed >>= λ bad. pure (or_empty b, not bad))

-- A text behind its length, of at most `limit` bytes.
unfoldable pub str : ℕ → M (List ℕ × Bool)
str limit = u64 >>= λ n. failed >>= λ bad. str_body limit n bad
