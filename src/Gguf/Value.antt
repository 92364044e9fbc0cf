-- ===== src/Gguf/Value.antt =====
-- internal/gguf/gguf.go: the values of the header, by the number of their type.
use benchwarmer.Prelude.{
  ℕ, zero, suc, ◌*◌, ◌/◌, ◌^◌, ltb, ◌==◌, Bool, true, false, ◌||◌, List, Option, none, some,
  if◌then◌else◌,
}
use benchwarmer.Gguf.Reader.{
  M, ◌>>=◌, pure, failed, fail, too_large, malformed, max_header_bytes, bytes, skip, little_endian,
  u32, u64,
}

abbrev pub t_string : ℕ
t_string = 8

abbrev pub t_array : ℕ
t_array = 9

-- 0 stands for a type that is no scalar.
unfoldable pub scalar_size : ℕ → ℕ
scalar_size t =
    if t == 0 || t == 1 || t == 7
    then 1
    else if t == 2 || t == 3
    then 2
    else if t == 4 || t == 5 || t == 6
    then 4
    else if t == 10 || t == 11 || t == 12
    then 8
    else 0

-- The value of an integer type; false for other types and for negative values.
unfoldable pub integer : ℕ → ℕ → ℕ × Bool
integer t v =
    if t == 0 || t == 2 || t == 4 || t == 10
    then (v, true)
    else if t == 1
    then (v, ltb v (2 ^ 7))
    else if t == 3
    then (v, ltb v (2 ^ 15))
    else if t == 5
    then (v, ltb v (2 ^ 31))
    else if t == 11
    then (v, ltb v (2 ^ 63))
    else (0, false)

abbrev pub integer_of : ℕ → Option (List ℕ) → ℕ × Bool
integer_of t none = (0, false)
integer_of t (some b) = integer t (little_endian b)

unfoldable pub uint : ℕ → M (ℕ × Bool)
unfolding integer scalar_size
uint t = bytes (scalar_size t) >>= λ b. pure (integer_of t b)

-- `for i := 0; i < n && rd.err == nil; i++`
unfoldable pub each : ℕ → M (Unit {0}) → M (Unit {0})
each zero body r = (tt, r)
each (suc n) body r =
    let more = each n body (body r).1 in let (bad, _) = failed r in if bad then (tt, r) else more

abbrev pub items : ℕ → ℕ → M (Unit {0}) → M (Unit {0})
items et n item =
    if ltb 0 (scalar_size et)
    then (if ltb (max_header_bytes / scalar_size et) n
        then fail too_large
        else skip (n * scalar_size et))
    else each n item

abbrev pub array_body : ℕ → ℕ → M (Unit {0}) → Bool → M (Unit {0})
array_body et n item true = pure tt
array_body et n item false = items et n item

-- `skipValue`, with the number of levels that an array may still have: 3 - depth.
unfoldable pub skip_value : ℕ → ℕ → M (Unit {0})
unfolding scalar_size each
skip_value zero t =
    if ltb 0 (scalar_size t)
    then skip (scalar_size t)
    else if t == t_string
    then (u64 >>= λ n. skip n)
    else fail malformed
skip_value (suc levels) t =
    if ltb 0 (scalar_size t)
    then skip (scalar_size t)
    else if t == t_string
    then (u64 >>= λ n. skip n)
    else if t == t_array
    then (u32 >>= λ et. u64 >>= λ n. failed >>= λ bad. array_body et n (skip_value levels et) bad)
    else fail malformed

-- `skipValue2`, for an array whose header is read.
unfoldable pub skip_items : ℕ → ℕ → M (Unit {0})
unfolding scalar_size each
skip_items et n = items et n (skip_value 2 et)
