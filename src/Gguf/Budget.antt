-- ===== src/Gguf/Budget.antt =====
-- internal/gguf/gguf.go: the header is read from the first `MaxHeaderBytes` bytes of the file alone.
use benchwarmer.Prelude.{
  ℕ, zero, suc, ◌+◌, ◌-◌, ◌*◌, ◌/◌, ◌≤◌, ◌≡◌, refl, sym, ap, ◌∙◌, min, ltb, leb, ◌==◌, Bool, true,
  false, not, ◌||◌, List, [], ◌∷◌, Option, none, some, if◌then◌else◌, length, take, drop, is_some,
  arith, Bool-cases, inl, inr,
}
use benchwarmer.Platform.{codes, same}
use benchwarmer.Gguf.Reader.{
  or_empty, Error, Reader, M, ◌>>=◌, failed, fail, read_full, discard, max_header_bytes, bytes,
  skip, u32, u64, str, str_body, too_large, malformed,
}
use benchwarmer.Gguf.Value.{
  t_string, t_array, scalar_size, uint, each, items, array_body, skip_value, skip_items,
}
use benchwarmer.Gguf.Parse.{
  Outcome, Tables, heads, array_value, value, entry_value, entry, entries, error_of, or_refuse,
  body, header, parse, versioned, no_tables, add_head, has_suffix, wanted, max_kv_count,
  max_key_len, max_string_len, max_kept_array, is_error,
}

length-take {ℓ} : {A : Type ℓ} (n : ℕ) (xs : List A) → length (take n xs) ≡ min n (length xs)
length-take zero xs = omega arith
length-take (suc n) [] = omega arith
length-take (suc n) (x ∷ xs) = omega (arith, length-take n xs)

take-take {ℓ} : {A : Type ℓ} (n k : ℕ) (xs : List A) → n ≤ k → take n (take k xs) ≡ take n xs
take-take zero k xs h = refl
take-take (suc n) zero xs h = absurd (omega arith)
take-take (suc n) (suc k) [] h = refl
take-take (suc n) (suc k) (x ∷ xs) h = ap (λ l. x ∷ l) (take-take n k xs (omega arith))

take-nil {ℓ} : {A : Type ℓ} (n : ℕ) → take {A = A} n [] ≡ []
take-nil zero = refl
take-nil (suc n) = refl

drop-take {ℓ} :
    {A : Type ℓ} (n k : ℕ) (xs : List A) → n ≤ k → drop n (take k xs) ≡ take (k - n) (drop n xs)
drop-take zero k xs h = ap (λ m. take m xs) (omega arith)
drop-take (suc n) zero xs h = absurd (omega arith)
drop-take (suc n) (suc k) [] h = sym (take-nil (suc k - suc n))
drop-take (suc n) (suc k) (x ∷ xs) h =
    drop-take n k xs (omega arith) ∙ ap (λ m. take m (drop n xs)) (omega arith)

-- The reader of a file that ends where the budget does.
abbrev cut : Reader → Reader
cut r = record r { rest = take (max_header_bytes - r.read) r.rest }

-- The operation does not see whether the file goes on behind the budget.
record IsBlind {A : Type 0} (m : M A) : Type 0 where
  blind : (r : Reader) → m (cut r) ≡ ((m r).0, cut (m r).1)

bind-IsBlind :
    {A B : Type 0} (m : M A) (f : A → M B)
    → IsBlind m
    → ((a : A) → IsBlind (f a))
    → IsBlind (m >>= f)
unfolding ◌>>=◌
bind-IsBlind m f h k = record {
  blind = λ r. ap (λ x. f x.0 x.1) (h.blind r) ∙ (k (m r).0).blind (m r).1;
}

if-IsBlind :
    {A : Type 0} (b : Bool) (m n : M A) → IsBlind m → IsBlind n → IsBlind (if b then m else n)
if-IsBlind true m n hm hn = hm
if-IsBlind false m n hm hn = hn

fail-IsBlind : (e : Error) → IsBlind (fail e)
unfolding fail
fail-IsBlind e = record { blind = λ r. refl }

-- Whether `n` bytes are left is the same before the end of the budget.
left-cut : (n k : ℕ) (xs : List ℕ) → n ≤ k → leb n (length (take k xs)) ≡ leb n (length xs)
left-cut n k xs h = rw (length-take k xs) (ground arith)

dropped-cut :
    (n : ℕ) (r : Reader)
    → n + r.read ≤ max_header_bytes
    → drop n (take (max_header_bytes - r.read) r.rest)
      ≡ take (max_header_bytes - (r.read + n)) (drop n r.rest)
dropped-cut n r h =
    drop-take n (max_header_bytes - r.read) r.rest (omega arith)
    ∙ ap (λ m. take m (drop n r.rest)) (omega arith)

-- After `n` bytes are allowed.
read_full-cut :
    (n : ℕ) (r : Reader)
    → n + r.read ≤ max_header_bytes
    → let r' = record r { read = r.read + n } in
      read_full n (record r' { rest = take (max_header_bytes - r.read) r.rest })
      ≡ ((read_full n r').0, cut (read_full n r').1)
unfolding fail
read_full-cut n r h =
    rw (left-cut n (max_header_bytes - r.read) r.rest (omega arith))
      (elim (Bool-cases (leb n (length r.rest))) [
        | inl e ↦
            rw (e, take-take n (max_header_bytes - r.read) r.rest (omega arith), dropped-cut n r h)
              refl
        | inr e ↦ rw (e, take-nil (max_header_bytes - (r.read + n))) refl
      ])

discard-cut :
    (n : ℕ) (r : Reader)
    → n + r.read ≤ max_header_bytes
    → let r' = record r { read = r.read + n } in
      discard n (record r' { rest = take (max_header_bytes - r.read) r.rest })
      ≡ ((discard n r').0, cut (discard n r').1)
unfolding fail
discard-cut n r h =
    rw (left-cut n (max_header_bytes - r.read) r.rest (omega arith))
      (elim (Bool-cases (leb n (length r.rest))) [
        | inl e ↦ rw (e, dropped-cut n r h) refl
        | inr e ↦ rw (e, take-nil (max_header_bytes - (r.read + n))) refl
      ])

bytes-cut : (n : ℕ) (r : Reader) → bytes n (cut r) ≡ ((bytes n r).0, cut (bytes n r).1)
unfolding bytes fail
bytes-cut n r = elim (Bool-cases (is_some r.err)) [
  | inl e ↦ rw e refl
  | inr e ↦ elim (Bool-cases (ltb max_header_bytes (r.read + n))) [
    | inl f ↦ rw (e, f) refl
    | inr f ↦ rw (e, f) (read_full-cut n r (ground arith))
  ]
]

skip-cut : (n : ℕ) (r : Reader) → skip n (cut r) ≡ ((skip n r).0, cut (skip n r).1)
unfolding skip fail
skip-cut n r = elim (Bool-cases (ltb max_header_bytes n)) [
  | inl g ↦ rw g refl
  | inr g ↦ elim (Bool-cases (is_some r.err)) [
    | inl e ↦ rw (g, e) refl
    | inr e ↦ elim (Bool-cases (ltb max_header_bytes (r.read + n))) [
      | inl f ↦ rw (g, e, f) refl
      | inr f ↦ rw (g, e, f) (discard-cut n r (ground arith))
    ]
  ]
]

bytes-IsBlind : (n : ℕ) → IsBlind (bytes n)
bytes-IsBlind n = record { blind = bytes-cut n }

skip-IsBlind : (n : ℕ) → IsBlind (skip n)
skip-IsBlind n = record { blind = skip-cut n }

u32-IsBlind : IsBlind u32
unfolding u32
u32-IsBlind = bind-IsBlind (bytes 4) _ (bytes-IsBlind 4) (λ b. record { blind = λ r. refl })

u64-IsBlind : IsBlind u64
unfolding u64
u64-IsBlind = bind-IsBlind (bytes 8) _ (bytes-IsBlind 8) (λ b. record { blind = λ r. refl })

str_body-IsBlind : (limit n : ℕ) (bad : Bool) → IsBlind (str_body limit n bad)
str_body-IsBlind limit n true = record { blind = λ r. refl }
str_body-IsBlind limit n false =
    if-IsBlind (ltb limit n) _ _
      (bind-IsBlind (skip n) _ (skip-IsBlind n) (λ _. record { blind = λ r. refl }))
      (bind-IsBlind (bytes n) _ (bytes-IsBlind n) λ b.
        bind-IsBlind failed _ (record { blind = λ r. refl }) λ bad. record { blind = λ r. refl })

str-IsBlind : (limit : ℕ) → IsBlind (str limit)
unfolding str
str-IsBlind limit =
    bind-IsBlind u64 _ u64-IsBlind
      (λ n. bind-IsBlind failed _ (record { blind = λ r. refl }) (str_body-IsBlind limit n))

uint-IsBlind : (t : ℕ) → IsBlind (uint t)
unfolding uint
uint-IsBlind t =
    bind-IsBlind (bytes (scalar_size t)) _ (bytes-IsBlind (scalar_size t))
      (λ b. record { blind = λ r. refl })

each-cut :
    (n : ℕ) (body : M (Unit {0})) (r : Reader)
    → IsBlind body
    → each n body (cut r) ≡ ((each n body r).0, cut (each n body r).1)
unfolding each
each-cut zero body r h = refl
each-cut (suc n) body r h = elim (Bool-cases (is_some r.err)) [
  | inl e ↦ rw e refl
  | inr e ↦ rw (e, h.blind r) (each-cut n body (body r).1 h)
]

each-IsBlind : (n : ℕ) (body : M (Unit {0})) → IsBlind body → IsBlind (each n body)
each-IsBlind n body h = record { blind = λ r. each-cut n body r h }

items-IsBlind : (et n : ℕ) (item : M (Unit {0})) → IsBlind item → IsBlind (items et n item)
items-IsBlind et n item h =
    if-IsBlind (ltb 0 (scalar_size et)) _ _
      (if-IsBlind (ltb (max_header_bytes / scalar_size et) n) _ _ (fail-IsBlind too_large)
        (skip-IsBlind (n * scalar_size et)))
      (each-IsBlind n item h)

array_body-IsBlind :
    (et n : ℕ) (item : M (Unit {0})) (bad : Bool)
    → IsBlind item
    → IsBlind (array_body et n item bad)
array_body-IsBlind et n item true h = record { blind = λ r. refl }
array_body-IsBlind et n item false h = items-IsBlind et n item h

skip_text-IsBlind : IsBlind (u64 >>= λ n. skip n)
skip_text-IsBlind = bind-IsBlind u64 _ u64-IsBlind skip-IsBlind

skip_value-IsBlind : (levels t : ℕ) → IsBlind (skip_value levels t)
unfolding skip_value
skip_value-IsBlind zero t =
    if-IsBlind (ltb 0 (scalar_size t)) _ _ (skip-IsBlind (scalar_size t))
      (if-IsBlind (t == t_string) _ _ skip_text-IsBlind (fail-IsBlind malformed))
skip_value-IsBlind (suc levels) t =
    if-IsBlind (ltb 0 (scalar_size t)) _ _ (skip-IsBlind (scalar_size t)) (
      if-IsBlind (t == t_string) _ _ skip_text-IsBlind (
        if-IsBlind (t == t_array) _ _
          (bind-IsBlind u32 _ u32-IsBlind λ et. bind-IsBlind u64 _ u64-IsBlind λ n.
            bind-IsBlind failed _ (record { blind = λ r. refl })
              λ bad.
                array_body-IsBlind et n (skip_value levels et) bad (skip_value-IsBlind levels et))
          (fail-IsBlind malformed)))

skip_items-IsBlind : (et n : ℕ) → IsBlind (skip_items et n)
unfolding skip_items
skip_items-IsBlind et n = items-IsBlind et n (skip_value 2 et) (skip_value-IsBlind 2 et)

heads-cut :
    (n et sum mx : ℕ) (r : Reader)
    → heads n et sum mx (cut r) ≡ ((heads n et sum mx r).0, cut (heads n et sum mx r).1)
unfolding heads
heads-cut zero et sum mx r = refl
heads-cut (suc n) et sum mx r = elim (Bool-cases (is_some r.err)) [
  | inl e ↦ rw e refl
  | inr e ↦
      rw (e, (uint-IsBlind et).blind r)
        (heads-cut n et (add_head sum mx (uint et r).0).0 (add_head sum mx (uint et r).0).1
          (uint et r).1)
]

heads-IsBlind : (n et sum mx : ℕ) → IsBlind (heads n et sum mx)
heads-IsBlind n et sum mx = record { blind = heads-cut n et sum mx }

array_value-IsBlind :
    (t : Tables) (key : List ℕ) (et n : ℕ) (bad : Bool) → IsBlind (array_value t key et n bad)
unfolding array_value
array_value-IsBlind t key et n true = record { blind = λ r. refl }
array_value-IsBlind t key et n false =
    if-IsBlind
      (scalar_size et == 0
        || ltb max_kept_array n
        || not (has_suffix key ".attention.head_count_kv"))
      _ _
      (bind-IsBlind (skip_items et n) _ (skip_items-IsBlind et n)
        (λ _. record { blind = λ r. refl }))
      (bind-IsBlind (heads n et 0 0) _ (heads-IsBlind n et 0 0) (λ _. record { blind = λ r. refl }))

value-IsBlind : (t : Tables) (key : List ℕ) (ty : ℕ) → IsBlind (value t key ty)
unfolding value
value-IsBlind t key ty =
    if-IsBlind (ty == t_string) _ _
      (bind-IsBlind (str max_string_len) _ (str-IsBlind max_string_len)
        (λ _. record { blind = λ r. refl }))
      (if-IsBlind (ty == t_array) _ _
        (bind-IsBlind u32 _ u32-IsBlind λ et. bind-IsBlind u64 _ u64-IsBlind λ n.
          bind-IsBlind failed _ (record { blind = λ r. refl }) (array_value-IsBlind t key et n))
        (if-IsBlind (scalar_size ty == 0) _ _
          (bind-IsBlind (skip_value 3 ty) _ (skip_value-IsBlind 3 ty)
            (λ _. record { blind = λ r. refl }))
          (bind-IsBlind (uint ty) _ (uint-IsBlind ty) (λ _. record { blind = λ r. refl }))))

entry_value-IsBlind :
    (t : Tables) (key : List ℕ × Bool) (ty : ℕ) (bad : Bool) → IsBlind (entry_value t key ty bad)
unfolding entry_value
entry_value-IsBlind t key ty true = record { blind = λ r. refl }
entry_value-IsBlind t key ty false =
    if-IsBlind (not key.1 || not (wanted key.0)) _ _
      (bind-IsBlind (skip_value 3 ty) _ (skip_value-IsBlind 3 ty)
        (λ _. record { blind = λ r. refl }))
      (value-IsBlind t key.0 ty)

entry-IsBlind : (t : Tables) → IsBlind (entry t)
unfolding entry
entry-IsBlind t = bind-IsBlind (str max_key_len) _ (str-IsBlind max_key_len) λ key.
    bind-IsBlind u32 _ u32-IsBlind
      λ ty. bind-IsBlind failed _ (record { blind = λ r. refl }) (entry_value-IsBlind t key ty)

entries-cut :
    (n : ℕ) (t : Tables) (r : Reader)
    → entries n t (cut r) ≡ ((entries n t r).0, cut (entries n t r).1)
unfolding entries
entries-cut zero t r = refl
entries-cut (suc n) t r = elim (Bool-cases (is_some r.err)) [
  | inl e ↦ rw e refl
  | inr e ↦ rw (e, (entry-IsBlind t).blind r) (entries-cut n (entry t r).0 (entry t r).1)
]

entries-IsBlind : (n : ℕ) (t : Tables) → IsBlind (entries n t)
entries-IsBlind n t = record { blind = entries-cut n t }

or_refuse-IsBlind : (e : Option Error) (m : M Outcome) → IsBlind m → IsBlind (or_refuse e m)
or_refuse-IsBlind none m h = h
or_refuse-IsBlind (some e) m h = record { blind = λ r. refl }

body-IsBlind : (version tensors kvs : ℕ) → IsBlind (body version tensors kvs)
unfolding body
body-IsBlind version tensors kvs =
    if-IsBlind (ltb max_kv_count kvs) _ _ (record { blind = λ r. refl })
      (bind-IsBlind (entries kvs no_tables) _ (entries-IsBlind kvs no_tables) λ t.
        bind-IsBlind error_of _ (record { blind = λ r. refl })
          λ e. or_refuse-IsBlind e _ (record { blind = λ r. refl }))

versioned-IsBlind : (version : ℕ) → IsBlind (versioned version)
versioned-IsBlind version =
    if-IsBlind (ltb version 2 || ltb 3 version) _ _ (record { blind = λ r. refl })
      (bind-IsBlind u64 _ u64-IsBlind λ tensors. bind-IsBlind u64 _ u64-IsBlind λ kvs.
        bind-IsBlind error_of _ (record { blind = λ r. refl })
          λ e. or_refuse-IsBlind e _ (body-IsBlind version tensors kvs))

header-IsBlind : IsBlind header
unfolding header
header-IsBlind = bind-IsBlind (bytes 4) _ (bytes-IsBlind 4) λ magic.
    bind-IsBlind error_of _ (record { blind = λ r. refl })
      λ e.
        if-IsBlind (is_error e || not (same (or_empty magic) (codes "GGUF"))) _ _
          (record { blind = λ r. refl })
          (bind-IsBlind u32 _ u32-IsBlind λ version.
            bind-IsBlind error_of _ (record { blind = λ r. refl })
              λ e'. or_refuse-IsBlind e' _ (versioned-IsBlind version))

-- The outcome for a file, metadata or error, is that for its first `MaxHeaderBytes` bytes: however
-- long the file is and whatever lengths and counts it declares, nothing behind them is looked at.
pub parse_budget : (file : List ℕ) → parse file ≡ parse (take max_header_bytes file)
unfolding parse
parse_budget file =
    sym (ap (λ x. x.0) (header-IsBlind.blind (record { rest = file; read = 0; err = none })))
