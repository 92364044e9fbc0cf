-- ===== src/Proxy/Usage/Window.antt =====
-- internal/proxy/usage.go: however the response is read, its first and its last bytes are kept.
use mathlib.Core.List.{append-nil, append_assoc}
use benchwarmer.Prelude.{
  ℕ, zero, suc, ◌+◌, ◌-◌, ◌*◌, ◌≤◌, min, ltb, ◌≡◌, ◌⊎◌, inl, inr, refl, sym, ap, subst, ◌∙◌, List,
  [], ◌∷◌, ◌++◌, take, drop, length, length-append, if◌then◌else◌, if-cases, arith,
}
use benchwarmer.Proxy.Usage.{
  Usage, new_usage, usage_head_bytes, usage_tail_bytes, last, add_head, observe, tail_bytes,
}

module _ {ℓ} {A : Type ℓ} where
  take_same : (m n : ℕ) (xs : List A) → m ≡ n → take m xs ≡ take n xs
  take_same m n xs e = ap (λ k. take k xs) e

  drop_same : (m n : ℕ) (xs : List A) → m ≡ n → drop m xs ≡ drop n xs
  drop_same m n xs e = ap (λ k. drop k xs) e

  take-nil : (n : ℕ) → take {A = A} n [] ≡ []
  take-nil zero = refl
  take-nil (suc n) = refl

  take-min-length : (n : ℕ) (xs : List A) → take (min n (length xs)) xs ≡ take n xs
  take-min-length zero xs = take_same (min 0 (length xs)) 0 xs (omega arith)
  take-min-length (suc n) [] = take-nil (min (suc n) 0)
  take-min-length (suc n) (x ∷ xs) =
      take_same (min (suc n) (suc (length xs))) (suc (min n (length xs))) (x ∷ xs) (omega arith)
      ∙ ap (λ l. x ∷ l) (take-min-length n xs)

  take-append : (n : ℕ) (xs ys : List A) → take n (xs ++ ys) ≡ take n xs ++ take (n - length xs) ys
  take-append n [] ys =
      take_same n (n - 0) ys (omega arith) ∙ ap (λ l. l ++ take (n - 0) ys) (sym (take-nil n))
  take-append zero (x ∷ xs) ys = take_same 0 (0 - suc (length xs)) ys (omega arith)
  take-append (suc n) (x ∷ xs) ys =
      ap (λ l. x ∷ l)
        (take-append n xs ys
          ∙ ap (λ l. take n xs ++ l)
              (take_same (n - length xs) (suc n - suc (length xs)) ys (omega arith)))

  length-take : (n : ℕ) (xs : List A) → length (take n xs) ≡ min n (length xs)
  length-take zero xs = omega arith
  length-take (suc n) [] = omega arith
  length-take (suc n) (x ∷ xs) = omega (arith, length-take n xs)

  take-drop_lem : (n : ℕ) (xs : List A) → take n xs ++ drop n xs ≡ xs
  take-drop_lem zero xs = refl
  take-drop_lem (suc n) [] = refl
  take-drop_lem (suc n) (x ∷ xs) = ap (λ l. x ∷ l) (take-drop_lem n xs)

  length-drop : (n : ℕ) (xs : List A) → length (drop n xs) ≡ length xs - n
  length-drop zero xs = omega arith
  length-drop (suc n) [] = omega arith
  length-drop (suc n) (x ∷ xs) = omega (arith, length-drop n xs)

  drop-append_length : (n : ℕ) (xs ys : List A) → drop (length xs + n) (xs ++ ys) ≡ drop n ys
  drop-append_length n [] ys = drop_same (0 + n) n ys (omega arith)
  drop-append_length n (x ∷ xs) ys =
      drop_same (suc (length xs) + n) (suc (length xs + n)) (x ∷ (xs ++ ys)) (omega arith)
      ∙ drop-append_length n xs ys

room_eq : (n : ℕ) (whole : List ℕ) → n - length (take n whole) ≡ n - length whole
room_eq n whole = omega (arith, length-take n whole)

head-append :
    (n : ℕ) (whole p : List ℕ)
    → (if ltb 0 (n - length (take n whole))
        then take n whole ++ take (min (n - length (take n whole)) (length p)) p
        else take n whole)
      ≡ take n (whole ++ p)
head-append n whole p =
    let room = n - length (take n whole) in
    if-cases (λ l. l ≡ take n (whole ++ p)) (ltb 0 room)
      (λ _.
        ap (λ l. take n whole ++ l)
          (take-min-length room p ∙ take_same room (n - length whole) p (room_eq n whole))
        ∙ sym (take-append n whole p))
      (λ z.
        sym (append-nil (take n whole))
        ∙ ap (λ l. take n whole ++ l)
            (take_same 0 (n - length whole) p (ground (arith, room_eq n whole)))
        ∙ sym (take-append n whole p))

-- The last bytes are those of the tail.
last-append : (n : ℕ) (xs ys : List ℕ) → n ≤ length ys → last n (xs ++ ys) ≡ last n ys
last-append n xs ys h =
    drop_same (length (xs ++ ys) - n) (length xs + (length ys - n)) (xs ++ ys)
      (omega (arith, length-append xs ys))
    ∙ drop-append_length (length ys - n) xs ys

last_whole : (n : ℕ) (xs : List ℕ) → length xs ≤ n → last n xs ≡ xs
last_whole n xs h = drop_same (length xs - n) 0 xs (omega arith)

-- If the tail is all that was read, or long enough, then its last bytes are the last of all.
last_kept :
    (n : ℕ) (before tail : List ℕ)
    → (before ≡ []) ⊎ (n ≤ length tail)
    → (if ltb n (length tail) then last n tail else tail) ≡ last n (before ++ tail)
last_kept n before tail h =
    if-cases (λ l. l ≡ last n (before ++ tail)) (ltb n (length tail))
      (λ y. sym (last-append n before tail (ground arith)))
      (λ short. elim h [
        | inl e ↦ sym (last_whole n tail (ground arith)) ∙ ap (λ b. last n (b ++ tail)) (sym e)
        | inr le ↦ sym (last_whole n tail (ground arith)) ∙ sym (last-append n before tail le)
      ])

-- The tail, whose bound is twice the number of bytes to keep
record IsWindow (n : ℕ) (whole tail : List ℕ) : Type 0 where
  before : List ℕ
  split_at : whole ≡ before ++ tail
  enough : (before ≡ []) ⊎ (n ≤ length tail)
  bounded : length tail ≤ 2 * n

cut-IsWindow :
    (n : ℕ) (before tail : List ℕ)
    → (before ≡ []) ⊎ (n ≤ length tail)
    → IsWindow n (before ++ tail) (if ltb (2 * n) (length tail) then last n tail else tail)
cut-IsWindow n before tail h =
    let k = length tail - n in
    if-cases (IsWindow n (before ++ tail)) (ltb (2 * n) (length tail))
      (λ y. record {
        before = before ++ take k tail;
        split_at =
            ap (λ l. before ++ l) (sym (take-drop_lem k tail))
            ∙ sym (append_assoc before (take k tail) (drop k tail));
        enough = inr (ground (arith, length-drop k tail));
        bounded = ground (arith, length-drop k tail);
      })
      (λ s. record { before = before; split_at = refl; enough = h; bounded = ground arith })

IsWindow-append :
    (n : ℕ) (whole tail p : List ℕ)
    → IsWindow n whole tail
    → IsWindow n
        (whole ++ p)
        (if ltb (2 * n) (length (tail ++ p)) then last n (tail ++ p) else tail ++ p)
IsWindow-append n whole tail p w =
    let e = ap (λ l. l ++ p) w.split_at ∙ append_assoc w.before tail p in
    let more = length-append tail p in
    let enough : (w.before ≡ []) ⊎ (n ≤ length (tail ++ p)) = elim w.enough [
      | inl z ↦ inl z
      | inr le ↦ inr (omega (arith, more))
    ] in
    subst
      (λ l.
        IsWindow n l (if ltb (2 * n) (length (tail ++ p)) then last n (tail ++ p) else tail ++ p))
      (sym e) (cut-IsWindow n w.before (tail ++ p) enough)

-- What the tap has kept of the bytes that were read
record IsTap (whole : List ℕ) (u : Usage) : Type 0 where
  head_kept : u.head ≡ take usage_head_bytes whole
  window : IsWindow usage_tail_bytes whole u.tail

tail_bytes_lem :
    (whole : List ℕ) (u : Usage) → IsTap whole u → tail_bytes u ≡ last usage_tail_bytes whole
unfolding tail_bytes
tail_bytes_lem whole u t =
    last_kept usage_tail_bytes t.window.before u.tail t.window.enough
    ∙ sym (ap (last usage_tail_bytes) t.window.split_at)

observe-IsTap :
    (now : ℕ) (p whole : List ℕ) (u : Usage) → IsTap whole u → IsTap (whole ++ p) (observe now p u)
unfolding observe
observe-IsTap now [] whole u t = subst (λ l. IsTap l u) (sym (append-nil whole)) t
observe-IsTap now (c ∷ s) whole u t = record {
  head_kept = ap (add_head (c ∷ s)) t.head_kept ∙ head-append usage_head_bytes whole (c ∷ s);
  window = IsWindow-append usage_tail_bytes whole u.tail (c ∷ s) t.window;
}

-- The reads of a response, each at its time
abbrev pub Reads : Type 0
Reads = List (ℕ × List ℕ)

abbrev pub all_bytes : Reads → List ℕ
all_bytes [] = []
all_bytes ((now, p) ∷ rs) = p ++ all_bytes rs

abbrev pub observe_all : Reads → Usage → Usage
observe_all [] u = u
observe_all ((now, p) ∷ rs) u = observe_all rs (observe now p u)

observe_all-IsTap :
    (rs : Reads) (whole : List ℕ) (u : Usage)
    → IsTap whole u
    → IsTap (whole ++ all_bytes rs) (observe_all rs u)
observe_all-IsTap [] whole u t = subst (λ l. IsTap l u) (sym (append-nil whole)) t
observe_all-IsTap ((now, p) ∷ rs) whole u t =
    subst (λ l. IsTap l (observe_all rs (observe now p u))) (append_assoc whole p (all_bytes rs))
      (observe_all-IsTap rs (whole ++ p) (observe now p u) (observe-IsTap now p whole u t))

-- However the response is cut into reads, the head is its first 4096 bytes and what the log line looks
-- at besides is its last 8192 bytes, as many as there are; and the tail is never longer than twice that.
pub observe_all-window :
    (start : ℕ) (rs : Reads)
    → let u = observe_all rs (new_usage start) in
      (u.head ≡ take usage_head_bytes (all_bytes rs))
      × (tail_bytes u ≡ last usage_tail_bytes (all_bytes rs))
      × (length u.tail ≤ 2 * usage_tail_bytes)
observe_all-window start rs =
    let t = observe_all-IsTap rs [] (new_usage start) (record {
      head_kept = refl;
      window = record { before = []; split_at = refl; enough = inl refl; bounded = omega arith };
    }) in
    (
      t.head_kept,
      tail_bytes_lem (all_bytes rs) (observe_all rs (new_usage start)) t,
      t.window.bounded,
    )
