-- ===== src/Api/SignIn/Bounded.antt =====
-- internal/api/signin.go: the sizes of the two maps.
use benchwarmer.Prelude.{
  ℕ, ◌≡◌, ◌≤◌, inl, inr, refl, suc, true, List, [], ◌∷◌, Option, none, some, arith, Option-cases,
  length, is_some,
}
use benchwarmer.Api.SignIn.{
  Expiries, expiry, delete, live, oldest, SignIn, Call, registers, redeems, checks, register,
  redeem, valid_session, after, run, new_sign_in, make_room,
}

length-delete : (k : ℕ) (m : Expiries) → length (delete k m) ≤ length m
unfolding delete
length-delete k [] = omega arith
length-delete k (x ∷ m) = ground (arith, length-delete k m)

length-live : (now : ℕ) (m : Expiries) → length (live now m) ≤ length m
unfolding live
length-live now [] = omega arith
length-live now (x ∷ m) = ground (arith, length-live now m)

-- A key of the map is removed.
length-delete_key :
    (k e : ℕ) (m : Expiries) → expiry k m ≡ some e → suc (length (delete k m)) ≤ length m
unfolding delete expiry
length-delete_key k e [] h = absurd (ground arith)
length-delete_key k e (x ∷ m) h = ground (arith, length-delete k m, length-delete_key k e m)

-- The oldest entry stands in the map.
oldest-key : (m : Expiries) (y : ℕ × ℕ) → oldest m ≡ some y → is_some (expiry y.0 m) ≡ true
unfolding oldest expiry
oldest-key [] y h = absurd (ground arith)
oldest-key (x ∷ m) y h = elim (Option-cases (oldest m)) [
  | inl n ↦ ground arith
  | inr (z, e) ↦ ground (arith, oldest-key m z e)
]

oldest-none : (m : Expiries) → oldest m ≡ none → length m ≡ 0
unfolding oldest
oldest-none [] h = refl
oldest-none (x ∷ m) h = absurd (ground arith)

oldest_shorter :
    (m : Expiries) (x : ℕ × ℕ) → oldest m ≡ some x → suc (length (delete x.0 m)) ≤ length m
oldest_shorter m x h = elim (Option-cases (expiry x.0 m)) [
  | inl n ↦ absurd (ground (arith, oldest-key m x h))
  | inr (e, q) ↦ length-delete_key x.0 e m q
]

length-make_room : (m : Expiries) → length m ≤ 16 → suc (length (make_room m)) ≤ 16
length-make_room m h = elim (Option-cases (oldest m)) [
  | inl n ↦ ground (arith, oldest-none m n)
  | inr (x, e) ↦ ground (arith, oldest_shorter m x e)
]

module _ (digest : List ℕ → ℕ) where
  -- The bounds of the two maps.
  abbrev pub IsBounded : SignIn → Type 0
  IsBounded s = (length s.codes ≤ 8) × (length s.sessions ≤ 16)

  register-IsBounded :
      (now : ℕ) (code : List ℕ) (s : SignIn)
      → IsBounded s
      → IsBounded (register digest now code s).0
  unfolding register
  register-IsBounded now code s (a, b) =
      ground (arith, length-live now s.codes, length-delete (digest code) (live now s.codes))

  redeem-IsBounded :
      (now : ℕ) (fresh : Option (List ℕ)) (code : List ℕ) (s : SignIn)
      → IsBounded s
      → IsBounded (redeem digest now fresh code s).0
  unfolding redeem
  redeem-IsBounded now none code s (a, b) = ground (arith, length-delete (digest code) s.codes)
  redeem-IsBounded now (some tok) code s (a, b) = ground (
    arith,
    length-delete (digest code) s.codes,
    length-make_room (live now s.sessions),
    length-live now s.sessions,
    length-delete (digest tok) (make_room (live now s.sessions)),
  )

  valid_session-IsBounded :
      (now : ℕ) (tok : List ℕ) (s : SignIn)
      → IsBounded s
      → IsBounded (valid_session digest now tok s).0
  unfolding valid_session
  valid_session-IsBounded now tok s (a, b) = ground (arith, length-delete (digest tok) s.sessions)

  after-IsBounded : (c : Call) (s : SignIn) → IsBounded s → IsBounded (after digest c s)
  after-IsBounded (registers now code) s h = register-IsBounded now code s h
  after-IsBounded (redeems now fresh code) s h = redeem-IsBounded now fresh code s h
  after-IsBounded (checks now tok) s h = valid_session-IsBounded now tok s h

  run_from-IsBounded : (cs : List Call) (s : SignIn) → IsBounded s → IsBounded (run digest cs s)
  unfolding run
  run_from-IsBounded [] s h = h
  run_from-IsBounded (c ∷ cs) s h = run_from-IsBounded cs (after digest c s) (after-IsBounded c s h)

  -- After any calls on a new sign-in at most 8 codes are pending and at most 16 sessions are held.
  pub run-IsBounded : (cs : List Call) → IsBounded (run digest cs new_sign_in)
  run-IsBounded cs = run_from-IsBounded cs new_sign_in (omega arith, omega arith)
