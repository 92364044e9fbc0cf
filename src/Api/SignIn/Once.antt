-- ===== src/Api/SignIn/Once.antt =====
-- internal/api/signin.go: a sign-in code is exchanged at most once.
use benchwarmer.Prelude.{
  ℕ, ◌≡◌, ◌≢◌, refl, sym, subst, ◌+◌, List, [], ◌∷◌, Option, none, some, arith, All,
}
use benchwarmer.Api.SignIn.{
  code_ttl, Expiries, expiry, delete, live, put, SignIn, Call, registers, redeems, checks, register,
  redeem, valid_session, after, run,
}

expiry-delete : (k j : ℕ) (m : Expiries) → expiry k m ≡ none → expiry k (delete j m) ≡ none
unfolding expiry delete
expiry-delete k j [] h = refl
expiry-delete k j (x ∷ m) h = ground (arith, expiry-delete k j m)

expiry-delete_same : (k : ℕ) (m : Expiries) → expiry k (delete k m) ≡ none
unfolding expiry delete
expiry-delete_same k [] = refl
expiry-delete_same k (x ∷ m) = ground (arith, expiry-delete_same k m)

expiry-live : (k now : ℕ) (m : Expiries) → expiry k m ≡ none → expiry k (live now m) ≡ none
unfolding expiry live
expiry-live k now [] h = refl
expiry-live k now (x ∷ m) h = ground (arith, expiry-live k now m)

expiry-put : (k j e : ℕ) (m : Expiries) → j ≢ k → expiry k m ≡ none → expiry k (put j e m) ≡ none
unfolding expiry
expiry-put k j e m ne h = ground (arith, expiry-delete k j m)

module _ (digest : List ℕ → ℕ) where
  -- The code is not pending.
  abbrev IsGone : ℕ → SignIn → Type 0
  IsGone k s = expiry k s.codes ≡ none

  -- The call does not register a code with this digest.
  abbrev pub Leaves : ℕ → Call → Type 0
  Leaves k (registers now code) = digest code ≢ k
  Leaves k (redeems now fresh code) = Unit
  Leaves k (checks now tok) = Unit

  redeem-IsGone :
      (k now : ℕ) (fresh : Option (List ℕ)) (code : List ℕ) (s : SignIn)
      → IsGone k s
      → IsGone k (redeem digest now fresh code s).0
  unfolding redeem
  redeem-IsGone k now fresh code s h = ground (arith, expiry-delete k (digest code) s.codes)

  register-IsGone :
      (k now : ℕ) (code : List ℕ) (s : SignIn)
      → digest code ≢ k
      → IsGone k s
      → IsGone k (register digest now code s).0
  unfolding register
  register-IsGone k now code s ne h = ground (
    arith,
    expiry-live k now s.codes,
    expiry-put k (digest code) (now + code_ttl) (live now s.codes),
  )

  valid_session-IsGone :
      (k now : ℕ) (tok : List ℕ) (s : SignIn)
      → IsGone k s
      → IsGone k (valid_session digest now tok s).0
  unfolding valid_session
  valid_session-IsGone k now tok s h = ground arith

  after-IsGone :
      (k : ℕ) (c : Call) (s : SignIn) → Leaves k c → IsGone k s → IsGone k (after digest c s)
  after-IsGone k (registers now code) s ne h = register-IsGone k now code s ne h
  after-IsGone k (redeems now fresh code) s l h = redeem-IsGone k now fresh code s h
  after-IsGone k (checks now tok) s l h = valid_session-IsGone k now tok s h

  run-IsGone :
      (k : ℕ) (cs : List Call) (s : SignIn)
      → All (Leaves k) cs
      → IsGone k s
      → IsGone k (run digest cs s)
  unfolding run
  run-IsGone k [] s l h = h
  run-IsGone k (c ∷ cs) s l h = run-IsGone k cs (after digest c s) l.1 (after-IsGone k c s l.0 h)

  -- A code that was exchanged is no longer pending.
  redeemed-IsGone :
      (now : ℕ) (fresh : Option (List ℕ)) (code tok : List ℕ) (s : SignIn)
      → (redeem digest now fresh code s).1 ≡ some tok
      → IsGone (digest code) (redeem digest now fresh code s).0
  unfolding redeem
  redeemed-IsGone now fresh code tok s h = ground (arith, expiry-delete_same (digest code) s.codes)

  gone-redeem :
      (now : ℕ) (fresh : Option (List ℕ)) (code : List ℕ) (s : SignIn)
      → IsGone (digest code) s
      → (redeem digest now fresh code s).1 ≡ none
  unfolding redeem
  gone-redeem now fresh code s h = ground arith

  -- If a code was exchanged for a token, then after any calls that do not register a code with its
  -- digest again, no code with that digest is exchanged, whatever the time.
  pub redeemed_once :
      (now later : ℕ) (fresh again : Option (List ℕ)) (code code2 tok : List ℕ) (s : SignIn)
      (cs : List Call)
      → (redeem digest now fresh code s).1 ≡ some tok
      → All (Leaves (digest code)) cs
      → digest code2 ≡ digest code
      → (redeem digest later again code2 (run digest cs (redeem digest now fresh code s).0)).1
        ≡ none
  redeemed_once now later fresh again code code2 tok s cs h l same =
      gone-redeem later again code2 (run digest cs (redeem digest now fresh code s).0) (
        subst (λ k. IsGone k (run digest cs (redeem digest now fresh code s).0)) (sym same)
          (run-IsGone (digest code) cs (redeem digest now fresh code s).0 l
            (redeemed-IsGone now fresh code tok s h)))
