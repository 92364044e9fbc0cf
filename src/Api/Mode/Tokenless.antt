-- ===== src/Api/Mode/Tokenless.antt =====
-- internal/api: a change of the mode without a token.
use benchwarmer.Prelude.{
  ℕ, ◌≡◌, ◌≢◌, inl, inr, refl, sym, subst, Bool, true, false, not, Option, none, some, String,
  arith, if-cases, length, ltb,
}
use benchwarmer.Platform.{Platform, codes}
use benchwarmer.Policy.Types.{Mode, ai_priority}
use benchwarmer.Controller.Types.{Controller}
use benchwarmer.Controller.Backend.{Calendar, set_mode, is_ai}
use benchwarmer.Api.Request.{Request, Net}
use benchwarmer.Api.Auth.{
  nobody, Authenticator, bearer, identify, trusted_loopback, local_write_barrier,
}
use benchwarmer.Api.Routes.{Endpoint, reaches, serve}
use benchwarmer.Api.Routes.Allowed.{HasShown, serve-HasShown}
use benchwarmer.Api.Mode.{
  ModeRequest, ModeReply, failed, changed, Body, decoded, undecoded, put_mode, valid_duration,
  is_mode, principal_name, change_as, put_valid, as_principal, set_by_of, store_mode,
}

not_ai : (m : Mode) → is_ai m ≡ false → m ≢ ai_priority
not_ai m n = λ h. ground arith

module _ (P : Platform) (N : Net) (k : Calendar) where
  identify-nobody :
      (now : ℕ) (r : Request) (a : Authenticator)
      → bearer N r ≡ none
      → identify N now r a ≡ (a, nobody)
  unfolding identify
  identify-nobody now r a h = ground arith

  -- A mode that was set without a token is not AI Priority, and the record says who set it.
  abbrev pub IsLocal : ModeRequest → Type 0
  IsLocal q = (q.mode ≢ ai_priority) × (q.principal ≡ "local") × (q.set_by ≡ codes "local")

  abbrev SetsLocal : Controller P × ModeReply → Type 0
  SetsLocal s = (q : ModeRequest) → s.1 ≡ changed q → IsLocal q

  failed-SetsLocal :
      (status : ℕ) (code : String) (c : Controller P) → SetsLocal (c, failed status code)
  failed-SetsLocal status code c q h = absurd (ground arith)

  store_mode-SetsLocal :
      (p : ModeRequest) (o : Option (Controller P)) (c : Controller P)
      → IsLocal p
      → SetsLocal (store_mode P N k p o c)
  store_mode-SetsLocal p none c l q h = absurd (ground arith)
  store_mode-SetsLocal p (some c2) c l q h = subst IsLocal {x = p} {y = q} (ground arith) l

  change_as-SetsLocal :
      (now : ℕ) (q : ModeRequest) (c : Controller P) → SetsLocal (change_as P N k now q nobody c)
  unfolding principal_name
  change_as-SetsLocal now q c =
      if-cases SetsLocal (is_ai q.mode) (λ _. failed-SetsLocal 401 "unauthorized" c)
        (λ n.
          store_mode-SetsLocal (as_principal P N k q nobody) (set_mode P k now q.mode q.duration c)
            c (not_ai q.mode n, refl, refl))

  abbrev LocalOf : Authenticator × (Controller P × ModeReply) → Type 0
  LocalOf s = SetsLocal s.1

  put_valid-LocalOf :
      (now : ℕ) (r : Request) (q : ModeRequest) (a : Authenticator) (c : Controller P)
      → bearer N r ≡ none
      → LocalOf (put_valid P N k now r q a c)
  put_valid-LocalOf now r q a c b =
      let by = set_by_of P N k q.set_by in
      if-cases LocalOf (ltb 64 (length by)) (λ _. failed-SetsLocal 400 "invalid_mode" c)
        (λ _.
          subst (λ i. SetsLocal (change_as P N k now (record q { set_by = by }) i.1 c))
            (sym (identify-nobody now r a b))
            (change_as-SetsLocal now (record q { set_by = by }) c))

  put_mode-LocalOf :
      (now : ℕ) (r : Request) (body : Body) (a : Authenticator) (c : Controller P)
      → bearer N r ≡ none
      → LocalOf (put_mode P N k now r body a c)
  unfolding put_mode
  put_mode-LocalOf now r (undecoded status code) a c b = failed-SetsLocal status code c
  put_mode-LocalOf now r (decoded q) a c b =
      let invalid = failed-SetsLocal 400 "invalid_mode" c in
      if-cases LocalOf (not (is_mode q.mode)) (λ _. invalid)
        (λ _.
          if-cases LocalOf (not (valid_duration k q.mode q.duration c.cfg.modes.max_ai_priority))
            (λ _. invalid) (λ _. put_valid-LocalOf now r q a c b))

  -- Without a token a mode is set only from this PC, under the trust in it and behind the barrier;
  -- it is not AI Priority, and the record names the person at this PC, whatever name was sent.
  pub tokenless_mode :
      (now later : ℕ) (r : Request) (trust : Bool) (body : Body) (limit : ℕ) (a : Authenticator)
      (c : Controller P) (q : ModeRequest)
      → bearer N r ≡ none
      → (serve N now r trust a).1 ≡ reaches Endpoint.put_mode limit
      → (put_mode P N k later r body (serve N now r trust a).0 c).1.1 ≡ changed q
      → (trusted_loopback N r ≡ true)
        × (trust ≡ true)
        × (local_write_barrier N r ≡ none)
        × IsLocal q
  tokenless_mode now later r trust body limit a c q b s h =
      let shown =
        subst (λ i. HasShown N i.1 r trust Endpoint.put_mode) (identify-nobody now r a b)
          (serve-HasShown N now r trust a Endpoint.put_mode limit s) in
      elim shown.1 [
        | inl bad ↦ absurd (ground arith)
        | inr (t, w) ↦ elim w [
          | inl bad ↦ absurd (ground arith)
          | inr (_, barrier) ↦
              (shown.0, t, barrier, put_mode-LocalOf later r body (serve N now r trust a).0 c b q h)
        ]
      ]
