-- ===== src/Api/Mode/Answers.antt =====
-- internal/api: what is answered to a request to change the mode.
use benchwarmer.Prelude.{
  ℕ, ◌≡◌, ◌≢◌, inl, inr, refl, sym, Bool, true, false, not, ◌&&◌, Option, none, some, String, arith,
  if-cases, length, ◌<◌, ltb,
}
use benchwarmer.Platform.{Platform}
use benchwarmer.Policy.Types.{Mode, auto, pause, ai_priority}
use benchwarmer.Controller.Types.{Controller}
use benchwarmer.Controller.Backend.{Calendar, set_mode, is_ai}
use benchwarmer.Controller.Backend.Modes.{IsBadDuration, set_mode-none}
use benchwarmer.Api.Request.{Request, Net}
use benchwarmer.Api.Auth.{Principal, Authenticator, identify}
use benchwarmer.Api.Mode.{
  ModeRequest, ModeReply, failed, changed, decoded, put_mode, valid_duration, is_mode, change_as,
  is_nobody, put_valid, as_principal, set_by_of, store_mode,
}

is_mode_unset : (m : Mode) → m ≡ Mode.unset → is_mode m ≢ true
is_mode_unset m u = λ y. ground arith

un_not : {b : Bool} → not b ≡ false → b ≡ true
un_not h = ground arith

module _ (P : Platform) (N : Net) (k : Calendar) where
  -- A duration that the handler accepts is not one that `SetMode` refuses.
  valid_duration-good :
      (m : Mode) (d : String) (max_ai : ℕ)
      → valid_duration k m d max_ai ≡ true
      → ¬ (IsBadDuration P k d)
  unfolding valid_duration
  valid_duration-good auto d max_ai v = λ b. ground arith
  valid_duration-good pause d max_ai v = λ b. ground arith
  valid_duration-good ai_priority d max_ai v = λ b. ground arith
  valid_duration-good Mode.unset d max_ai v = λ b. ground arith

  valid-sets :
      (now : ℕ) (m : Mode) (d : String) (max_ai : ℕ) (c : Controller P)
      → is_mode m ≡ true
      → valid_duration k m d max_ai ≡ true
      → set_mode P k now m d c ≢ none
  valid-sets now m d max_ai c y v = λ h. elim ((set_mode-none P k now m d c).0 h) [
    | inl u ↦ is_mode_unset m u y
    | inr (n, bad) ↦ valid_duration-good m d max_ai v bad
  ]

  -- What a reply says of the state: after an error it is as it was, and a change is that of `SetMode` for
  -- the mode and the duration that were asked for.
  abbrev pub Tells : ℕ → ModeRequest → Controller P → Controller P → ModeReply → Type 0
  Tells now q c c2 (failed status code) = c2 ≡ c
  Tells now q c c2 (changed r) =
      (r.mode ≡ q.mode)
      × (r.duration ≡ q.duration)
      × (set_mode P k now q.mode q.duration c ≡ some c2)

  -- Not an internal error, and true of the state
  abbrev pub IsAnswer : ℕ → ModeRequest → Controller P → Controller P × ModeReply → Type 0
  IsAnswer now q c s = (s.1 ≢ failed 500 "internal_error") × Tells now q c s.0 s.1

  store_mode-IsAnswer :
      (now : ℕ) (q r : ModeRequest) (o : Option (Controller P)) (c : Controller P)
      → r.mode ≡ q.mode
      → r.duration ≡ q.duration
      → set_mode P k now q.mode q.duration c ≡ o
      → o ≢ none
      → IsAnswer now q c (store_mode P N k r o c)
  store_mode-IsAnswer now q r none c m d e h = absurd (h refl)
  store_mode-IsAnswer now q r (some c2) c m d e h = (λ x. ground arith, (m, d, e))

  failed-IsAnswer :
      (now : ℕ) (q : ModeRequest) (status : ℕ) (code : String) (c : Controller P)
      → status < 500
      → IsAnswer now q c (c, failed status code)
  failed-IsAnswer now q status code c h = (λ e. ground arith, refl)

  change_as-IsAnswer :
      (now : ℕ) (q r : ModeRequest) (p : Principal) (c : Controller P)
      → r.mode ≡ q.mode
      → r.duration ≡ q.duration
      → set_mode P k now r.mode r.duration c ≡ set_mode P k now q.mode q.duration c
      → set_mode P k now r.mode r.duration c ≢ none
      → IsAnswer now q c (change_as P N k now r p c)
  change_as-IsAnswer now q r p c m d e h =
      if-cases (IsAnswer now q c) (is_nobody p && is_ai r.mode)
        (λ _. failed-IsAnswer now q 401 "unauthorized" c (omega arith))
        (λ _.
          store_mode-IsAnswer now q (as_principal P N k r p) (set_mode P k now r.mode r.duration c)
            c m d (sym e) h)

  -- The same, with the state of the sign-in
  abbrev AnswerOf :
      ℕ → ModeRequest → Controller P → Authenticator × (Controller P × ModeReply) → Type 0
  AnswerOf now q c s = IsAnswer now q c s.1

  put_valid-AnswerOf :
      (now : ℕ) (r : Request) (q : ModeRequest) (a : Authenticator) (c : Controller P)
      → set_mode P k now q.mode q.duration c ≢ none
      → AnswerOf now q c (put_valid P N k now r q a c)
  put_valid-AnswerOf now r q a c h =
      let by = set_by_of P N k q.set_by in
      if-cases (AnswerOf now q c) (ltb 64 (length by))
        (λ _. failed-IsAnswer now q 400 "invalid_mode" c (omega arith))
        (λ _.
          change_as-IsAnswer now q (record q { set_by = by }) (identify N now r a).1 c refl refl
            refl h)

  -- The answer to a body that is a mode request is never an internal error: what the handler accepts
  -- (above 0 and within its limit), `SetMode` accepts. A request that is refused leaves the controller
  -- as it was, and one that is accepted sets the mode that was asked for, for the duration asked for.
  pub put_mode_answers :
      (now : ℕ) (r : Request) (q : ModeRequest) (a : Authenticator) (c : Controller P)
      → IsAnswer now q c (put_mode P N k now r (decoded q) a c).1
  unfolding put_mode
  put_mode_answers now r q a c =
      let max_ai = c.cfg.modes.max_ai_priority in
      let invalid = failed-IsAnswer now q 400 "invalid_mode" c (omega arith) in
      if-cases (AnswerOf now q c) (not (is_mode q.mode)) (λ _. invalid)
        (λ y.
          if-cases (AnswerOf now q c) (not (valid_duration k q.mode q.duration max_ai))
            (λ _. invalid)
            (λ v.
              put_valid-AnswerOf now r q a c
                (valid-sets now q.mode q.duration max_ai c (un_not y) (un_not v))))
