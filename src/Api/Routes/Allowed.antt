-- ===== src/Api/Routes/Allowed.antt =====
-- internal/api: what a request that reaches an endpoint has shown.
use benchwarmer.Prelude.{
  ℕ, ◌≡◌, ◌⊎◌, inl, inr, refl, subst, Bool, true, false, List, [], ◌∷◌, none, some, String, arith,
  Bool-cases, Option-cases, All, str_eq,
}
use benchwarmer.Api.Request.{Request, Net}
use benchwarmer.Api.Auth.{
  Access, access_read, access_write, access_local, access_mode_write, is_access, Principal, nobody,
  invalid, management, agent, inference, session, Authenticator, authorize, identify,
  trusted_loopback, local_write_barrier, access_of, without_token,
}
use benchwarmer.Api.Routes.{
  Endpoint, health, status, get_config, events, config_history, restore_preview, get_applications,
  put_mode, agent_report, setup, inspect_model, redeem_sign_in, metrics, Route, routes, lookup,
  method_route, reaches, serve,
}

abbrev pub redeems_code : Endpoint → Bool
redeems_code redeem_sign_in = true
redeems_code _ = false

abbrev pub sets_mode : Endpoint → Bool
sets_mode put_mode = true
sets_mode _ = false

-- The endpoints that change nothing
abbrev pub only_reads : Endpoint → Bool
only_reads health = true
only_reads status = true
only_reads get_config = true
only_reads events = true
only_reads config_history = true
only_reads restore_preview = true
only_reads get_applications = true
only_reads setup = true
only_reads inspect_model = true
only_reads metrics = true
only_reads _ = false

-- The endpoints of the tray and of the session agent
abbrev pub for_agent : Endpoint → Bool
for_agent health = true
for_agent status = true
for_agent put_mode = true
for_agent agent_report = true
for_agent _ = false

-- A route has the access that its endpoint calls for.
abbrev IsFitting : Route → Type 0
IsFitting rt =
    (is_access rt.access access_local ≡ redeems_code rt.fn)
    × (is_access rt.access access_mode_write ≡ sets_mode rt.fn)
    × (is_access rt.access access_read ≡ only_reads rt.fn)
    × (rt.agent ≡ for_agent rt.fn)

abbrev IsFittingAll : List (String × Route) → Type 0
IsFittingAll m = All (λ e. IsFitting e.1) m

routes-IsFitting : All (λ e. IsFittingAll e.1) routes
routes-IsFitting = ground arith

lookup-All {ℓ κ} :
    {A : Type ℓ} (Q : A → Type κ) (k : String) (m : List (String × A)) (a : A)
    → All (λ e. Q e.1) m
    → lookup k m ≡ some a
    → Q a
unfolding lookup
lookup-All Q k [] a h e = absurd (ground arith)
lookup-All Q k (x ∷ m) a h e = elim (Bool-cases (str_eq x.0 k)) [
  | inl y ↦ subst Q (ground arith) h.0
  | inr n ↦ lookup-All Q k m a h.1 (ground arith)
]

method_route-IsFitting :
    (method : String) (m : List (String × Route)) (rt : Route)
    → IsFittingAll m
    → method_route method m ≡ some rt
    → IsFitting rt
unfolding method_route
method_route-IsFitting method m rt h e = elim (Option-cases (lookup method m)) [
  | inl n ↦ lookup-All IsFitting "GET" m rt h (ground arith)
  | inr (found, y) ↦
      subst IsFitting {x = found} {y = rt} (ground arith) (lookup-All IsFitting method m found h y)
]

module _ (N : Net) where
  -- What the caller has shown to reach the endpoint.
  abbrev pub HasShown : Principal → Request → Bool → Endpoint → Type 0
  HasShown management r trust e = redeems_code e ≡ true → trusted_loopback N r ≡ true
  HasShown session r trust e = trusted_loopback N r ≡ true
  HasShown agent r trust e =
      (for_agent e ≡ true) ⊎ ((redeems_code e ≡ true) × (trusted_loopback N r ≡ true))
  HasShown nobody r trust e =
      (trusted_loopback N r ≡ true)
      × ((redeems_code e ≡ true)
          ⊎ ((trust ≡ true)
              × ((only_reads e ≡ true)
                  ⊎ ((sets_mode e ≡ true) × (local_write_barrier N r ≡ none)))))
  HasShown inference r trust e = (redeems_code e ≡ true) × (trusted_loopback N r ≡ true)
  HasShown invalid r trust e = (redeems_code e ≡ true) × (trusted_loopback N r ≡ true)

  local-HasShown :
      (p : Principal) (r : Request) (trust : Bool) (e : Endpoint)
      → redeems_code e ≡ true
      → trusted_loopback N r ≡ true
      → HasShown p r trust e
  local-HasShown management r trust e y t = λ _. t
  local-HasShown session r trust e y t = t
  local-HasShown agent r trust e y t = inr (y, t)
  local-HasShown nobody r trust e y t = (t, inl y)
  local-HasShown inference r trust e y t = (y, t)
  local-HasShown invalid r trust e y t = (y, t)

  -- Without a token only a request from this PC is granted, under the trust in it.
  without_token-none :
      (r : Request) (need : Access) (trust : Bool)
      → without_token N r need trust ≡ none
      → (trusted_loopback N r ≡ true)
        × (trust ≡ true)
        × ((is_access need access_read ≡ true)
            ⊎ ((is_access need access_mode_write ≡ true) × (local_write_barrier N r ≡ none)))
  without_token-none r access_read trust h = (ground arith, ground arith, inl refl)
  without_token-none r access_write trust h = absurd (ground arith)
  without_token-none r access_local trust h = absurd (ground arith)
  without_token-none r access_mode_write trust h =
      (ground arith, ground arith, inr (refl, ground arith))

  access_of-HasShown :
      (p : Principal) (r : Request) (trust : Bool) (rt : Route)
      → IsFitting rt
      → redeems_code rt.fn ≡ false
      → access_of N p r rt.access rt.agent trust ≡ none
      → HasShown p r trust rt.fn
  access_of-HasShown management r trust rt f n h = λ y. ground arith
  access_of-HasShown session r trust rt f n h = ground arith
  access_of-HasShown agent r trust rt f n h = inl (ground arith)
  access_of-HasShown nobody r trust rt (l, w, o, g) n h =
      let (t, y, c) = without_token-none r rt.access trust h in
      (t, inr (y, elim c [ inl q ↦ inl (ground arith) | inr (q, b) ↦ inr (ground arith, b) ]))
  access_of-HasShown inference r trust rt f n h = absurd (ground arith)
  access_of-HasShown invalid r trust rt f n h = absurd (ground arith)

  authorize-HasShown :
      (now : ℕ) (r : Request) (trust : Bool) (rt : Route) (a : Authenticator)
      → IsFitting rt
      → (authorize N now r rt.access rt.agent trust a).1 ≡ none
      → HasShown (identify N now r a).1 r trust rt.fn
  unfolding authorize
  authorize-HasShown now r trust rt a f h = elim (Bool-cases (redeems_code rt.fn)) [
    | inl y ↦ local-HasShown (identify N now r a).1 r trust rt.fn y (ground arith)
    | inr n ↦ access_of-HasShown (identify N now r a).1 r trust rt f n (ground arith)
  ]

  -- If a request reaches an endpoint, then its caller has shown what the endpoint calls for: the
  -- management token reaches all; a session all from this PC; the agent token the four endpoints
  -- of the agent; no token, from this PC and under the trust in it, the endpoints that only read,
  -- and `putMode` behind the barrier; and the exchange of a code takes this PC and no more.
  pub serve-HasShown :
      (now : ℕ) (r : Request) (trust : Bool) (a : Authenticator) (e : Endpoint) (limit : ℕ)
      → (serve N now r trust a).1 ≡ reaches e limit
      → HasShown (identify N now r a).1 r trust e
  unfolding serve
  serve-HasShown now r trust a e limit h = elim (Option-cases (lookup r.path routes)) [
    | inl n ↦ absurd (ground arith)
    | inr (m, q) ↦ elim (Option-cases (method_route r.method m)) [
      | inl n ↦ absurd (ground arith)
      | inr (rt, z) ↦ elim (Option-cases (authorize N now r rt.access rt.agent trust a).1) [
        | inl ok ↦
            subst (HasShown (identify N now r a).1 r trust) {x = rt.fn} {y = e} (ground arith) (
              authorize-HasShown now r trust rt a
                (method_route-IsFitting r.method m rt
                  (lookup-All IsFittingAll r.path routes m routes-IsFitting q) z)
                ok)
        | inr (err, bad) ↦ absurd (ground arith)
      ]
    ]
  ]
