-- ===== src/Api/Routes.antt =====
-- internal/api/handler.go: the endpoints, and which requests reach them.
pub mod Allowed
use benchwarmer.Prelude.{
  ℕ, Bool, true, false, ◌&&◌, List, [], ◌∷◌, Option, none, some, String, str_eq, ltb, if◌then◌else◌,
}
use benchwarmer.Api.Request.{Request, Net}
use benchwarmer.Api.Auth.{
  Access, access_read, access_write, access_local, access_mode_write, Authenticator, AuthError,
  authorize,
}

-- The handlers
pub data Endpoint : Type 0 where
  health status get_config put_config events config_history restore_preview restore_config
        validate_config get_applications put_applications put_mode drain reload agent_report setup
        inspect_model restart register_sign_in redeem_sign_in metrics :
      Endpoint

-- 0 stands for the limit of a small body.
pub record Route : Type 0 where
  pub access : Access
  pub agent : Bool
  pub limit : ℕ
  pub fn : Endpoint

abbrev max_small_body : ℕ
max_small_body = 16384

abbrev max_config_body : ℕ
max_config_body = 1048576

abbrev reads : Bool → Endpoint → List (String × Route)
reads agent fn = ("GET", record { access = access_read; agent = agent; limit = 0; fn = fn }) ∷ []

abbrev on : String → Access → Bool → ℕ → Endpoint → String × Route
on method access agent limit fn =
    (method, record { access = access; agent = agent; limit = limit; fn = fn })

abbrev posts : Endpoint → List (String × Route)
posts fn = on "POST" access_write false max_small_body fn ∷ []

-- From a path to the routes of its methods.
abbrev pub routes : List (String × List (String × Route))
routes =
    ("/api/v1/health", reads true health)
    ∷ ("/api/v1/status", reads true status)
    ∷ (
      "/api/v1/config",
      on "GET" access_read false 0 get_config
          ∷ on "PUT" access_write false max_config_body put_config
          ∷ [],
    )
    ∷ ("/api/v1/events", reads false events)
    ∷ ("/api/v1/config/history", reads false config_history)
    ∷ ("/api/v1/config/restore-preview", reads false restore_preview)
    ∷ ("/api/v1/config/restore", posts restore_config)
    ∷ ("/api/v1/config/validate", on "POST" access_write false max_config_body validate_config ∷ [])
    ∷ (
      "/api/v1/applications",
      on "GET" access_read false 0 get_applications
          ∷ on "PUT" access_write false max_config_body put_applications
          ∷ [],
    )
    ∷ ("/api/v1/mode", on "PUT" access_mode_write true max_small_body put_mode ∷ [])
    ∷ ("/api/v1/drain", posts drain)
    ∷ ("/api/v1/reload", posts reload)
    ∷ ("/api/v1/agent/report", on "POST" access_write true max_small_body agent_report ∷ [])
    ∷ ("/api/v1/setup", reads false setup)
    ∷ ("/api/v1/setup/model", reads false inspect_model)
    ∷ ("/api/v1/service/restart", posts restart)
    ∷ ("/api/v1/signin/codes", posts register_sign_in)
    ∷ ("/api/v1/signin/redeem", on "POST" access_local false max_small_body redeem_sign_in ∷ [])
    ∷ ("/metrics", reads false metrics)
    ∷ []

unfoldable pub lookup {ℓ} : {A : Type ℓ} → String → List (String × A) → Option A
lookup k [] = none
lookup k ((j, a) ∷ m) = if str_eq j k then some a else lookup k m

-- A HEAD is answered as a GET, if it has no route of its own.
unfoldable pub method_route : String → List (String × Route) → Option Route
unfolding lookup
method_route method m = elim (lookup method m) [
  | some rt ↦ some rt
  | none ↦ if str_eq method "HEAD" then lookup "GET" m else none
]

-- The error that is written, or the endpoint with the limit of its body.
pub data Reply : Type 0 where
  refused : AuthError → Reply
  reaches : Endpoint → ℕ → Reply

abbrev not_found : Reply
not_found = refused (record { status = 404; code = "not_found"; msg = "no such endpoint" })

abbrev method_not_allowed : Reply
method_not_allowed =
    refused (record { status = 405; code = "method_not_allowed"; msg = "method not allowed" })

abbrev pub reply_of : Route → Option AuthError → Reply
reply_of rt (some e) = refused e
reply_of rt none = reaches rt.fn (if ltb 0 rt.limit then rt.limit else max_small_body)

module _ (N : Net) where
  abbrev pub serve_route : ℕ → Request → Bool → Option Route → Authenticator → Authenticator × Reply
  serve_route now r trust none a = (a, method_not_allowed)
  serve_route now r trust (some rt) a =
      let (a2, e) = authorize N now r rt.access rt.agent trust a in (a2, reply_of rt e)

  abbrev pub serve_path :
      ℕ → Request → Bool → Option (List (String × Route)) → Authenticator → Authenticator × Reply
  serve_path now r trust none a = (a, not_found)
  serve_path now r trust (some m) a = serve_route now r trust (method_route r.method m) a

  -- `serve`, for the live `security.loopback_trust`
  unfoldable pub serve : ℕ → Request → Bool → Authenticator → Authenticator × Reply
  unfolding lookup method_route authorize
  serve now r trust a = serve_path now r trust (lookup r.path routes) a
