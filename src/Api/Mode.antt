-- ===== src/Api/Mode.antt =====
-- internal/api/handler.go: the request to change the mode. The messages of the errors are left out.
pub mod Answers
pub mod Tokenless
use benchwarmer.Prelude.{
  ℕ, ℤ, pos, negsuc, ◌*◌, ◌==◌, ltb, Bool, true, false, not, ◌&&◌, ◌||◌, List, Option, none, some,
  String, str_eq, if◌then◌else◌, length,
}
use benchwarmer.Platform.{Platform, codes}
use benchwarmer.Config.{minute_ns}
use benchwarmer.Policy.Types.{Mode, auto}
use benchwarmer.Controller.Types.{Controller}
use benchwarmer.Controller.Backend.{Calendar, is_ai, set_mode}
use benchwarmer.Api.Request.{Request, Net, is_blank}
use benchwarmer.Api.Auth.{Principal, nobody, management, agent, session, Authenticator, identify}

-- A text that names no mode is the mode `unset`.
pub record ModeRequest : Type 0 where
  pub mode : Mode
  pub duration : String
  pub set_by : List ℕ
  pub principal : String

-- The status and the code of an error, or the request that `SetMode` was given.
pub data ModeReply : Type 0 where
  failed : ℕ → String → ModeReply
  changed : ModeRequest → ModeReply

-- `decode` fails with a status and a code of its own.
pub data Body : Type 0 where
  undecoded : ℕ → String → Body
  decoded : ModeRequest → Body

-- 30 days
abbrev pub max_mode_duration : ℕ
max_mode_duration = 43200 * minute_ns

-- `Principal.String`
unfoldable pub principal_name : Principal → String
principal_name management = "management"
principal_name agent = "agent"
principal_name session = "session"
principal_name nobody = "local"
principal_name _ = "unknown"

abbrev pub is_auto : Mode → Bool
is_auto auto = true
is_auto _ = false

abbrev pub is_mode : Mode → Bool
is_mode Mode.unset = false
is_mode _ = true

abbrev pub is_nobody : Principal → Bool
is_nobody nobody = true
is_nobody _ = false

abbrev longest : Mode → ℕ → ℕ
longest m max_ai = if is_ai m && ltb 0 max_ai then max_ai else max_mode_duration

-- Above 0 and within the limit
abbrev within : ℕ → Option ℤ → Bool
within limit none = false
within limit (some (negsuc v)) = false
within limit (some (pos v)) = if v == 0 then false else not (ltb limit v)

unfoldable pub valid_duration : Calendar → Mode → String → ℕ → Bool
valid_duration k m d max_ai =
    if str_eq d ""
    then true
    else if is_auto m
    then false
    else if str_eq d "until_reboot" || str_eq d "until_tomorrow"
    then true
    else within (longest m max_ai) (k.parse_duration d)

module _ (P : Platform) (N : Net) (k : Calendar) where
  -- `in.SetBy` once it is trimmed and has its default
  abbrev pub set_by_of : List ℕ → List ℕ
  set_by_of s = if is_blank (N.trim_space s) then codes "api" else N.trim_space s

  -- The result of `SetMode`; an error of it is not a `RequestError`.
  abbrev pub store_mode :
      ModeRequest → Option (Controller P) → Controller P → Controller P × ModeReply
  store_mode q none c = (c, failed 500 "internal_error")
  store_mode q (some c2) c = (c2, changed q)

  -- A caller without a token cannot claim to be anyone else.
  abbrev pub as_principal : ModeRequest → Principal → ModeRequest
  as_principal q p = record q {
    set_by = if is_nobody p then codes (principal_name p) else q.set_by;
    principal = principal_name p;
  }

  abbrev pub change_as : ℕ → ModeRequest → Principal → Controller P → Controller P × ModeReply
  change_as now q p c =
      if is_nobody p && is_ai q.mode
      then (c, failed 401 "unauthorized")
      else store_mode (as_principal q p) (set_mode P k now q.mode q.duration c) c

  abbrev pub put_valid :
      ℕ
      → Request
      → ModeRequest
      → Authenticator
      → Controller P
      → Authenticator × (Controller P × ModeReply)
  put_valid now r q a c =
      let by = set_by_of q.set_by in
      if ltb 64 (length by)
      then (a, (c, failed 400 "invalid_mode"))
      else let (a2, p) = identify N now r a in (a2, change_as now (record q { set_by = by }) p c)

  abbrev pub put_decoded :
      ℕ
      → Request
      → ModeRequest
      → Authenticator
      → Controller P
      → Authenticator × (Controller P × ModeReply)
  put_decoded now r q a c =
      if not (is_mode q.mode)
      then (a, (c, failed 400 "invalid_mode"))
      else if not (valid_duration k q.mode q.duration c.cfg.modes.max_ai_priority)
      then (a, (c, failed 400 "invalid_mode"))
      else put_valid now r q a c

  unfoldable pub put_mode :
      ℕ → Request → Body → Authenticator → Controller P → Authenticator × (Controller P × ModeReply)
  unfolding principal_name valid_duration identify set_mode
  put_mode now r (undecoded status code) a c = (a, (c, failed status code))
  put_mode now r (decoded q) a c = put_decoded now r q a c
