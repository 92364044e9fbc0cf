-- ===== src/Api/Samples.antt =====
-- A sign-in with one code, and requests from this PC.
use benchwarmer.Prelude.{
  ℕ, ◌≡◌, ◌+◌, ◌*◌, ◌%◌, ◌==◌, refl, true, false, List, [], ◌∷◌, none, some, if◌then◌else◌,
}
use benchwarmer.Platform.{codes, same}
use benchwarmer.Platform.Plain.{plain}
use benchwarmer.Config.{second}
use benchwarmer.Policy.Types.{pause}
use benchwarmer.Controller.Plain.{serving_controller, clock}
use benchwarmer.Api.SignIn.{
  SignIn, register, redeem, registers, redeems, checks, run, new_sign_in, expiry, delete, live,
  valid_code, oldest, all_code_chars,
}
use benchwarmer.Api.SignIn.Once.{redeemed_once}
use benchwarmer.Api.SignIn.Bounded.{IsBounded, run-IsBounded}
use benchwarmer.Api.Request.{Request, Net}
use benchwarmer.Api.Auth.{Authenticator, bearer, identify, trusted_loopback, local_write_barrier}
use benchwarmer.Api.Routes.{Endpoint, reaches, serve, refused}
use benchwarmer.Api.Routes.Allowed.{HasShown, serve-HasShown}
use benchwarmer.Api.Mode.{ModeRequest, changed, decoded, put_mode}
use benchwarmer.Api.Mode.Answers.{IsAnswer, put_mode_answers}
use benchwarmer.Api.Mode.Tokenless.{IsLocal, tokenless_mode}

-- Not SHA-256, but enough to tell short texts apart.
abbrev mix : List ℕ → ℕ
mix [] = 7
mix (c ∷ s) = (mix s * 131 + c) % 1_000_000_007

abbrev code : List ℕ
code = codes "abcdefghijklmnopqrstuvwxyz-012345"

abbrev token : List ℕ
token = codes "a-token"

abbrev with_code : SignIn
with_code = (register mix (1000 * second) code new_sign_in).0

code_works : (redeem mix (1010 * second) (some token) code with_code).1 ≡ some token
unfolding register redeem expiry delete live valid_code oldest all_code_chars
code_works = refl

code_expires : (redeem mix (1060 * second) (some token) code with_code).1 ≡ none
unfolding register redeem expiry delete live valid_code oldest all_code_chars
code_expires = refl

redeemed_once_example :
    (redeem mix (1020 * second) (some (codes "other")) code (
      run mix
        (checks (1015 * second) token ∷ [])
        (redeem mix (1010 * second) (some token) code with_code).0)).1
    ≡ none
redeemed_once_example =
    redeemed_once mix (1010 * second) (1020 * second) (some token) (some (codes "other")) code code
      token with_code (checks (1015 * second) token ∷ []) code_works (tt, tt) refl

run-IsBounded_example : IsBounded mix (
    run mix
      (registers (1000 * second) code ∷ redeems (1010 * second) (some token) code ∷ [])
      new_sign_in)
run-IsBounded_example =
    run-IsBounded mix
      (registers (1000 * second) code ∷ redeems (1010 * second) (some token) code ∷ [])

abbrev before_colon : List ℕ → List ℕ
before_colon [] = []
before_colon (c ∷ s) = if c == b':' then [] else c ∷ before_colon s

abbrev net : Net
net = record {
  digest = mix;
  equal_fold = same;
  trim_space = λ s. s;
  split_host_port = λ s. some (before_colon s);
  is_loopback_ip = λ s. same s (codes "127.0.0.1");
  parse_media_type = λ s. some s;
  parse_url = λ s. none;
}

-- A client on this PC that is no browser.
abbrev local_put : Request
local_put = record {
  path = "/api/v1/mode";
  method = "PUT";
  remote_addr = codes "127.0.0.1:50000";
  host = codes "localhost:8788";
  tls = false;
  authorization = [];
  content_type = codes "application/json";
  origins = [];
  fetch_site = [];
  fetch_mode = [];
  fetch_dest = [];
}

abbrev tokens : Authenticator
tokens = record {
  management = mix (codes "manage");
  agent = mix (codes "agent");
  inference = mix (codes "infer");
  sessions = some new_sign_in;
}

local_served : (serve net (1000 * second) local_put true tokens).1 ≡ reaches Endpoint.put_mode 16384
unfolding serve
local_served = refl

remote_refused :
    (serve net
      (1000 * second)
      (record local_put { remote_addr = codes "10.0.0.9:50000" })
      true
      tokens).1
    ≡ refused (record { status = 401; code = "unauthorized"; msg = "a bearer token is required" })
unfolding serve
remote_refused = refl

serve-HasShown_example :
    HasShown net (identify net (1000 * second) local_put tokens).1 local_put true Endpoint.put_mode
serve-HasShown_example =
    serve-HasShown net (1000 * second) local_put true tokens Endpoint.put_mode 16384 local_served

abbrev pause_please : ModeRequest
pause_please = record { mode = pause; duration = "1h"; set_by = codes "tray"; principal = "" }

abbrev paused_here : ModeRequest
paused_here = record pause_please { set_by = codes "local"; principal = "local" }

put_mode_answers_example :
    IsAnswer plain net clock
      (1000 * second)
      pause_please
      serving_controller
      (put_mode plain net clock
        (1000 * second)
        local_put
        (decoded pause_please)
        tokens
        serving_controller).1
put_mode_answers_example =
    put_mode_answers plain net clock (1000 * second) local_put pause_please tokens
      serving_controller

local_pause :
    (put_mode plain net clock
      (1000 * second)
      local_put
      (decoded pause_please)
      (serve net (1000 * second) local_put true tokens).0
      serving_controller).1.1
    ≡ changed paused_here
unfolding serve put_mode
local_pause = refl

no_token : bearer net local_put ≡ none
unfolding bearer
no_token = refl

tokenless_mode_example :
    (trusted_loopback net local_put ≡ true)
    × (true ≡ true)
    × (local_write_barrier net local_put ≡ none)
    × IsLocal plain net clock paused_here
tokenless_mode_example =
    tokenless_mode plain net clock (1000 * second) (1000 * second) local_put true
      (decoded pause_please) 16384 tokens serving_controller paused_here no_token local_served
      local_pause
