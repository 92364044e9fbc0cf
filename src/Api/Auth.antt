-- ===== src/Api/Auth.antt =====
-- internal/api/auth.go: the access rules. Texts are lists of bytes.
use benchwarmer.Prelude.{
  ℕ, ◌==◌, Bool, true, false, not, ◌&&◌, ◌||◌, List, [], ◌∷◌, Option, none, some, String,
  if◌then◌else◌,
}
use benchwarmer.Platform.{codes, same}
use benchwarmer.Api.SignIn.{SignIn, valid_session}
use benchwarmer.Api.Request.{
  Request, Url, Net, cut_space, trim_prefix, trim_suffix, is_blank, or_else,
}

pub data Access : Type 0 where
  access_read access_write access_local access_mode_write : Access

pub data Principal : Type 0 where
  nobody invalid management agent inference session : Principal

-- The digests of the tokens.
pub record Authenticator : Type 0 where
  pub management : ℕ
  pub agent : ℕ
  pub inference : ℕ
  pub sessions : Option SignIn

pub record AuthError : Type 0 where
  pub status : ℕ
  pub code : String
  pub msg : String

abbrev pub forbidden : String → Option AuthError
forbidden msg = some (record { status = 403; code = "forbidden"; msg = msg })

abbrev pub unauthorized : String → Option AuthError
unauthorized msg = some (record { status = 401; code = "unauthorized"; msg = msg })

abbrev pub invalid_token : String → Option AuthError
invalid_token msg = some (record { status = 401; code = "invalid_token"; msg = msg })

abbrev pub only_here : Option AuthError
only_here =
    forbidden "this endpoint is available only on this PC, addressed as localhost or a loopback IP"

abbrev pub is_access : Access → Access → Bool
is_access access_read access_read = true
is_access access_write access_write = true
is_access access_local access_local = true
is_access access_mode_write access_mode_write = true
is_access _ _ = false

module _ (N : Net) where
  abbrev pub bearer_of : Option (List ℕ × List ℕ) → Option (List ℕ)
  bearer_of none = none
  bearer_of (some (scheme, tok)) =
      if not (N.equal_fold scheme (codes "Bearer"))
      then none
      else if is_blank (N.trim_space tok)
      then none
      else some (N.trim_space tok)

  unfoldable pub bearer : Request → Option (List ℕ)
  unfolding cut_space
  bearer r = bearer_of (cut_space r.authorization)

  abbrev session_of : ℕ → List ℕ → Option SignIn → Option SignIn × Bool
  session_of now tok none = (none, false)
  session_of now tok (some s) = let (s2, ok) = valid_session N.digest now tok s in (some s2, ok)

  abbrev identify_token : ℕ → Option (List ℕ) → Authenticator → Authenticator × Principal
  identify_token now none a = (a, nobody)
  identify_token now (some tok) a =
      let d = N.digest tok in
      if d == a.management
      then (a, management)
      else if d == a.agent
      then (a, agent)
      else if d == a.inference
      then (a, inference)
      else let (sessions, ok) = session_of now tok a.sessions in
        (record a { sessions = sessions }, if ok then session else invalid)

  -- A session that has expired is removed.
  unfoldable pub identify : ℕ → Request → Authenticator → Authenticator × Principal
  unfolding bearer valid_session
  identify now r a = identify_token now (bearer r) a

  unfoldable pub is_loopback : Request → Bool
  is_loopback r = N.is_loopback_ip (or_else r.remote_addr (N.split_host_port r.remote_addr))

  unfoldable pub names_loopback : List ℕ → Bool
  unfolding trim_prefix trim_suffix
  names_loopback h =
      let host = trim_suffix b']' (trim_prefix b'[' (or_else h (N.split_host_port h))) in
      N.equal_fold host (codes "localhost") || N.is_loopback_ip host

  unfoldable pub trusted_loopback : Request → Bool
  unfolding is_loopback names_loopback
  trusted_loopback r = is_loopback r && names_loopback r.host

  abbrev own_origin : Request → Option Url → Bool
  own_origin r none = false
  own_origin r (some u) =
      is_blank u.opaque
      && not u.has_user
      && is_blank u.path
      && is_blank u.raw_query
      && is_blank u.fragment
      && same u.scheme (if r.tls then codes "https" else codes "http")
      && not (is_blank u.host)
      && N.equal_fold u.host r.host

  unfoldable pub same_origin : Request → List ℕ → Bool
  unfolding same
  same_origin r origin = own_origin r (N.parse_url origin)

  abbrev is_json : Option (List ℕ) → Bool
  is_json none = false
  is_json (some mt) = same mt (codes "application/json")

  abbrev fetch_barrier : Request → Option AuthError
  fetch_barrier r =
      if not (is_blank r.fetch_site) && not (same r.fetch_site (codes "same-origin"))
      then forbidden "request refused: it was not made by a page served from this listener"
      else if not (is_blank r.fetch_mode)
          && not (same r.fetch_mode (codes "cors"))
          && not (same r.fetch_mode (codes "same-origin"))
      then forbidden "request refused: unexpected request mode"
      else if not (is_blank r.fetch_dest) && not (same r.fetch_dest (codes "empty"))
      then forbidden "request refused: unexpected request destination"
      else none

  abbrev origin_barrier : Request → List (List ℕ) → Option AuthError
  origin_barrier r [] =
      if not (is_blank r.fetch_site) || not (is_blank r.fetch_mode) || not (is_blank r.fetch_dest)
      then forbidden "request refused: a browser request without an Origin"
      else none
  origin_barrier r (origin ∷ []) =
      if not (same_origin r origin)
      then forbidden "request refused: it comes from a different origin than this page"
      else fetch_barrier r
  origin_barrier r (origin ∷ other ∷ more) =
      forbidden "request refused: more than one Origin header"

  unfoldable pub local_write_barrier : Request → Option AuthError
  unfolding same same_origin
  local_write_barrier r =
      if not (is_json (N.parse_media_type r.content_type))
      then forbidden "a tokenless mode change must be sent as application/json"
      else origin_barrier r r.origins

  abbrev pub without_token : Request → Access → Bool → Option AuthError
  without_token r need trust =
      if is_access need access_read && trust && trusted_loopback r
      then none
      else if is_access need access_mode_write && trust && trusted_loopback r
      then local_write_barrier r
      else if not (is_access need access_write) && trust && is_loopback r
      then unauthorized
          "loopback requests without a token must address the service as localhost or a loopback IP"
      else unauthorized "a bearer token is required"

  abbrev pub access_of : Principal → Request → Access → Bool → Bool → Option AuthError
  access_of management r need agent_ok trust = none
  access_of session r need agent_ok trust =
      if trusted_loopback r
      then none
      else invalid_token
          "a dashboard session works only on this PC; use the management token remotely"
  access_of agent r need agent_ok trust =
      if agent_ok then none else forbidden "the agent token is not valid for this endpoint"
  access_of inference r need agent_ok trust =
      forbidden "the inference token is not valid for the management API"
  access_of invalid r need agent_ok trust = invalid_token "bearer token is not valid"
  access_of nobody r need agent_ok trust = without_token r need trust

  unfoldable pub authorize :
      ℕ → Request → Access → Bool → Bool → Authenticator → Authenticator × Option AuthError
  unfolding identify trusted_loopback local_write_barrier
  authorize now r need agent_ok trust a =
      if is_access need access_local
      then (a, if trusted_loopback r then none else only_here)
      else let (a2, p) = identify now r a in (a2, access_of p r need agent_ok trust)
