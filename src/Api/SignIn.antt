-- ===== src/Api/SignIn.antt =====
-- internal/api/signin.go: sign-in codes and the sessions that they are exchanged for. A Go map is an
-- association list with no key twice; the digest is SHA-256, a parameter.
pub mod Once
pub mod Bounded
use benchwarmer.Prelude.{
  ℕ, suc, ◌+◌, ◌*◌, ltb, leb, ◌==◌, Bool, true, false, not, ◌&&◌, ◌||◌, List, [], ◌∷◌, Option, none,
  some, if◌then◌else◌, length,
}
use benchwarmer.Config.{minute_ns}

-- `SignInCodeTTL` and `SessionTTL`
abbrev pub code_ttl : ℕ
code_ttl = minute_ns

abbrev pub session_ttl : ℕ
session_ttl = 480 * minute_ns

abbrev pub max_pending_codes : ℕ
max_pending_codes = 8

abbrev pub max_sessions : ℕ
max_sessions = 16

abbrev max_redeem_failure : ℕ
max_redeem_failure = 20

-- From a digest to the end of its time.
abbrev pub Expiries : Type 0
Expiries = List (ℕ × ℕ)

unfoldable pub expiry : ℕ → Expiries → Option ℕ
expiry k [] = none
expiry k ((j, e) ∷ m) = if j == k then some e else expiry k m

unfoldable pub delete : ℕ → Expiries → Expiries
delete k [] = []
delete k ((j, e) ∷ m) = let rest = delete k m in if j == k then rest else (j, e) ∷ rest

-- The entries whose time has not ended.
unfoldable pub live : ℕ → Expiries → Expiries
live now [] = []
live now ((j, e) ∷ m) = let rest = live now m in if ltb now e then (j, e) ∷ rest else rest

-- The key of the entry that ends first; of several the first in the list, where Go's order is open.
abbrev sooner : ℕ × ℕ → Option (ℕ × ℕ) → ℕ × ℕ
sooner x none = x
sooner x (some y) = if ltb y.1 x.1 then y else x

unfoldable pub oldest : Expiries → Option (ℕ × ℕ)
oldest [] = none
oldest (x ∷ m) = some (sooner x (oldest m))

abbrev pub drop_oldest : Option (ℕ × ℕ) → Expiries → Expiries
drop_oldest none m = m
drop_oldest (some x) m = delete x.0 m

abbrev pub put : ℕ → ℕ → Expiries → Expiries
put k e m = (k, e) ∷ delete k m

pub record SignIn : Type 0 where
  pub codes : Expiries
  pub sessions : Expiries
  pub failures : ℕ
  pub fail_from : ℕ

abbrev is_code_char : ℕ → Bool
is_code_char c =
    (leb b'a' c && leb c b'z')
    || (leb b'A' c && leb c b'Z')
    || (leb b'0' c && leb c b'9')
    || c == b'-'
    || c == b'_'

unfoldable pub all_code_chars : List ℕ → Bool
all_code_chars [] = true
all_code_chars (c ∷ s) = is_code_char c && all_code_chars s

unfoldable pub valid_code : List ℕ → Bool
unfolding all_code_chars
valid_code c = leb 32 (length c) && leb (length c) 128 && all_code_chars c

-- `NewSignIn`
abbrev pub new_sign_in : SignIn
new_sign_in = record { codes = []; sessions = []; failures = 0; fail_from = 0 }

-- The count of failures starts again after a minute.
abbrev pub recount : ℕ → SignIn → SignIn
recount now s =
    if ltb (s.fail_from + minute_ns) now then record s { failures = 0; fail_from = now } else s

abbrev pub is_live : ℕ → Option ℕ → Bool
is_live now none = false
is_live now (some e) = ltb now e

abbrev pub make_room : Expiries → Expiries
make_room m = if leb max_sessions (length m) then drop_oldest (oldest m) m else m

module _ (digest : List ℕ → ℕ) where
  unfoldable pub valid_session : ℕ → List ℕ → SignIn → SignIn × Bool
  valid_session now tok s = elim (expiry (digest tok) s.sessions) [
    | none ↦ (s, false)
    | some e ↦
        if ltb now e
        then (s, true)
        else (record s { sessions = delete (digest tok) s.sessions }, false)
  ]

  unfoldable pub register : ℕ → List ℕ → SignIn → SignIn × Option ℕ
  register now code s =
      if not (valid_code code)
      then (s, none)
      else let codes = live now s.codes in
        if leb max_pending_codes (length codes)
        then (record s { codes = codes }, none)
        else (record s { codes = put (digest code) (now + code_ttl) codes }, some (now + code_ttl))

  abbrev open_session : ℕ → Option (List ℕ) → SignIn → SignIn × Option (List ℕ)
  open_session now none s = (s, none)
  open_session now (some tok) s = (
    record s { sessions = put (digest tok) (now + session_ttl) (make_room (live now s.sessions)) },
    some tok,
  )

  -- `fresh` is the text of the random bytes, if there are any.
  unfoldable pub redeem : ℕ → Option (List ℕ) → List ℕ → SignIn → SignIn × Option (List ℕ)
  redeem now fresh code s =
      let s1 = recount now s in
      if leb max_redeem_failure s1.failures
      then (s1, none)
      else let s2 = record s1 { codes = delete (digest code) s1.codes } in
        if not (is_live now (expiry (digest code) s1.codes)) || not (valid_code code)
        then (record s2 { failures = suc s2.failures }, none)
        else open_session now fresh s2

-- A call, under the mutex.
pub data Call : Type 0 where
  registers : ℕ → List ℕ → Call
  redeems : ℕ → Option (List ℕ) → List ℕ → Call
  checks : ℕ → List ℕ → Call

module _ (digest : List ℕ → ℕ) where
  abbrev pub after : Call → SignIn → SignIn
  after (registers now code) s = (register digest now code s).0
  after (redeems now fresh code) s = (redeem digest now fresh code s).0
  after (checks now tok) s = (valid_session digest now tok s).0

  unfoldable pub run : List Call → SignIn → SignIn
  run [] s = s
  run (c ∷ cs) s = run cs (after c s)
