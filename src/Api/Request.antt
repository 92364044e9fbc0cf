-- ===== src/Api/Request.antt =====
-- What Go's library gives of a request, for internal/api. Texts are lists of bytes.
use benchwarmer.Prelude.{
  ℕ, ◌==◌, Bool, true, false, List, [], ◌∷◌, Option, none, some, String, if◌then◌else◌,
}

-- What `net/http` keeps of a request. A header that is missing is empty.
pub record Request : Type 0 where
  pub path : String
  pub method : String
  pub remote_addr : List ℕ
  pub host : List ℕ
  pub tls : Bool
  pub authorization : List ℕ
  pub content_type : List ℕ
  pub origins : List (List ℕ)
  pub fetch_site : List ℕ
  pub fetch_mode : List ℕ
  pub fetch_dest : List ℕ

-- `url.URL`; whether there is a user stands for the user.
pub record Url : Type 0 where
  pub scheme : List ℕ
  pub opaque : List ℕ
  pub has_user : Bool
  pub host : List ℕ
  pub path : List ℕ
  pub raw_query : List ℕ
  pub fragment : List ℕ

-- Go's library: `sha256.Sum256`, `strings`, `net`, `mime` and `url`.
pub record Net : Type 0 where
  pub digest : List ℕ → ℕ
  pub equal_fold : List ℕ → List ℕ → Bool
  pub trim_space : List ℕ → List ℕ
  -- The host of `net.SplitHostPort`
  pub split_host_port : List ℕ → Option (List ℕ)
  -- `net.ParseIP` gives an address for which `IsLoopback` holds.
  pub is_loopback_ip : List ℕ → Bool
  pub parse_media_type : List ℕ → Option (List ℕ)
  pub parse_url : List ℕ → Option Url

-- `strings.Cut` at the first space
unfoldable pub cut_space : List ℕ → Option (List ℕ × List ℕ)
cut_space [] = none
cut_space (c ∷ s) =
    let rest = cut_space s in
    if c == b' '
    then some ([], s)
    else elim rest [ none ↦ none | some (before, after) ↦ some (c ∷ before, after) ]

unfoldable pub trim_prefix : ℕ → List ℕ → List ℕ
trim_prefix c [] = []
trim_prefix c (d ∷ s) = if d == c then s else d ∷ s

-- Without the last byte, if it is the given one.
unfoldable pub trim_suffix : ℕ → List ℕ → List ℕ
trim_suffix c [] = []
trim_suffix c (d ∷ []) = if d == c then [] else d ∷ []
trim_suffix c (d ∷ e ∷ s) = d ∷ trim_suffix c (e ∷ s)

abbrev pub is_blank : List ℕ → Bool
is_blank [] = true
is_blank (c ∷ s) = false

abbrev pub or_else : List ℕ → Option (List ℕ) → List ℕ
or_else s none = s
or_else s (some t) = t
