-- ===== src/Shipped.antt =====
-- internal/config/builtin.go: how the shipped application rules reach a configuration. The shipped
-- rules, the list of internal/config/defaults.go, are a parameter.
pub mod Insert
pub mod Adopt
pub mod Once
mod Samples
use benchwarmer.Prelude.{
  ℕ, suc, Bool, true, false, not, ◌&&◌, ◌||◌, List, [], ◌∷◌, ◌++◌, take, drop, any, Option, none,
  some, String, str_eq, if◌then◌else◌,
}
use benchwarmer.Platform.{Platform, codes, same}
use benchwarmer.Config.{AppRule}
use benchwarmer.Classify.{norm}

-- The part of the configuration that the merge reads and changes
pub record Offer : Type 0 where
  pub applications : List AppRule
  pub seen : List String

abbrev pub mem : String → List String → Bool
mem k ids = any (str_eq k) ids

-- `indexOfRule`
unfoldable pub index_of_rule : List AppRule → String → Option ℕ
index_of_rule [] id = none
index_of_rule (r ∷ rs) id =
    let rest = index_of_rule rs id in
    if str_eq r.id id then some 0 else elim rest [ none ↦ none | some k ↦ some (suc k) ]

-- The place behind the closest of the earlier shipped rules that is present
unfoldable pub place : List AppRule → List AppRule → ℕ
unfolding index_of_rule
place [] rules = 0
place (d ∷ earlier) rules =
    let rest = place earlier rules in
    elim (index_of_rule rules d.id) [ none ↦ rest | some k ↦ suc k ]

abbrev pub insert_at : ℕ → AppRule → List AppRule → List AppRule
insert_at k d rules = take k rules ++ (d ∷ drop k rules)

-- The shipped rules that are neither in the file nor seen are added; `earlier` are those before, the
-- closest first.
unfoldable pub insert_new :
    List AppRule → List AppRule → List String → List String → List AppRule → List AppRule × Bool
unfolding place
insert_new earlier [] ids seen rules = (rules, false)
insert_new earlier (d ∷ ds) ids seen rules =
    let added =
      insert_new (d ∷ earlier) ds (d.id ∷ ids) seen (insert_at (place earlier rules) d rules) in
    let kept = insert_new (d ∷ earlier) ds ids seen rules in
    if mem d.id ids || mem d.id seen then kept else (added.0, true)

unfoldable pub unseen : List AppRule → List String → List String
unseen [] seen = []
unseen (d ∷ ds) seen = let rest = unseen ds seen in if mem d.id seen then rest else d.id ∷ rest

abbrev pub is_none : List String → Bool
is_none [] = true
is_none (_ ∷ _) = false

-- The ids that the file holds
unfoldable pub reserved : List AppRule → List String
reserved [] = []
reserved (r ∷ rs) = let rest = reserved rs in if str_eq r.id "" then rest else r.id ∷ rest

-- The id, unless it is taken
abbrev pub if_free : List String → Option String → Option String
if_free ids none = none
if_free ids (some id) = if mem id ids then none else some id

abbrev pub taken : AppRule → Option String → AppRule
taken r none = r
taken r (some id) = record r { id = id }

abbrev pub with_id : List String → Option String → List String
with_id ids none = ids
with_id ids (some id) = id ∷ ids

abbrev pub is_taken : Option String → Bool
is_taken none = false
is_taken (some id) = true

-- The configuration that a merge makes, and whether it changed anything
abbrev pub merged : Offer → Bool → List AppRule × Bool → List String → Offer × Bool
merged c changed inserted new = (
  record { applications = inserted.0; seen = c.seen ++ new },
  changed || (inserted.1 || not (is_none new)),
)

module _ (P : Platform) where
  unfoldable pub builtin_id : AppRule → List ℕ
  unfolding norm
  builtin_id r =
      if not (str_eq r.exe "")
      then codes "exe:" ++ norm P (codes r.exe)
      else if not (str_eq r.path "")
      then codes "path:" ++ norm P (codes r.path)
      else if not (str_eq r.path_prefix "")
      then codes "path_prefix:" ++ norm P (codes r.path_prefix)
      else if not (str_eq r.glob "")
      then codes "glob:" ++ norm P (codes r.glob)
      else []

  -- The shipped id that reads as the text
  unfoldable pub shipped_id : List ℕ → List AppRule → Option String
  unfolding same
  shipped_id t [] = none
  shipped_id t (d ∷ ds) =
      let rest = shipped_id t ds in if same (codes d.id) t then some d.id else rest

  -- The id that a rule without one is given, if any
  unfoldable pub new_id : List AppRule → List String → AppRule → Option String
  new_id shipped ids r =
      if not (str_eq r.id "") then none else if_free ids (shipped_id (builtin_id r) shipped)

  unfoldable pub adopt :
      List AppRule → List String → List AppRule → List AppRule × (List String × Bool)
  unfolding new_id
  adopt shipped ids [] = ([], (ids, false))
  adopt shipped ids (r ∷ rs) =
      let o = new_id shipped ids r in
      let rest = adopt shipped (with_id ids o) rs in
      (taken r o ∷ rest.0, (rest.1.0, is_taken o || rest.1.1))

  -- `mergeBuiltinRules`
  unfoldable pub merge_builtin_rules : List AppRule → Offer → Offer × Bool
  unfolding adopt reserved insert_new unseen
  merge_builtin_rules shipped c =
      let adopted = adopt shipped (reserved c.applications) c.applications in
      let inserted = insert_new [] shipped adopted.1.0 c.seen adopted.0 in
      let new = unseen shipped c.seen in merged c adopted.1.1 inserted new
