-- ===== src/Shipped/Once.antt =====
-- internal/config/builtin.go: a second merge changes nothing.
use benchwarmer.Prelude.{◌≡◌, inl, inr, ap, ◌∙◌, Bool, true, false, List, [], ◌∷◌, All, String}
use benchwarmer.Platform.{Platform}
use benchwarmer.Config.{AppRule}
use benchwarmer.Shipped.{
  Offer, mem, insert_new, unseen, merged, reserved, adopt, merge_builtin_rules,
}
use benchwarmer.Shipped.Insert.{
  Within, HasId, insert_new-Within, All-insert_new, insert_new_seen, unseen_seen, unseen_recorded,
  append_none,
}
use benchwarmer.Shipped.Adopt.{
  Keeps, Keeps-Within, named-Keeps, adopt_kept, adopt-Keeps, adopt-reserved, reserved-adopt,
}

module _ (P : Platform) (shipped : List AppRule) where
  -- All that is taken after the first merge stands in the file that it makes.
  taken_ids-Within :
      (c : Offer) (seen : List String)
      → All HasId shipped
      → let a = adopt P shipped (reserved c.applications) c.applications in
        Within a.1.0 (reserved (insert_new [] shipped a.1.0 seen a.0).0)
  taken_ids-Within c seen all k h =
      let a = adopt P shipped (reserved c.applications) c.applications in
      insert_new-Within [] shipped a.1.0 seen a.0 k
        (elim (adopt-reserved P shipped k (reserved c.applications) c.applications all h) [
          | inl y ↦ reserved-adopt P shipped (reserved c.applications) c.applications k y
          | inr y ↦ y
        ])

  each-Keeps : (ids : List String) (ds : List AppRule) → All HasId ds → All (Keeps P shipped ids) ds
  each-Keeps ids [] h = tt
  each-Keeps ids (d ∷ ds) h = (named-Keeps P shipped ids d h.0, each-Keeps ids ds h.1)

  keep_more :
      (xs ys : List String) (rules : List AppRule)
      → Within xs ys
      → All (Keeps P shipped xs) rules
      → All (Keeps P shipped ys) rules
  keep_more xs ys [] w h = tt
  keep_more xs ys (r ∷ rs) w h = (Keeps-Within P shipped xs ys r w h.0, keep_more xs ys rs w h.1)

  -- A configuration on which a merge changes nothing
  settled :
      (c : Offer)
      → All (Keeps P shipped (reserved c.applications)) c.applications
      → All (λ d. mem d.id c.seen ≡ true) shipped
      → merge_builtin_rules P shipped c ≡ (c, false)
  unfolding merge_builtin_rules
  settled c keep seen =
      let ids = reserved c.applications in
      ap
        (λ (a : List AppRule × (List String × Bool)).
          merged c a.1.1 (insert_new [] shipped a.1.0 c.seen a.0) (unseen shipped c.seen))
        (adopt_kept P shipped ids c.applications keep)
      ∙ ap (λ o. merged c false o (unseen shipped c.seen))
          (insert_new_seen [] shipped ids c.seen c.applications seen)
      ∙ ap (merged c false (c.applications, false)) (unseen_seen shipped c.seen seen)
      ∙ ap (λ l. (record c { seen = l }, false)) (append_none c.seen)

  -- If each shipped rule has an id, then a second merge leaves what the first has made as it is, and
  -- reports no change.
  pub merge_again :
      (c : Offer)
      → All HasId shipped
      → merge_builtin_rules P shipped (merge_builtin_rules P shipped c).0
        ≡ ((merge_builtin_rules P shipped c).0, false)
  unfolding merge_builtin_rules
  merge_again c all =
      let a = adopt P shipped (reserved c.applications) c.applications in
      let rules = (insert_new [] shipped a.1.0 c.seen a.0).0 in
      settled (merge_builtin_rules P shipped c).0
        (keep_more a.1.0 (reserved rules) rules (taken_ids-Within c c.seen all) (
          All-insert_new (Keeps P shipped a.1.0) [] shipped a.1.0 c.seen a.0
            (adopt-Keeps P shipped (reserved c.applications) c.applications all)
            (each-Keeps a.1.0 shipped all)))
        (unseen_recorded shipped c.seen)
