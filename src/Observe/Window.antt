-- ===== src/Observe/Window.antt =====
-- internal/observe/observe.go: the window of memory points against all points that were ever recorded.
use benchwarmer.Prelude.{
  ℕ, ◌-◌, ◌≤◌, ◌≡◌, inl, inr, refl, sym, ap, ◌∙◌, leb, true, false, List, [], ◌∷◌, ◌++◌,
  if◌then◌else◌, Bool-cases, append_assoc, arith,
}
use benchwarmer.Observe.State.{Point, drop_old, drop_first, from_first, difference, growth}

-- Points in the order of time, none before this instant
abbrev pub Rising : ℕ → List Point → Type 0
Rising t [] = Unit
Rising t (p ∷ ps) = (t ≤ p.at) × Rising p.at ps

-- The window after these points are recorded
unfoldable pub kept_all : ℕ → List Point → List Point → List Point
unfolding growth
kept_all window [] vram = vram
kept_all window (p ∷ ps) vram = kept_all window ps (growth p.at p.size window vram).0

-- The last point that is not after the cut, or else the first of all
unfoldable pub last_until : ℕ → Point → List Point → Point
last_until cut p [] = p
last_until cut p (q ∷ r) = last_until cut (if leb q.at cut then q else p) r

abbrev pub one : Point → List Point
one p = p ∷ []

drop_old_on :
    (cut : ℕ) (p q : Point) (r : List Point)
    → leb q.at cut ≡ true
    → drop_old cut p (q ∷ r) ≡ drop_old cut q r
unfolding drop_old
drop_old_on cut p q r e = ap (λ x. if x then drop_old cut q r else p ∷ q ∷ r) e

drop_old_stop :
    (cut : ℕ) (p q : Point) (r : List Point)
    → leb q.at cut ≡ false
    → drop_old cut p (q ∷ r) ≡ p ∷ q ∷ r
unfolding drop_old
drop_old_stop cut p q r e = ap (λ x. if x then drop_old cut q r else p ∷ q ∷ r) e

drop_old-true :
    (b c : ℕ) (p q : Point) (r s : List Point)
    → b ≤ c
    → leb q.at b ≡ true
    → drop_first c (drop_old b q r ++ s) ≡ drop_old c q (r ++ s)
    → drop_first c (drop_old b p (q ∷ r) ++ s) ≡ drop_old c p (q ∷ r ++ s)
drop_old-true b c p q r s h e k =
    ap (λ x. drop_first c (x ++ s)) (drop_old_on b p q r e)
    ∙ k
    ∙ sym (drop_old_on c p q (r ++ s) (ground (arith, h, e)))

drop_old_twice :
    (b c : ℕ) (p : Point) (r s : List Point)
    → b ≤ c
    → drop_first c (drop_old b p r ++ s) ≡ drop_old c p (r ++ s)
unfolding drop_old
drop_old_twice b c p [] s h = refl
drop_old_twice b c p (q ∷ r) s h = elim (Bool-cases (leb q.at b)) [
  | inl e ↦ drop_old-true b c p q r s h e (drop_old_twice b c q r s h)
  | inr e ↦ ground arith
]

drop_first_twice :
    (b c : ℕ) (xs s : List Point)
    → b ≤ c
    → drop_first c (drop_first b xs ++ s) ≡ drop_first c (xs ++ s)
drop_first_twice b c [] s h = refl
drop_first_twice b c (p ∷ r) s h = drop_old_twice b c p r s h

last_until-Rising :
    (cut t : ℕ) (p : Point) (r : List Point)
    → Rising t r
    → leb t cut ≡ false
    → last_until cut p r ≡ p
unfolding last_until
last_until-Rising cut t p [] h e = refl
last_until-Rising cut t p (q ∷ r) (h, k) e =
    let late : leb q.at cut ≡ false = ground (arith, h, e) in
    ap (λ b. last_until cut (if b then q else p) r) late ∙ last_until-Rising cut q.at p r k late

from_first-drop_old :
    (ext cut : ℕ) (p : Point) (r : List Point)
    → Rising p.at r
    → from_first ext (drop_old cut p r) ≡ difference ext (last_until cut p r).size
unfolding drop_old last_until
from_first-drop_old ext cut p [] h = refl
from_first-drop_old ext cut p (q ∷ r) (h, k) = elim (Bool-cases (leb q.at cut)) [
  | inl e ↦
      ap (from_first ext) (drop_old_on cut p q r e)
      ∙ from_first-drop_old ext cut q r k
      ∙ ap (λ b. difference ext (last_until cut (if b then q else p) r).size) (sym e)
  | inr e ↦
      ap (from_first ext) (drop_old_stop cut p q r e)
      ∙ ap (λ x. difference ext x.size)
          (sym (last_until-Rising cut q.at p r k e)
            ∙ ap (λ b. last_until cut (if b then q else p) r) (sym e))
]

-- What recording a point keeps of a window, when the window is what an earlier one kept
growth-kept :
    (window t : ℕ) (xs : List Point) (p : Point)
    → t ≤ p.at
    → (growth p.at p.size window (drop_first (t - window) xs)).0
      ≡ drop_first (p.at - window) (xs ++ one p)
unfolding growth
growth-kept window t xs p h =
    drop_first_twice (t - window) (p.at - window) xs (one p) (omega (arith, h))

kept_all-drop_first :
    (window t : ℕ) (xs ps : List Point) (q : Point)
    → Rising t (ps ++ one q)
    → (growth q.at q.size window (kept_all window ps (drop_first (t - window) xs))).0
      ≡ drop_first (q.at - window) (xs ++ (ps ++ one q))
unfolding kept_all
kept_all-drop_first window t xs [] q h = growth-kept window t xs q h.0
kept_all-drop_first window t xs (p ∷ ps) q h =
    ap (λ v. (growth q.at q.size window (kept_all window ps v)).0) (growth-kept window t xs p h.0)
    ∙ kept_all-drop_first window p.at (xs ++ one p) ps q h.1
    ∙ ap (drop_first (q.at - window)) (append_assoc xs (one p) (ps ++ one q))

abbrev pub anchor : ℕ → List Point → Point → Point
anchor cut [] q = q
anchor cut (p ∷ ps) q = last_until cut p (ps ++ one q)

first-anchor :
    (cut : ℕ) (ps : List Point) (q : Point)
    → Rising 0 (ps ++ one q)
    → from_first q.size (drop_first cut (ps ++ one q)) ≡ difference q.size (anchor cut ps q).size
unfolding drop_old
first-anchor cut [] q h = refl
first-anchor cut (p ∷ ps) q (_, h) = from_first-drop_old q.size cut p (ps ++ one q) h

-- Recorded in the order of time, with a window of one length, points that have been forgotten never
-- change the answer: the growth that the last point gives is its size less that of the anchor in the
-- history of all points, which is the last of them that is not after the start of the window, or the
-- first of all where every one is after it.
pub growth-anchor :
    (window : ℕ) (ps : List Point) (q : Point)
    → Rising 0 (ps ++ one q)
    → (growth q.at q.size window (kept_all window ps [])).1
      ≡ difference q.size (anchor (q.at - window) ps q).size
unfolding growth
growth-anchor window ps q h =
    ap (from_first q.size) (kept_all-drop_first window 0 [] ps q h)
    ∙ first-anchor (q.at - window) ps q h
