-- ===== src/Classify/Match.antt =====
-- internal/classify/classify.go: `globMatch` decides which texts a pattern stands for.
use benchwarmer.Prelude.{
  ℕ, zero, suc, ◌+◌, ◌*◌, ◌≤◌, ◌<◌, ◌≡◌, ◌≢◌, ◌⊎◌, inl, inr, refl, ap, sym, subst, ◌∙◌, ◌==◌, Bool,
  true, false, ◌||◌, List, [], ◌∷◌, Option, none, some, length, arith, Bool-cases,
}
use benchwarmer.Classify.Glob.{star, any_one, only_stars, loop, glob_match}

-- What a pattern stands for: a star for any run, a question mark for any code point, and any other
-- code point for itself.
pub data Matches : List ℕ → List ℕ → Type 0 where
  end : Matches [] []
  itself : {c : ℕ} {p s : List ℕ} → c ≢ star → Matches p s → Matches (c ∷ p) (c ∷ s)
  any : {x c : ℕ} {p s : List ℕ} → x ≡ any_one → Matches p s → Matches (x ∷ p) (c ∷ s)
  leave : {x : ℕ} {p s : List ℕ} → x ≡ star → Matches p s → Matches (x ∷ p) s
  take : {x c : ℕ} {p s : List ℕ} → x ≡ star → Matches (x ∷ p) s → Matches (x ∷ p) (c ∷ s)

-- No code point of the text is a star.
abbrev pub NoStar : List ℕ → Type 0
NoStar [] = Unit
NoStar (c ∷ s) = (c ≢ star) × NoStar s

-- An answer came, a yes is right, and a no is right for texts as `Clean` says.
abbrev Answers : Type 0 → Type 0 → Option Bool → Type 0
Answers Clean G none = ⊥
Answers Clean G (some true) = G
Answers Clean G (some false) = Clean → ¬ G

Answers-iff :
    (Clean G H : Type 0) (r : Option Bool)
    → (G → H)
    → (Clean → H → G)
    → Answers Clean G r
    → Answers Clean H r
Answers-iff Clean G H (some true) f g a = f a
Answers-iff Clean G H (some false) f g a = λ c h. a c (g c h)
Answers-iff Clean G H none f g a = a

star_empty : {x : ℕ} {p : List ℕ} → Matches (x ∷ p) [] → Matches p []
star_empty (leave e m) = m

not_star_empty : {x : ℕ} {p : List ℕ} → x ≢ star → Matches (x ∷ p) [] → ⊥
not_star_empty h (leave e m) = h e

only_stars-Answers :
    (Clean : Type 0) (p : List ℕ) → Answers Clean (Matches p []) (some (only_stars p))
unfolding only_stars
only_stars-Answers Clean [] = end
only_stars-Answers Clean (x ∷ p) = elim (Bool-cases (x == star)) [
  | inl e ↦ rw e (
      Answers-iff Clean (Matches p []) (Matches (x ∷ p) []) (some (only_stars p))
        (leave (ground arith)) (λ c m. star_empty m) (only_stars-Answers Clean p))
  | inr e ↦ rw e (λ c m. not_star_empty (ground arith) m)
]

-- A star in front swallows what a following one item takes.
after_star :
    {z x c : ℕ} {p s : List ℕ}
    → z ≡ star
    → x ≢ star
    → Matches (z ∷ x ∷ p) (c ∷ s)
    → Matches (z ∷ p) s
after_star z n (itself h m) = absurd (h z)
after_star z n (any h m) = absurd (ground arith)
after_star z n (leave h (itself k m)) = leave z m
after_star z n (leave h (any k m)) = leave z m
after_star z n (leave h (leave k m)) = absurd (n k)
after_star z n (leave h (take k m)) = absurd (n k)
after_star {s = []} z n (take h (leave k (leave l m))) = absurd (n l)
after_star {s = d ∷ s} z n (take h m) = take z (after_star z n m)

two_stars : {x : ℕ} {p s : List ℕ} → x ≡ star → Matches (star ∷ x ∷ p) s → Matches (x ∷ p) s
two_stars e (itself h m) = absurd (h refl)
two_stars e (any h m) = absurd (ground arith)
two_stars e (leave h m) = m
two_stars e (take h m) = take e (two_stars e m)

-- What one step of the loop tests.
abbrev Fits : ℕ → ℕ → Type 0
Fits x c = (x ≡ any_one) ⊎ (x ≡ c)

fit : (x c : ℕ) {p s : List ℕ} → Fits x c → Matches p s → Matches (x ∷ p) (c ∷ s)
fit x c (inl e) m = any e m
fit x c {p} {s} (inr e) m = elim (Bool-cases (x == star)) [
  | inl y ↦ take (ground arith) (leave (ground arith) m)
  | inr n ↦ subst (λ d. Matches (x ∷ p) (d ∷ s)) e (itself (ground arith) m)
]

unfit : {x c : ℕ} {p s : List ℕ} → x ≢ star → Matches (x ∷ p) (c ∷ s) → Fits x c × Matches p s
unfit n (itself h m) = (inr refl, m)
unfit n (any h m) = (inl h, m)
unfit n (leave h m) = absurd (n h)
unfit n (take h m) = absurd (n h)

not-Matches-nil : {c : ℕ} {s : List ℕ} → Matches [] (c ∷ s) → ⊥
not-Matches-nil m = elim m [ ]

-- The mark moves by one, as the pattern behind the star does not match where it stands.
mark_moves :
    {c : ℕ} {p s : List ℕ} → ¬ Matches p (c ∷ s) → Matches (star ∷ p) (c ∷ s) → Matches (star ∷ p) s
mark_moves n (itself h m) = absurd (h refl)
mark_moves n (any h m) = absurd (ground arith)
mark_moves n (leave h m) = absurd (n m)
mark_moves n (take h m) = m

-- The test of the loop, and the kind of item that it finds.
abbrev Kind : ℕ → ℕ → Type 0
Kind x c =
    ((x == any_one || x == c) ≡ true) × Fits x c
    ⊎ (((x == any_one || x == c) ≡ false) × ((x == star) ≡ true) × (x ≡ star))
    ⊎ (((x == any_one || x == c) ≡ false) × ((x == star) ≡ false) × ¬ Fits x c × (x ≢ star))

kind : (x c : ℕ) → Kind x c
kind x c = elim (Bool-cases (x == any_one || x == c)) [
  | inl e ↦ inl (ground arith, ground arith)
  | inr e ↦ elim (Bool-cases (x == star)) [
    | inl y ↦ inr (inl (ground arith, ground arith, ground arith))
    | inr n ↦ inr (inr (ground arith, ground arith, ground arith, ground arith))
  ]
]

-- An item that fits a code point other than a star is no star.
not_star : {x c : ℕ} → Fits x c → c ≢ star → x ≢ star
not_star (inl e) n = λ y. absurd (ground arith)
not_star (inr e) n = λ y. n (ground arith)

module _ (Clean : Type 0) (k : ℕ) where
  -- Where the loop stands after a star: the question is whether the star and the pattern `bp` behind
  -- it match the text `bs` of the mark, of at most `m` code points; patterns are shorter than `k`.
  record Stands (f m : ℕ) (p s bp bs : List ℕ) : Type 0 where
    down : Clean → Matches bp bs → Matches p s
    up : Matches p s → Matches (star ∷ bp) bs
    later : Clean → Matches (star ∷ bp) bs → Matches (star ∷ p) s
    clean : Clean → NoStar s
    clean_mark : Clean → NoStar bs
    behind : length s ≤ length bs
    text : length bs ≤ m
    pattern_ : length p < k
    pattern_mark : length bp < k
    fuel : m * k + length p < f

  onward :
      {f m x c : ℕ} {p s bp bs : List ℕ}
      → Stands (suc f) m (x ∷ p) (c ∷ s) bp bs
      → Fits x c
      → Stands f m p s bp bs
  onward {x} {c} h fits =
      let n : Clean → x ≢ star = λ cl. not_star fits (h.clean cl).0 in
      record {
        down = λ cl m. (unfit (n cl) (h.down cl m)).1;
        up = λ m. h.up (fit x c fits m);
        later = λ cl m. after_star refl (n cl) (h.later cl m);
        clean = λ cl. (h.clean cl).1;
        clean_mark = h.clean_mark;
        behind = omega (arith, h.behind);
        text = h.text;
        pattern_ = omega (arith, h.pattern_);
        pattern_mark = h.pattern_mark;
        fuel = omega (arith, h.fuel);
      }

  restart :
      {f m : ℕ} {p s : List ℕ}
      → (Clean → NoStar s)
      → length s ≤ m
      → length p < k
      → m * k + length p < f
      → Stands f m p s p s
  restart cl text pattern fuel = record {
    down = λ c m. m;
    up = leave refl;
    later = λ c m. m;
    clean = cl;
    clean_mark = cl;
    behind = omega arith;
    text = text;
    pattern_ = pattern;
    pattern_mark = pattern;
    fuel = fuel;
  }

  -- After a mismatch the loop goes on from the mark, which has moved.
  from_mark :
      {f m b c : ℕ} {p s bp bs : List ℕ}
      → Stands (suc f) (suc m) p (c ∷ s) bp (b ∷ bs)
      → Stands f m bp bs bp bs
  from_mark h =
      restart (λ cl. (h.clean_mark cl).1) (omega (arith, h.text)) h.pattern_mark
        (omega (arith, h.fuel, h.pattern_mark))

  moved-Answers :
      {f m b c : ℕ} {p s bp bs : List ℕ} (r : Option Bool)
      → Stands (suc f) (suc m) p (c ∷ s) bp (b ∷ bs)
      → ¬ Matches p (c ∷ s)
      → Answers Clean (Matches (star ∷ bp) bs) r
      → Answers Clean (Matches (star ∷ bp) (b ∷ bs)) r
  moved-Answers {b} {bp} {bs} r h n a =
      Answers-iff Clean (Matches (star ∷ bp) bs) (Matches (star ∷ bp) (b ∷ bs)) r (take refl)
        (λ cl m. mark_moves (λ d. n (h.down cl d)) m) a

  marked-Answers :
      (f m : ℕ) (p s bp bs : List ℕ)
      → Stands f m p s bp bs
      → Answers Clean (Matches (star ∷ bp) bs) (loop f p s (some (bp, bs)))
  unfolding loop
  marked-Answers f m p [] bp bs h =
      Answers-iff Clean (Matches p []) (Matches (star ∷ bp) bs) (some (only_stars p)) h.up
        (λ cl d. star_empty (h.later cl d)) (only_stars-Answers Clean p)
  marked-Answers zero m p (c ∷ s) bp bs h = absurd (omega (arith, h.fuel))
  marked-Answers (suc f) m p (c ∷ s) bp [] h = absurd (omega (arith, h.behind))
  marked-Answers (suc f) zero p (c ∷ s) bp (b ∷ bs) h = absurd (omega (arith, h.text))
  marked-Answers (suc f) (suc m) [] (c ∷ s) bp (b ∷ bs) h =
      moved-Answers (loop f bp bs (some (bp, bs))) h not-Matches-nil
        (marked-Answers f m bp bs bp bs (from_mark h))
  marked-Answers (suc f) (suc m) (x ∷ p) (c ∷ s) bp (b ∷ bs) h = elim (kind x c) [
    | inl (e, fits) ↦ rw e (marked-Answers f (suc m) p s bp (b ∷ bs) (onward h fits))
    | inr (inl (e, y, is_star)) ↦
        rw (e, y)
          (Answers-iff Clean (Matches (star ∷ p) (c ∷ s)) (Matches (star ∷ bp) (b ∷ bs))
            (loop f p (c ∷ s) (some (p, c ∷ s)))
            (λ d. h.up (subst (λ z. Matches (z ∷ p) (c ∷ s)) (sym is_star) d))
            (λ cl d.
              subst (λ z. Matches (z ∷ p) (c ∷ s)) is_star (two_stars is_star (h.later cl d)))
            (marked-Answers f (suc m) p (c ∷ s) p (c ∷ s) (
              restart h.clean (omega (arith, h.behind, h.text)) (omega (arith, h.pattern_))
                (omega (arith, h.fuel)))))
    | inr (inr (e, y, no_fit, not_star)) ↦
        rw (e, y)
          (moved-Answers (loop f bp bs (some (bp, bs))) h (λ d. no_fit (unfit not_star d).0)
            (marked-Answers f m bp bs bp bs (from_mark h)))
  ]

  -- Before any star.
  unmarked-Answers :
      (f : ℕ) (p s : List ℕ)
      → (Clean → NoStar s)
      → length p < k
      → length s * k + length p < f
      → Answers Clean (Matches p s) (loop f p s none)
  unfolding loop
  unmarked-Answers f p [] cl pk fuel = only_stars-Answers Clean p
  unmarked-Answers zero p (c ∷ s) cl pk fuel = absurd (omega arith)
  unmarked-Answers (suc f) [] (c ∷ s) cl pk fuel = λ _. not-Matches-nil
  unmarked-Answers (suc f) (x ∷ p) (c ∷ s) cl pk fuel = elim (kind x c) [
    | inl (e, fits) ↦ rw e (
        Answers-iff Clean (Matches p s) (Matches (x ∷ p) (c ∷ s)) (loop f p s none) (fit x c fits)
          (λ d m. (unfit (not_star fits (cl d).0) m).1)
          (unmarked-Answers f p s (λ d. (cl d).1) (omega arith) (omega arith)))
    | inr (inl (e, y, is_star)) ↦
        rw (e, y)
          (subst (λ z. Answers Clean (Matches (z ∷ p) (c ∷ s)) (loop f p (c ∷ s) (some (p, c ∷ s))))
            (sym is_star)
            (marked-Answers f (length (c ∷ s)) p (c ∷ s) p (c ∷ s)
              (restart cl (omega arith) (omega arith) (omega arith))))
    | inr (inr (e, y, no_fit, not_star)) ↦ rw (e, y) (λ d m. no_fit (unfit not_star m).0)
  ]

Answers-Bool :
    (Clean G : Type 0) (r : Option Bool)
    → Answers Clean G r
    → (b : Bool) × (r ≡ some b) × (b ≡ true → G) × (Clean → G → b ≡ true)
Answers-Bool Clean G (some true) a = (true, refl, λ e. a, λ c g. refl)
Answers-Bool Clean G (some false) a = (false, refl, λ e. cc, λ c g. absurd (a c g))
Answers-Bool Clean G none a = absurd a

-- The fuel is enough for every pattern and every text: there is an answer. A yes is always right, and
-- every text without a star that the pattern stands for gets one.
pub glob_match_decides :
    (p s : List ℕ)
    → (b : Bool) × (glob_match p s ≡ some b)
      × (b ≡ true → Matches p s)
      × (NoStar s → Matches p s → b ≡ true)
unfolding glob_match
glob_match_decides p s = Answers-Bool (NoStar s) (Matches p s) (glob_match p s) (
    unmarked-Answers (NoStar s) (length p + 1) ((length s + 1) * (length p + 1)) p s (λ c. c)
      (omega arith) (grind arith))

starred_text :
    (f : ℕ) (p s : List ℕ)
    → length s * (length p + 1) + length p + 1 < f
    → NoStar s
    → ¬ Matches p s
    → loop f (star ∷ p) (star ∷ s) none ≡ some false
unfolding loop
starred_text zero p s h c n = absurd (omega arith)
starred_text (suc f) p s h c n =
    let (b, e, yes_right, _) =
      Answers-Bool Unit (Matches p s) (loop f p s none)
        (unmarked-Answers Unit (length p + 1) f p s (λ _. c) (omega arith) (omega arith)) in
    elim (Bool-cases b) [ inl t ↦ absurd (n (yes_right t)) | inr t ↦ e ∙ ap some t ]

-- A text that begins with a star is refused where the pattern's first star would have to stand for
-- more than that one code point.
pub glob_match_starred :
    (p s : List ℕ) → NoStar s → ¬ Matches p s → glob_match (star ∷ p) (star ∷ s) ≡ some false
unfolding glob_match
glob_match_starred p s c n = starred_text _ p s (grind arith) c n
