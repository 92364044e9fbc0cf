-- ===== src/Classify/Glob.antt =====
-- internal/classify/classify.go: `globMatch`. The indices of the loop are the texts from them on: the
-- pattern from `pi`, the text from `si`, and, after a star, the pattern behind it with the text from
-- `mark`.
use benchwarmer.Prelude.{
  ℕ, zero, suc, ◌+◌, ◌*◌, ◌==◌, Bool, true, false, ◌&&◌, ◌||◌, List, [], ◌∷◌, Option, none, some,
  if◌then◌else◌, length,
}

abbrev pub star : ℕ
star = b'*'

abbrev pub any_one : ℕ
any_one = b'?'

-- The last star that was met.
abbrev pub Mark : Type 0
Mark = Option (List ℕ × List ℕ)

-- The loop after the loop: what is left of the pattern is stars.
unfoldable pub only_stars : List ℕ → Bool
only_stars [] = true
only_stars (x ∷ p) = x == star && only_stars p

abbrev pub next_mark : List ℕ → List ℕ
next_mark [] = []
next_mark (c ∷ s) = s

-- The cases of `star >= 0` and `default`.
unfoldable pub go_back : Mark → (List ℕ → List ℕ → Mark → Option Bool) → Option Bool
go_back none next = some false
go_back (some (p, s)) next = next p (next_mark s) (some (p, next_mark s))

-- None if the fuel runs out.
unfoldable pub loop : ℕ → List ℕ → List ℕ → Mark → Option Bool
unfolding only_stars go_back
loop fuel p [] mark = some (only_stars p)
loop zero p (c ∷ s) mark = none
loop (suc fuel) [] (c ∷ s) mark = go_back mark (loop fuel)
loop (suc fuel) (x ∷ p) (c ∷ s) mark =
    let onward = loop fuel p s mark in
    let starred = loop fuel p (c ∷ s) (some (p, c ∷ s)) in
    let back = go_back mark (loop fuel) in
    if x == any_one || x == c then onward else if x == star then starred else back

unfoldable pub glob_match : List ℕ → List ℕ → Option Bool
unfolding loop
glob_match pattern s = loop ((length s + 1) * (length pattern + 1)) pattern s none
