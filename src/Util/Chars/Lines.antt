-- ===== src/Util/Chars/Lines.antt =====
-- Lines and texts: the split of a join.
use text.Mathlib.TextEquality.{Char-path}
use autodev_harness.Common.{
  All, Char, true, false, not, ◌||◌, List, [], ◌∷◌, ◌++◌, ◌≡◌, refl, ap, ◌∙◌, is_nil, every, arith,
}
use autodev_harness.Util.Chars.{Text, lines, unlines, newline, is_newline, is_return, onto_first}

-- No carriage return, and also no newline.
abbrev pub NoReturn : Text → Type 0
NoReturn s = every (λ c. not (is_return c)) s ≡ true

abbrev pub IsLine : Text → Type 0
IsLine s = every (λ c. not (is_newline c || is_return c)) s ≡ true

pub lines-IsLine : (s : Text) → IsLine s → lines s ≡ s ∷ []
unfolding lines
lines-IsLine [] h = refl
lines-IsLine (c ∷ s) h = ground (arith, lines-IsLine s)

pub IsLine-NoReturn : (s : Text) → IsLine s → NoReturn s
IsLine-NoReturn [] h = refl
IsLine-NoReturn (c ∷ s) h = ground (arith, IsLine-NoReturn s)

onto_first-nil : (c : Char) (ls : List Text) → is_nil (onto_first c ls) ≡ false
onto_first-nil c [] = refl
onto_first-nil c (l ∷ ls) = refl

lines-nil : (s : Text) → is_nil (lines s) ≡ false
unfolding lines
lines-nil [] = refl
lines-nil (c ∷ s) = ground (arith, lines-nil s, onto_first-nil c (lines s))

onto_first-append :
    (c : Char) (ls ms : List Text)
    → is_nil ls ≡ false
    → onto_first c (ls ++ ms) ≡ onto_first c ls ++ ms
onto_first-append c [] ms h = cc
onto_first-append c (l ∷ ls) ms h = refl

-- A newline ends a line, and the lines of what is before it come first.
pub lines-append : (s t : Text) → NoReturn s → lines (s ++ newline ∷ t) ≡ lines s ++ lines t
unfolding lines
lines-append [] t h = refl
lines-append (c ∷ s) t h =
    ground (arith, lines-append s t, onto_first-append c (lines s) (lines t), lines-nil s)

unlines-onto_first :
    (c : Char) (ls : List Text) → is_nil ls ≡ false → unlines (onto_first c ls) ≡ c ∷ unlines ls
unlines-onto_first c [] h = cc
unlines-onto_first c (l ∷ []) h = refl
unlines-onto_first c (l ∷ m ∷ ls) h = refl

unlines-nil : (ls : List Text) → is_nil ls ≡ false → unlines ([] ∷ ls) ≡ newline ∷ unlines ls
unlines-nil [] h = cc
unlines-nil (l ∷ ls) h = refl

newline_code : (c : Char) → is_newline c ≡ true → c ≡ newline
newline_code c h = Char-path c newline (ground arith)

pub unlines-lines : (s : Text) → NoReturn s → unlines (lines s) ≡ s
unfolding lines
unlines-lines [] h = refl
unlines-lines (c ∷ s) h = ground (
  arith,
  unlines-lines s,
  unlines-onto_first c (lines s),
  unlines-nil (lines s),
  lines-nil s,
  newline_code c,
)

pub IsLine-append : (s t : Text) → IsLine s → IsLine t → IsLine (s ++ t)
IsLine-append [] t h k = k
IsLine-append (c ∷ s) t h k = ground (arith, IsLine-append s t)

-- Lines that are joined before a text come apart again.
pub lines-unlines :
    (before : List Text) (l : Text) (behind : List Text)
    → All IsLine before
    → lines (unlines (before ++ l ∷ behind)) ≡ before ++ lines (unlines (l ∷ behind))
lines-unlines [] l behind h = refl
lines-unlines (x ∷ []) l behind (p, h) =
    lines-append x (unlines (l ∷ behind)) (IsLine-NoReturn x p)
    ∙ ap (λ ls. ls ++ lines (unlines (l ∷ behind))) (lines-IsLine x p)
lines-unlines (x ∷ y ∷ before) l behind (p, h) =
    lines-append x (unlines (y ∷ before ++ l ∷ behind)) (IsLine-NoReturn x p)
    ∙ (ap (λ ls. ls ++ lines (unlines (y ∷ before ++ l ∷ behind))) (lines-IsLine x p)
        ∙ ap (λ ls. x ∷ ls) (lines-unlines (y ∷ before) l behind h))
