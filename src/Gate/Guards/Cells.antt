-- ===== src/Gate/Guards/Cells.antt =====
-- The cells of a line and the lines of a text, written and read again.
use autodev_harness.Common.{
  Char, code, String, Bool, true, false, not, ◌&&◌, ◌||◌, List, [], ◌∷◌, ◌++◌, ◌≡◌, refl, ap, ◌∙◌,
  arith, map, nat_eq, All, if◌then◌else◌, is_nil,
}
use autodev_harness.Util.Text.{is_space, is_blank, split_on, split_lines}
use autodev_harness.Gate.Diff.Quoting.{trim, trim_start, trim_end}
use autodev_harness.Gate.Guards.Table.{without_ticks}

-- One text behind the other.
abbrev pub glue : String → String → String
glue String.[] t = t
glue (String.◌∷◌ c s) t = String.◌∷◌ c (glue s t)

-- Lines, with a newline between any two.
abbrev pub text_of : List String → String
text_of [] = ""
text_of (l ∷ []) = l
text_of (l ∷ m ∷ ls) = glue l (glue "\n" (text_of (m ∷ ls)))

abbrev pub each : (Char → Bool) → String → Bool
each p String.[] = true
each p (String.◌∷◌ c s) = p c && each p s

abbrev in_line : Char → Bool
in_line c = not (nat_eq (code c) 10 || nat_eq (code c) 13)

abbrev in_cell : Char → Bool
in_cell c = not (nat_eq (code c) 124 || nat_eq (code c) 10 || nat_eq (code c) 13)

-- Neither a bar nor the end of a line.
abbrev pub IsCell : String → Type 0
IsCell s = each in_cell s ≡ true

abbrev pub IsOneLine : String → Type 0
IsOneLine s = each in_line s ≡ true

abbrev pub HasNoTick : String → Type 0
HasNoTick s = each (λ c. not (nat_eq (code c) 96)) s ≡ true

abbrev pub first_is_plain : String → Bool
first_is_plain String.[] = true
first_is_plain (String.◌∷◌ c _) = not (is_space c)

-- No white space at either end.
abbrev pub IsTrimmed : String → Type 0
IsTrimmed s = (first_is_plain s ≡ true) × (trim_end s ≡ s)

each-append :
    (p : Char → Bool) (s t : String) → each p s ≡ true → each p t ≡ true → each p (glue s t) ≡ true
each-append p String.[] t h k = k
each-append p (String.◌∷◌ c s) t h k = ground (arith, each-append p s t)

IsCell-IsOneLine : (s : String) → IsCell s → IsOneLine s
IsCell-IsOneLine String.[] h = refl
IsCell-IsOneLine (String.◌∷◌ c s) h = ground (arith, IsCell-IsOneLine s)

-- A bar ends a cell, and a newline a line.
split_on-append :
    (s t : String) → IsCell s → split_on 124 (glue s (glue "|" t)) ≡ s ∷ split_on 124 t
unfolding split_on
split_on-append String.[] t h = refl
split_on-append (String.◌∷◌ c s) t h = ground (arith, split_on-append s t)

split_lines-append :
    (s t : String) → IsOneLine s → split_lines (glue s (glue "\n" t)) ≡ s ∷ split_lines t
unfolding split_lines
split_lines-append String.[] t h = refl
split_lines-append (String.◌∷◌ c s) t h = ground (arith, split_lines-append s t)

split_lines-IsOneLine : (s : String) → IsOneLine s → split_lines s ≡ s ∷ []
unfolding split_lines
split_lines-IsOneLine String.[] h = refl
split_lines-IsOneLine (String.◌∷◌ c s) h = ground (arith, split_lines-IsOneLine s)

pub split_lines-text_of :
    (ls : List String) → is_nil ls ≡ false → All IsOneLine ls → split_lines (text_of ls) ≡ ls
split_lines-text_of [] e h = cc
split_lines-text_of (l ∷ []) e (p, h) = split_lines-IsOneLine l p
split_lines-text_of (l ∷ m ∷ ls) e (p, h) =
    split_lines-append l (text_of (m ∷ ls)) p
    ∙ ap (λ ks. l ∷ ks) (split_lines-text_of (m ∷ ls) refl h)

-- A space behind a text is trimmed away.
is_blank-append : (s : String) → is_blank (glue s " ") ≡ is_blank s
unfolding is_blank
is_blank-append String.[] = refl
is_blank-append (String.◌∷◌ c s) = ap (λ b. is_space c && b) (is_blank-append s)

trim_end-append : (s : String) → trim_end (glue s " ") ≡ trim_end s
unfolding trim_end is_blank
trim_end-append String.[] = refl
trim_end-append (String.◌∷◌ c s) = rw (is_blank-append s, trim_end-append s) refl

if_not : (b : Bool) (x y : String) → not b ≡ true → (if b then x else y) ≡ y
if_not true x y h = cc
if_not false x y h = refl

trim-padded : (s : String) → IsTrimmed s → trim (glue " " (glue s " ")) ≡ s
unfolding trim trim_start trim_end
trim-padded String.[] h = refl
trim-padded (String.◌∷◌ c s) (h, k) =
    ap trim_end (if_not (is_space c) (trim_start (glue s " ")) (String.◌∷◌ c (glue s " ")) h)
    ∙ (trim_end-append (String.◌∷◌ c s) ∙ k)

-- A text between ticks.
abbrev pub ticked : String → String
ticked s = glue "`" (glue s "`")

is_blank-tick : (s : String) → is_blank (glue s "`") ≡ false
unfolding is_blank
is_blank-tick String.[] = refl
is_blank-tick (String.◌∷◌ c s) = ground (arith, is_blank-tick s)

trim_end-tick : (s : String) → trim_end (glue s "`") ≡ glue s "`"
unfolding trim_end is_blank
trim_end-tick String.[] = refl
trim_end-tick (String.◌∷◌ c s) = rw (is_blank-tick (String.◌∷◌ c s), trim_end-tick s) refl

pub ticked-IsTrimmed : (s : String) → IsTrimmed (ticked s)
ticked-IsTrimmed s = (refl, trim_end-tick (String.◌∷◌ "`" s))

without_ticks-tick : (s : String) → HasNoTick s → without_ticks (glue s "`") ≡ s
unfolding without_ticks
without_ticks-tick String.[] h = refl
without_ticks-tick (String.◌∷◌ c s) h = ground (arith, without_ticks-tick s)

pub without_ticks-ticked : (s : String) → HasNoTick s → without_ticks (ticked s) ≡ s
unfolding without_ticks
without_ticks-ticked s h = without_ticks-tick s h

-- The cells of a row, each between spaces and with a bar behind it.
abbrev pub cells_text : List String → String
cells_text [] = ""
cells_text (s ∷ cells) = glue (glue " " (glue s " ")) (glue "|" (cells_text cells))

padded-IsCell : (s : String) → IsCell s → IsCell (glue " " (glue s " "))
padded-IsCell s h = each-append in_cell s " " h refl

pub ticked-IsCell : (s : String) → IsCell s → IsCell (ticked s)
ticked-IsCell s h = each-append in_cell s "`" h refl

pub cells_text-IsOneLine : (cells : List String) → All IsCell cells → IsOneLine (cells_text cells)
cells_text-IsOneLine [] h = refl
cells_text-IsOneLine (s ∷ cells) (p, h) =
    each-append in_line (glue " " (glue s " ")) (glue "|" (cells_text cells))
      (IsCell-IsOneLine (glue " " (glue s " ")) (padded-IsCell s p)) (cells_text-IsOneLine cells h)

-- The cells are read back, and an empty one behind them.
pub cells_of-cells_text :
    (cells : List String)
    → All (λ s. IsCell s × IsTrimmed s) cells
    → map trim (split_on 124 (cells_text cells)) ≡ cells ++ "" ∷ []
unfolding split_on trim trim_start trim_end
cells_of-cells_text [] h = refl
cells_of-cells_text (s ∷ cells) ((p, q), h) =
    ap (map trim) (split_on-append (glue " " (glue s " ")) (cells_text cells) (padded-IsCell s p))
    ∙ (ap (λ t. t ∷ map trim (split_on 124 (cells_text cells))) (trim-padded s q)
        ∙ ap (λ ts. s ∷ ts) (cells_of-cells_text cells h))
