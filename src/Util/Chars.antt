-- ===== src/Util/Chars.antt =====
-- Texts as lists of characters, and the string methods on them.
pub mod Lines
use Prim.Native.String
use autodev_harness.Common.{
  ℕ, Char, code, String, Bool, true, false, not, ◌&&◌, ◌||◌, Option, none, some, List, [], ◌∷◌,
  ◌++◌, nat_eq, if◌then◌else◌, every,
}

abbrev pub Text : Type 0
Text = List Char

-- A literal.
abbrev pub chars : String → Text
chars String.[] = []
chars (String.◌∷◌ c s) = c ∷ chars s

-- `s === t`
abbrev pub same : Text → Text → Bool
same [] [] = true
same [] (d ∷ t) = false
same (c ∷ s) [] = false
same (c ∷ s) (d ∷ t) = nat_eq (code c) (code d) && same s t

-- `s.startsWith(p)`
abbrev pub begins : Text → Text → Bool
begins s [] = true
begins [] (d ∷ p) = false
begins (c ∷ s) (d ∷ p) = nat_eq (code c) (code d) && begins s p

-- `s.slice(p.length)`
abbrev pub behind : Text → Text → Text
behind [] s = s
behind (_ ∷ p) [] = []
behind (_ ∷ p) (_ ∷ s) = behind p s

abbrev pub is_newline : Char → Bool
is_newline c = nat_eq (code c) 10

abbrev pub is_return : Char → Bool
is_return c = nat_eq (code c) 13

abbrev pub newline_first : Text → Bool
newline_first [] = false
newline_first (c ∷ _) = is_newline c

abbrev pub onto_first : Char → List Text → List Text
onto_first c [] = (c ∷ []) ∷ []
onto_first c (l ∷ ls) = (c ∷ l) ∷ ls

-- `s.split(/\r?\n/)`
unfoldable pub lines : Text → List Text
lines [] = [] ∷ []
lines (c ∷ s) =
    let rest = lines s in
    if is_newline c
    then [] ∷ rest
    else if is_return c && newline_first s
    then rest
    else onto_first c rest

abbrev pub newline : Char
newline = "\n"

-- `ls.join("\n")`
abbrev pub unlines : List Text → Text
unlines [] = []
unlines (l ∷ []) = l
unlines (l ∷ m ∷ ls) = l ++ newline ∷ unlines (m ∷ ls)
