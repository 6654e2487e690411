-- ===== src/Util/Text.antt =====
-- The text operations of the language that the modules share: `includes`, `startsWith`, `trim`,
-- `split`.
use Prim.Native.String
use autodev_harness.Common.{
  ℕ, Char, code, String, Bool, true, false, ◌&&◌, ◌||◌, List, [], ◌∷◌, nat_eq, leb, if◌then◌else◌,
}

-- White space and line terminators, as `trim` and `\s` read them.
abbrev pub is_space : Char → Bool
is_space c =
    let n = code c in
    (leb 9 n && leb n 13)
    || nat_eq n 32
    || nat_eq n 160
    || nat_eq n 0x1680
    || (leb 0x2000 n && leb n 0x200a)
    || nat_eq n 0x2028
    || nat_eq n 0x2029
    || nat_eq n 0x202f
    || nat_eq n 0x205f
    || nat_eq n 0x3000
    || nat_eq n 0xfeff

-- `s.trim() === ""`
unfoldable pub is_blank : String → Bool
is_blank String.[] = true
is_blank (String.◌∷◌ c s) = is_space c && is_blank s

-- `s.startsWith(p)`
unfoldable pub starts_with : String → String → Bool
starts_with s String.[] = true
starts_with String.[] (String.◌∷◌ d p) = false
starts_with (String.◌∷◌ c s) (String.◌∷◌ d p) = nat_eq (code c) (code d) && starts_with s p

-- `s.includes(p)`
unfoldable pub includes : String → String → Bool
unfolding starts_with
includes String.[] p = starts_with String.[] p
includes (String.◌∷◌ c s) p = starts_with (String.◌∷◌ c s) p || includes s p

abbrev cons_head : Char → List String → List String
cons_head c [] = (String.◌∷◌ c String.[]) ∷ []
cons_head c (x ∷ xs) = (String.◌∷◌ c x) ∷ xs

-- `s.split(sep)` for a separator of one character.
unfoldable pub split_on : ℕ → String → List String
split_on sep String.[] = "" ∷ []
split_on sep (String.◌∷◌ c s) =
    let rest = split_on sep s in if nat_eq (code c) sep then "" ∷ rest else cons_head c rest

abbrev at_newline : String → Bool
at_newline String.[] = false
at_newline (String.◌∷◌ c _) = nat_eq (code c) 10

-- `s.split(/\r?\n/)`
unfoldable pub split_lines : String → List String
split_lines String.[] = "" ∷ []
split_lines (String.◌∷◌ c s) =
    let rest = split_lines s in
    if nat_eq (code c) 10
    then "" ∷ rest
    else if nat_eq (code c) 13 && at_newline s
    then rest
    else cons_head c rest

-- `xs.join(sep)`
unfoldable pub join : String → List String → String
join sep [] = ""
join sep (x ∷ []) = x
join sep (x ∷ y ∷ rest) = String.◌++◌ x (String.◌++◌ sep (join sep (y ∷ rest)))
