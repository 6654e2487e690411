-- ===== src/Util/Match.antt =====
-- src/util/glob.ts: `globMatch`.
--
-- `globToRegExp` writes a regular expression of five forms between `^` and `$`; a pattern is the
-- list of these forms, and `matches` is the test of that expression.
use autodev_harness.Common.{
  Char, code, String, Bool, true, false, not, List, [], ◌∷◌, ◌&&◌, ◌||◌, nat_eq, if◌then◌else◌,
}
use autodev_harness.Util.Glob.{to_slashes}

pub data Piece : Type 0 where
  segments : Piece  -- (?:.*/)?
  anything : Piece  -- .*
  within : Piece  -- [^/]*
  one : Piece  -- [^/]
  literal : Char → Piece

abbrev is_star : Char → Bool
is_star c = nat_eq (code c) b'*'

abbrev is_slash : Char → Bool
is_slash c = nat_eq (code c) b'/'

abbrev plain_piece : Char → Piece
plain_piece c = if nat_eq (code c) b'?' then one else literal c

-- The loop of `globToRegExp`; a `**` takes a `/` behind it.
compile : String → List Piece
compile String.[] = []
compile (String.◌∷◌ c String.[]) = (if is_star c then within else plain_piece c) ∷ []
compile (String.◌∷◌ c (String.◌∷◌ d String.[])) =
    let rest = compile (String.◌∷◌ d String.[]) in
    if is_star c
    then (if is_star d then anything ∷ [] else within ∷ rest)
    else (plain_piece c) ∷ rest
compile (String.◌∷◌ c (String.◌∷◌ d (String.◌∷◌ e s))) =
    let rest = compile (String.◌∷◌ d (String.◌∷◌ e s)) in
    let behind_two = compile (String.◌∷◌ e s) in
    let behind_three = compile s in
    if is_star c
    then (if is_star d
        then (if is_slash e then segments ∷ behind_three else anything ∷ behind_two)
        else within ∷ rest)
    else (plain_piece c) ∷ rest

-- `.` is any character but a line terminator.
abbrev is_dot_char : Char → Bool
is_dot_char c =
    not
      (nat_eq (code c) 10 || nat_eq (code c) 13 || nat_eq (code c) 0x2028 || nat_eq (code c) 0x2029)

abbrev not_slash : Char → Bool
not_slash c = not (is_slash c)

-- A run of characters that pass, and then the rest.
run_then : (Char → Bool) → (String → Bool) → String → Bool
run_then ok rest String.[] = rest String.[]
run_then ok rest (String.◌∷◌ c s) = rest (String.◌∷◌ c s) || (ok c && run_then ok rest s)

-- A run of `.`, a slash, and then the rest.
past_slash : (String → Bool) → String → Bool
past_slash rest String.[] = false
past_slash rest (String.◌∷◌ c s) = is_slash c && rest s || is_dot_char c && past_slash rest s

abbrev same_char : Char → Char → Bool
same_char c d = nat_eq (code c) (code d)

abbrev at_char : (Char → Bool) → (String → Bool) → String → Bool
at_char ok rest String.[] = false
at_char ok rest (String.◌∷◌ c s) = ok c && rest s

abbrev at_end : String → Bool
at_end String.[] = true
at_end (String.◌∷◌ _ _) = false

matches : List Piece → String → Bool
unfolding run_then past_slash
matches [] s = at_end s
matches (segments ∷ ps) s = matches ps s || past_slash (matches ps) s
matches (anything ∷ ps) s = run_then is_dot_char (matches ps) s
matches (within ∷ ps) s = run_then not_slash (matches ps) s
matches (one ∷ ps) s = at_char not_slash (matches ps) s
matches ((literal c) ∷ ps) s = at_char (same_char c) (matches ps) s

-- `globMatch(pattern, path)`
unfoldable pub glob_match : String → String → Bool
unfolding compile matches
glob_match pattern path = matches (compile (to_slashes pattern)) (to_slashes path)
