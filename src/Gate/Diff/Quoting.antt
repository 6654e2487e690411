-- ===== src/Gate/Diff/Quoting.antt =====
-- The paths of a diff's headers: unquotePath, decodeGitQuotedPathContent, stripPrefix.
use autodev_harness.Common.{
  ℕ, zero, suc, ◌+◌, ◌*◌, ◌-◌, ◌%◌, Char, code, String, Bool, true, false, ◌&&◌, ◌||◌, Option, none,
  some, List, [], ◌∷◌, ◌==◌, nat_eq, leb, if◌then◌else◌,
}
use autodev_harness.Util.Text.{starts_with, is_blank, is_space}
use autodev_harness.Gate.Diff.Refusal.{
  Parsed, ok, refused, bad_escape, not_utf8, unterminated, empty_path, ◌>>=◌,
}

-- `s.slice(p.length)`
unfoldable pub behind : String → String → String
behind String.[] s = s
behind (String.◌∷◌ _ p) String.[] = ""
behind (String.◌∷◌ _ p) (String.◌∷◌ _ s) = behind p s

unfoldable pub trim_start : String → String
trim_start String.[] = ""
trim_start (String.◌∷◌ c s) = let rest = trim_start s in if is_space c then rest else String.◌∷◌ c s

unfoldable pub trim_end : String → String
trim_end String.[] = ""
trim_end (String.◌∷◌ c s) =
    let rest = trim_end s in if is_blank (String.◌∷◌ c s) then "" else String.◌∷◌ c rest

-- `s.trim()`
unfoldable pub trim : String → String
unfolding trim_start trim_end
trim s = trim_end (trim_start s)

-- `stripPrefix`
unfoldable pub strip_prefix : String → String
strip_prefix path =
    if starts_with path "a/" || starts_with path "b/" then behind "a/" path else path

-- The table of simple escapes.
unfoldable pub simple_escape : ℕ → Option ℕ
simple_escape c =
    if nat_eq c b'"'
    then some 0x22
    else if nat_eq c 0x5c
    then some 0x5c
    else if nat_eq c b'n'
    then some 0x0a
    else if nat_eq c b't'
    then some 0x09
    else if nat_eq c b'r'
    then some 0x0d
    else if nat_eq c b'a'
    then some 0x07
    else if nat_eq c b'b'
    then some 0x08
    else if nat_eq c b'f'
    then some 0x0c
    else if nat_eq c b'v'
    then some 0x0b
    else none

abbrev pub is_octal : Char → Bool
is_octal c = leb b'0' (code c) && leb (code c) b'7'

abbrev digit : Char → ℕ
digit c = code c - b'0'

-- `/^[0-7]{3}$/` on the next three characters, and their byte.
unfoldable pub octal_escape : String → Option ℕ
octal_escape (String.◌∷◌ c (String.◌∷◌ d (String.◌∷◌ e _))) =
    if is_octal c && is_octal d && is_octal e
    then some ((digit c * 64 + digit d * 8 + digit e) % 256)
    else none
octal_escape _ = none

abbrev pub is_backslash : Char → Bool
is_backslash c = nat_eq (code c) 0x5c

-- What follows a backslash: its byte, and how many characters to skip.
unfoldable pub escape : String → Parsed (ℕ × ℕ)
unfolding simple_escape octal_escape
escape String.[] = ok (0x5c, 0)
escape (String.◌∷◌ c s) = elim (simple_escape (code c)) [
  | some byte ↦ ok (byte, 1)
  | none ↦ elim (octal_escape (String.◌∷◌ c s)) [
    | some byte ↦ ok (byte, 3)
    | none ↦ refused bad_escape
  ]
]

-- The bytes of a quoted path, behind `skip` characters that were read with the one before them.
unfoldable pub path_bytes : ℕ → String → Parsed (List ℕ)
unfolding escape
path_bytes skip String.[] = ok []
path_bytes (suc skip) (String.◌∷◌ c s) = path_bytes skip s
path_bytes zero (String.◌∷◌ c s) = do
  (byte, skip) ← if is_backslash c then escape s else ok (code c % 256, 0)
  rest ← path_bytes skip s
  ok (byte ∷ rest)

abbrev pub is_quote : Char → Bool
is_quote c = nat_eq (code c) b'"'

abbrev pub onto : Char → Option String → Option String
onto c none = none
onto c (some s) = some (String.◌∷◌ c s)

-- What stands before the quote that closes, if that is the last character; `escaped` holds behind a
-- backslash.
unfoldable pub inside_quotes : (escaped : Bool) → String → Option String
inside_quotes escaped String.[] = none
inside_quotes true (String.◌∷◌ c s) = onto c (inside_quotes false s)
inside_quotes false (String.◌∷◌ c s) =
    let rest = inside_quotes (is_backslash c) s in
    if is_quote c then (if s == "" then some "" else none) else onto c rest

-- `TextDecoder("utf-8", { fatal: true }).decode`, where `none` is its throw.
module _ (utf8 : List ℕ → Option String) where
  abbrev decoded : Option String → Parsed String
  decoded none = refused not_utf8
  decoded (some path) = ok path

  -- `decodeGitQuotedPathContent`
  unfoldable pub decode_path : String → Parsed String
  unfolding path_bytes
  decode_path escaped = do bytes ← path_bytes 0 escaped; decoded (utf8 bytes)

  abbrev unquoted : Option String → Parsed String
  unquoted none = refused unterminated
  unquoted (some escaped) = do
    path ← decode_path escaped
    if path == "" then refused empty_path else ok path

  -- `unquotePath`
  unfoldable pub unquote_path : String → Parsed String
  unfolding inside_quotes decode_path
  unquote_path String.[] = ok ""
  unquote_path (String.◌∷◌ c s) =
      if is_quote c then unquoted (inside_quotes false s) else ok (String.◌∷◌ c s)
