-- ===== src/Gate/Diff/Headers.antt =====
-- The headers of hunks and of file sections: HUNK_HEADER, newFilePathFromDiffGitLine.
use Prim.Native.Nat.{◌/◌}
use Prim.Native.String
use autodev_harness.Common.{
  ℕ, zero, suc, ◌+◌, ◌*◌, ◌-◌, Char, code, String, Bool, true, false, not, ◌&&◌, ◌||◌, Option, none,
  some, List, ◌==◌, nat_eq, leb, if◌then◌else◌,
}
use autodev_harness.Util.Text.{starts_with}
use autodev_harness.Gate.Diff.Refusal.{Parsed, ok, ◌>>=◌}
use autodev_harness.Gate.Diff.Quoting.{behind, strip_prefix, decode_path, is_backslash, is_quote}

-- The new file's first line, and the counts of old and new lines.
pub record HunkHeader : Type 0 where
  pub new_start : ℕ
  pub old_count : ℕ
  pub new_count : ℕ

abbrev pub then_read {ℓ κ} : {A : Type ℓ} {B : Type κ} → Option A → (A → Option B) → Option B
then_read none f = none
then_read (some a) f = f a

unfoldable pub expect : String → String → Option String
unfolding behind starts_with
expect p s = if starts_with s p then some (behind p s) else none

abbrev is_digit : Char → Bool
is_digit c = leb b'0' (code c) && leb (code c) b'9'

unfoldable pub digits : ℕ → String → ℕ × String
digits n String.[] = (n, "")
digits n (String.◌∷◌ c s) =
    let rest = digits (n * 10 + (code c - b'0')) s in
    if is_digit c then rest else (n, String.◌∷◌ c s)

-- `(\d+)`
unfoldable pub number : String → Option (ℕ × String)
unfolding digits
number String.[] = none
number (String.◌∷◌ c s) = if is_digit c then some (digits 0 (String.◌∷◌ c s)) else none

abbrev or_one : String → Option (ℕ × String) → ℕ × String
or_one s none = (1, s)
or_one s (some r) = r

-- `(?:,(\d+))?`, where a count that is left out is 1.
unfoldable pub line_count : String → ℕ × String
unfolding number expect
line_count s = or_one s (then_read (expect "," s) number)

-- `HUNK_HEADER`
unfoldable pub hunk_header : String → Option HunkHeader
unfolding number expect line_count
hunk_header line = then_read (expect "@@ -" line) λ a. then_read (number a) λ (_, b).
    then_read (expect " +" (line_count b).1) λ c. then_read (number c) λ (start, d).
      then_read (expect " @@" (line_count d).1) λ _.
        some
          (record { new_start = start; old_count = (line_count b).0; new_count = (line_count d).0 })

-- A character that `.` does not match.
abbrev is_terminator : Char → Bool
is_terminator c =
    nat_eq (code c) 10 || nat_eq (code c) 13 || nat_eq (code c) 0x2028 || nat_eq (code c) 0x2029

unfoldable pub has_terminator : String → Bool
has_terminator String.[] = false
has_terminator (String.◌∷◌ c s) = is_terminator c || has_terminator s

abbrev into_group : Char → Option (String × String) → Option (String × String)
into_group c none = none
into_group c (some (inside, rest)) = some (String.◌∷◌ c inside, rest)

-- `((?:[^"\\]|\\.)*)"`: the group, and what stands behind the quote.
unfoldable pub quoted_group : (escaped : Bool) → String → Option (String × String)
quoted_group escaped String.[] = none
quoted_group true (String.◌∷◌ c s) =
    let rest = into_group c (quoted_group false s) in if is_terminator c then none else rest
quoted_group false (String.◌∷◌ c s) =
    let rest = into_group c (quoted_group (is_backslash c) s) in
    if is_quote c then some ("", s) else rest

-- `DIFF_GIT_BOTH_QUOTED_RE`
unfoldable pub both_quoted : String → Option (String × String)
unfolding quoted_group expect
both_quoted line = then_read (expect "diff --git \"" line) λ a.
    then_read (quoted_group false a) λ (old, b). then_read (expect " \"" b) λ c.
      then_read (quoted_group false c) λ (new, rest). if rest == "" then some (old, new) else none

take_text : ℕ → String → String
take_text zero s = ""
take_text (suc n) String.[] = ""
take_text (suc n) (String.◌∷◌ c s) = String.◌∷◌ c (take_text n s)

-- `(.+) b\/\1$`: the two copies are of one length.
unfoldable pub same_sides : String → Option String
unfolding take_text has_terminator
same_sides s =
    let path = take_text ((String.count s - 3) / 2) s in
    if not (path == "")
      && not (has_terminator path)
      && (s == String.◌++◌ path (String.◌++◌ " b/" path))
    then some path
    else none

module _ (utf8 : List ℕ → Option String) where
  abbrev of_sides : Option (String × String) → Option String → Parsed (Option String)
  of_sides none same = ok same
  of_sides (some (old, new)) same = do
    old_path ← decode_path utf8 old
    new_path ← decode_path utf8 new
    ok (
        if strip_prefix old_path == strip_prefix new_path
        then some (strip_prefix new_path)
        else none)

  -- `newFilePathFromDiffGitLine`
  unfoldable pub new_file_path : String → Parsed (Option String)
  unfolding both_quoted same_sides expect
  new_file_path line =
      of_sides (both_quoted line) (then_read (expect "diff --git a/" line) same_sides)
