-- ===== src/Gate/Diff/Readers.antt =====
-- The lines of a diff, the backstop behind the walk, and the readers that src/gate/diff-lines.ts
-- exports.
use autodev_harness.Common.{
  ℕ, suc, ◌-◌, code, String, Bool, false, Option, none, some, List, [], ◌∷◌, map, lookup, put,
  nat_eq, if◌then◌else◌,
}
use autodev_harness.Util.Text.{split_on}
use autodev_harness.Gate.Zones.{DiffFileContent, diff_added_removed_lines}
use autodev_harness.Gate.Diff.Refusal.{Parsed, ok, refused, ◌>>=◌, unattributed_lines}
use autodev_harness.Gate.Diff.Walk.{Walk, Added, Sections, walk_start, record_unattributed}
use autodev_harness.Gate.Diff.Lines.{walk_lines}

-- `l.endsWith("\r") ? l.slice(0, -1) : l`
unfoldable pub strip_return : String → String
strip_return String.[] = ""
strip_return (String.◌∷◌ c String.[]) = if nat_eq (code c) 13 then "" else String.◌∷◌ c String.[]
strip_return (String.◌∷◌ c (String.◌∷◌ d s)) = String.◌∷◌ c (strip_return (String.◌∷◌ d s))

-- `rawLines.slice(0, -1)`
unfoldable pub but_last_line : List String → List String
but_last_line [] = []
but_last_line (l ∷ []) = []
but_last_line (l ∷ m ∷ ls) = l ∷ but_last_line (m ∷ ls)

unfoldable pub ends_with_newline : String → Bool
ends_with_newline String.[] = false
ends_with_newline (String.◌∷◌ c String.[]) = nat_eq (code c) 10
ends_with_newline (String.◌∷◌ c (String.◌∷◌ d s)) = ends_with_newline (String.◌∷◌ d s)

-- The lines of the text, each without a carriage return at its end.
unfoldable pub diff_lines_of : String → List String
unfolding strip_return but_last_line ends_with_newline split_on
diff_lines_of text =
    let raw_lines = map strip_return (split_on 10 text) in
    if ends_with_newline text then but_last_line raw_lines else raw_lines

-- How often a line was recorded, in a map with counts.
abbrev pub Counts : Type 0
Counts = List (String × ℕ)

abbrev or_zero : Option ℕ → ℕ
or_zero none = 0
or_zero (some n) = n

abbrev pub count_in : String → Counts → ℕ
count_in l m = or_zero (lookup l m)

unfoldable pub count_lines : List String → Counts → Counts
count_lines [] m = m
count_lines (l ∷ ls) m = count_lines ls (put l (suc (count_in l m)) m)

unfoldable pub count_content : Sections → Counts → Counts
unfolding count_lines
count_content [] m = m
count_content ((k, b) ∷ rest) m = count_content rest (count_lines b.lines m)

-- The lines that are not covered by the counts.
unfoldable pub missing_lines : Counts → List String → List String
missing_lines m [] = []
missing_lines m (l ∷ ls) =
    let found = missing_lines (put l (count_in l m - 1) m) ls in
    let lost = l ∷ missing_lines m ls in if nat_eq (count_in l m) 0 then lost else found

unfoldable pub record_missing : List String → Walk → Walk
unfolding record_unattributed
record_missing [] s = s
record_missing (l ∷ ls) s = record_missing ls (record_unattributed l s)

unfoldable pub with_missing : String → Walk → Walk
unfolding count_content missing_lines record_missing
with_missing text s =
    record_missing (missing_lines (count_content s.content []) (diff_added_removed_lines text)) s

abbrev pub values : Sections → List DiffFileContent
values [] = []
values ((k, b) ∷ rest) = b ∷ values rest

module _ (utf8 : List ℕ → Option String) where
  unfoldable pub walk_diff : String → Parsed Walk
  unfolding diff_lines_of walk_lines with_missing
  walk_diff text = do s ← walk_lines utf8 (diff_lines_of text) walk_start; ok (with_missing text s)

  -- `addedLineNumbers`
  unfoldable pub added_line_numbers : String → Parsed (Added × List String)
  added_line_numbers text = do w ← walk_diff text; ok (w.added, w.new_files)

  -- `diffContentLinesByFile`
  unfoldable pub diff_content_lines_by_file : String → Parsed (List DiffFileContent)
  diff_content_lines_by_file text = do w ← walk_diff text; ok (values w.content)

  -- `diffNamedPaths`
  unfoldable pub diff_named_paths : String → Parsed (List String)
  diff_named_paths text = do
    w ← walk_diff text
    if w.unattributed_content then refused unattributed_lines else ok w.named_paths
