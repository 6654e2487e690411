-- ===== src/Tests/Diffs.antt =====
-- A diff that edits one file and creates another, with lines that look like headers.
use Prim.Native.String
use autodev_harness.Common.{
  ◌↔◌, ℕ, ◌≤◌, String, true, Option, none, some, List, [], ◌∷◌, ◌≡◌, refl, occurrences, elem,
}
use autodev_harness.Util.Text.{starts_with, join, is_blank}
use autodev_harness.Gate.Zones.{
  unique_from, ContractZone, diff_added_removed_lines, flat_lines, zone_scoped_lines,
}
use autodev_harness.Gate.Diff.Refusal.{ok, refused, truncated}
use autodev_harness.Gate.Diff.Quoting.{trim, strip_prefix, behind, path_bytes, unquote_path}
use autodev_harness.Gate.Diff.Headers.{new_file_path, HunkHeader, hunk_header}
use autodev_harness.Gate.Diff.Walk.{body_line, open_hunk, new_file_mode, Walk, walk_start}
use autodev_harness.Gate.Diff.Lines.{
  walk_line, header_line, old_header, new_header, extended_header, open_section, walk_lines,
}
use autodev_harness.Gate.Diff.Readers.{
  walk_diff, added_line_numbers, diff_content_lines_by_file, diff_named_paths,
}
use mathlib.Core.List.{Memᴰ}
use autodev_harness.Gate.Zones.Scoped.{IsVisible, zone_scoped_lines-Memᴰ_iff}
use autodev_harness.Gate.Diff.Keeps.{sections_of_diff, sections_of_diff-occurrences}
use autodev_harness.Gate.Diff.Agree.{OthersAgree, diff_named_paths_complete}
use autodev_harness.Gate.Diff.Bodies.{kept, added, removed, after_body}
use autodev_harness.Gate.Diff.Numbers.{HunkIsRead, hunk-HunkIsRead}

-- A decoder that takes no quoted path.
abbrev utf8 : List ℕ → Option String
utf8 bytes = none

abbrev edit : String
edit =
    "diff --git a/src/a b.ts b/src/a b.ts\n--- a/src/a b.ts\n+++ b/src/a b.ts\n@@ -4,3 +4,3 @@ f\n one\n-two\n+++ three\n four\n"

abbrev creation : String
creation =
    "diff --git a/img/x.png b/img/x.png\nnew file mode 100644\nBinary files /dev/null and b/img/x.png differ\n"

abbrev diff : String
diff = String.◌++◌ edit creation

numbers_found : added_line_numbers utf8 diff ≡ ok (("src/a b.ts", 5 ∷ []) ∷ [], "img/x.png" ∷ [])
unfolding added_line_numbers diff_added_removed_lines walk_diff walk_lines walk_line body_line
    header_line old_header new_header open_hunk hunk_header extended_header open_section
    new_file_mode new_file_path unquote_path trim strip_prefix starts_with behind unique_from join
    is_blank
numbers_found = refl

names_found : diff_named_paths utf8 diff ≡ ok ("src/a b.ts" ∷ "img/x.png" ∷ [])
unfolding diff_named_paths walk_diff walk_lines walk_line body_line header_line old_header
    new_header open_hunk hunk_header extended_header open_section new_file_mode new_file_path
    unquote_path trim strip_prefix starts_with behind unique_from join is_blank
    diff_added_removed_lines
names_found = refl

header_found :
    hunk_header "@@ -12 +30,2 @@" ≡ some (record { new_start = 30; old_count = 1; new_count = 2 })
unfolding hunk_header
header_found = refl

octal_bytes : path_bytes 0 "\\321\\204x" ≡ ok (0xd1 ∷ 0x84 ∷ 120 ∷ [])
unfolding path_bytes
octal_bytes = refl

-- A path of no characters shares its bucket with the lines that belong to no file.
hidden_under_empty_path :
    diff_content_lines_by_file utf8 "--- /dev/null\n+++ b/\n@@ -0,0 +1 @@\n+a\n+b\n"
    ≡ ok (record { files = "" ∷ []; lines = "+a" ∷ "+b" ∷ [] } ∷ [])
unfolding diff_content_lines_by_file walk_diff walk_lines walk_line body_line header_line old_header
    new_header open_hunk hunk_header extended_header open_section new_file_mode new_file_path
    unquote_path trim strip_prefix starts_with behind unique_from join is_blank
    diff_added_removed_lines
hidden_under_empty_path = refl

cut_off : added_line_numbers utf8 "--- a/x\n+++ b/x\n@@ -1,2 +1,2 @@\n x\n" ≡ refused truncated
unfolding added_line_numbers walk_diff walk_lines walk_line body_line header_line old_header
    new_header open_hunk hunk_header extended_header open_section new_file_mode new_file_path
    unquote_path trim strip_prefix starts_with behind unique_from join is_blank
    diff_added_removed_lines
cut_off = refl

sections_of_diff-occurrences_example :
    occurrences "-two" (diff_added_removed_lines diff)
    ≤ occurrences "-two" (flat_lines (sections_of_diff utf8 diff))
sections_of_diff-occurrences_example = sections_of_diff-occurrences utf8 diff "-two"

abbrev images : ContractZone
images = record {
  id = "images";
  why = "";
  auto_guardable = true;
  path_globs = "img/**" ∷ [];
  grep_patterns = [];
  exact_strings = [];
}

two_changed : elem "-two" (diff_added_removed_lines diff) ≡ true
unfolding diff_added_removed_lines
two_changed = refl

zone_scoped_lines-Memᴰ_iff_example :
    Memᴰ "-two" (zone_scoped_lines images (sections_of_diff utf8 diff))
    ↔ IsVisible images "-two" (sections_of_diff utf8 diff)
zone_scoped_lines-Memᴰ_iff_example =
    zone_scoped_lines-Memᴰ_iff images "-two" (sections_of_diff utf8 diff)

diff_named_paths_complete_example :
    OthersAgree utf8 diff
      ("src/a b.ts" ∷ "img/x.png" ∷ [])
      (diff_content_lines_by_file utf8 diff)
      (added_line_numbers utf8 diff)
diff_named_paths_complete_example =
    diff_named_paths_complete utf8 diff ("src/a b.ts" ∷ "img/x.png" ∷ []) names_found

abbrev header : HunkHeader
header = record { new_start = 4; old_count = 3; new_count = 3 }

abbrev before_hunk : Walk
before_hunk = record walk_start { current_path = some "a.ts" }

abbrev behind_hunk : Walk
behind_hunk =
    after_body (kept "one" ∷ removed "two" ∷ added "++ three" ∷ kept "four" ∷ [])
      (open_hunk header before_hunk)

abbrev hunk_lines : List String
hunk_lines = " one" ∷ "-two" ∷ "+++ three" ∷ " four" ∷ []

header_read : hunk_header "@@ -4,3 +4,3 @@ f" ≡ some header
unfolding hunk_header
header_read = refl

hunk_walked : walk_lines utf8 ("@@ -4,3 +4,3 @@ f" ∷ hunk_lines) before_hunk ≡ ok behind_hunk
unfolding walk_diff walk_lines walk_line body_line header_line old_header new_header open_hunk
    hunk_header extended_header open_section new_file_mode new_file_path unquote_path trim
    strip_prefix starts_with behind unique_from join is_blank diff_added_removed_lines
hunk_walked = refl

hunk-HunkIsRead_example : HunkIsRead utf8 before_hunk header hunk_lines behind_hunk
hunk-HunkIsRead_example =
    hunk-HunkIsRead utf8 "@@ -4,3 +4,3 @@ f" hunk_lines before_hunk behind_hunk header refl
      header_read hunk_walked
