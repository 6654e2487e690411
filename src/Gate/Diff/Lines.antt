-- ===== src/Gate/Diff/Lines.antt =====
-- What a line of a diff does outside of all hunks, and the loop over the lines.
use autodev_harness.Common.{
  ℕ, String, true, false, ◌||◌, Option, none, some, List, [], ◌∷◌, ◌==◌, if◌then◌else◌,
}
use autodev_harness.Util.Text.{starts_with}
use autodev_harness.Gate.Diff.Refusal.{Parsed, ok, refused, ◌>>=◌, bad_hunk_header, truncated}
use autodev_harness.Gate.Diff.Quoting.{behind, trim, unquote_path}
use autodev_harness.Gate.Diff.Headers.{HunkHeader, hunk_header, new_file_path}
use autodev_harness.Gate.Diff.Walk.{
  Walk, add_text, note_path, side, open_hunk, new_file_mode, body_line, owes,
}

module _ (utf8 : List ℕ → Option String) where
  -- `unquotePath(line.slice(prefix.length).trim())`
  abbrev pub path_behind : String → String → Parsed String
  path_behind prefix line = unquote_path utf8 (trim (behind prefix line))

  unfoldable pub old_header : String → Walk → Parsed Walk
  old_header line s = do
    raw ← path_behind "--- " line
    let dev_null = raw == "/dev/null"
    let path = side (dev_null || s.section_is_copy) raw
    ok (record s {
      old_was_dev_null = dev_null;
      current_old_path = path;
      named_paths = note_path path s.named_paths;
    })

  unfoldable pub new_header : String → Walk → Parsed Walk
  new_header line s = do
    raw ← path_behind "+++ " line
    let path = side (raw == "/dev/null") raw
    ok (record s {
      current_path = path;
      named_paths = note_path path s.named_paths;
      new_files =
          if s.old_was_dev_null || s.saw_new_file_signal
          then note_path path s.new_files
          else s.new_files;
      old_was_dev_null = false;
      saw_new_file_signal = false;
    })

  unfoldable pub copy_to : String → Walk → Parsed Walk
  copy_to line s = do
    path ← path_behind "copy to " line
    ok (record s {
      saw_new_file_signal = true;
      section_is_copy = true;
      new_files = add_text path s.new_files;
      named_paths = add_text path s.named_paths;
    })

  unfoldable pub rename_header : String → String → Walk → Parsed Walk
  rename_header marker line s = do
    path ← path_behind marker line
    ok (record s { named_paths = add_text path s.named_paths })

  unfoldable pub open_section : String → Walk → Parsed Walk
  open_section line s = do
    pending ← new_file_path utf8 line
    ok (record s {
      old_was_dev_null = false;
      saw_new_file_signal = false;
      section_is_copy = false;
      current_old_path = none;
      current_path = none;
      pending_new_file_path = pending;
      named_paths = note_path pending s.named_paths;
    })

  -- An extended header, or a line that says nothing.
  unfoldable pub extended_header : String → Walk → Parsed Walk
  extended_header line s =
      if starts_with line "copy to "
      then copy_to line s
      else if starts_with line "new file mode "
      then ok (new_file_mode s)
      else if starts_with line "copy from "
      then ok (record s { section_is_copy = true })
      else if starts_with line "rename from "
      then rename_header "rename from " line s
      else if starts_with line "rename to "
      then rename_header "rename to " line s
      else if starts_with line "diff --git "
      then open_section line s
      else ok s

  abbrev pub hunk_or_extended : Option HunkHeader → String → Walk → Parsed Walk
  hunk_or_extended (some h) line s = ok (open_hunk h s)
  hunk_or_extended none line s =
      if starts_with line "@@" then refused bad_hunk_header else extended_header line s

  -- A line outside of all hunks.
  unfoldable pub header_line : String → Walk → Parsed Walk
  header_line line s =
      if starts_with line "--- "
      then old_header line s
      else if starts_with line "+++ "
      then new_header line s
      else hunk_or_extended (hunk_header line) line s

  unfoldable pub walk_line : String → Walk → Parsed Walk
  walk_line line s = if owes s then body_line line s else header_line line s

  -- The loop over the lines, and the check that no hunk is cut off.
  unfoldable pub walk_lines : List String → Walk → Parsed Walk
  unfolding walk_line
  walk_lines [] s = if owes s then refused truncated else ok s
  walk_lines (line ∷ ls) s = walk_line line s >>= walk_lines ls
