-- ===== src/Gate/Diff/Accounts.antt =====
-- Headers, the loop and the backstop keep what the walk records accounted for.
use autodev_harness.Common.{ℕ, String, ◌||◌, Option, none, some, List, [], ◌∷◌, All, ◌==◌}
use autodev_harness.Util.Text.{starts_with}
use autodev_harness.Gate.Diff.Refusal.{Holds-bind, Holds-then, Holds-if}
use autodev_harness.Gate.Diff.Headers.{HunkHeader, hunk_header, new_file_path}
use autodev_harness.Gate.Diff.Walk.{Walk, add_text, note_path, open_hunk, new_file_mode, side, owes}
use autodev_harness.Gate.Diff.Lines.{
  old_header, new_header, copy_to, rename_header, open_section, extended_header, hunk_or_extended,
  header_line, walk_lines, path_behind,
}
use autodev_harness.Gate.Diff.Names.{
  In, StaysAccounted, IsAccounted, note_path-In, note_path-In_self, add_text-In_self, In-All,
  In-counted, In-sections, body_line-IsAccounted, add_text-All, note_path-All, either, some_present,
}

-- The same under more names.
named_more :
    (s : Walk) (more : List String)
    → ((p : String) → In s.named_paths p → In more p)
    → IsAccounted s
    → IsAccounted (record s { named_paths = more })
named_more s more grows a = record {
  old = In-All s.named_paths more grows _ a.old;
  new = In-All s.named_paths more grows _ a.new;
  created = In-All s.named_paths more grows _ a.created;
  counted = In-counted s.named_paths more grows _ a.counted;
  sections = In-sections s.named_paths more grows _ a.sections;
  placed = a.placed;
}

noted :
    (o : Option String) (s : Walk)
    → IsAccounted s
    → IsAccounted (record s { named_paths = note_path o s.named_paths })
noted o s a = named_more s (note_path o s.named_paths) (λ p h. note_path-In p o s.named_paths h) a

open_hunk-IsAccounted : (h : HunkHeader) (s : Walk) → IsAccounted s → IsAccounted (open_hunk h s)
unfolding open_hunk
open_hunk-IsAccounted h s a = record {
  old = a.old;
  new = a.new;
  created = a.created;
  counted = a.counted;
  sections = a.sections;
  placed =
      λ e. a.placed (some_present s.unattributed_content s.current_path s.current_old_path e).0;
}

new_file_mode-IsAccounted : (s : Walk) → IsAccounted s → IsAccounted (new_file_mode s)
unfolding new_file_mode
new_file_mode-IsAccounted s a =
    let path = s.pending_new_file_path in
    let b = noted path s a in
    record {
      old = b.old;
      new = b.new;
      created =
          note_path-All (In (note_path path s.named_paths)) path s.new_files b.created
            (note_path-In_self path s.named_paths);
      counted = b.counted;
      sections = b.sections;
      placed = b.placed;
    }

module _ (utf8 : List ℕ → Option String) where
  old_header-IsAccounted :
      (line : String) (s : Walk) → IsAccounted s → StaysAccounted (old_header utf8 line s)
  unfolding old_header
  old_header-IsAccounted line s a = Holds-bind IsAccounted (path_behind utf8 "--- " line) _ λ raw.
      let path = side (raw == "/dev/null" || s.section_is_copy) raw in
      let b = noted path s a in
      record {
        old = note_path-In_self path s.named_paths;
        new = b.new;
        created = b.created;
        counted = b.counted;
        sections = b.sections;
        placed = b.placed;
      }

  new_header-IsAccounted :
      (line : String) (s : Walk) → IsAccounted s → StaysAccounted (new_header utf8 line s)
  unfolding new_header
  new_header-IsAccounted line s a = Holds-bind IsAccounted (path_behind utf8 "+++ " line) _ λ raw.
      let path = side (raw == "/dev/null") raw in
      let b = noted path s a in
      let here = note_path-In_self path s.named_paths in
      record {
        old = b.old;
        new = here;
        created =
            either (All (In (note_path path s.named_paths)))
              (s.old_was_dev_null || s.saw_new_file_signal) _ _
              (note_path-All (In (note_path path s.named_paths)) path s.new_files b.created here)
              b.created;
        counted = b.counted;
        sections = b.sections;
        placed = b.placed;
      }

  copy_to-IsAccounted :
      (line : String) (s : Walk) → IsAccounted s → StaysAccounted (copy_to utf8 line s)
  unfolding copy_to
  copy_to-IsAccounted line s a = Holds-bind IsAccounted (path_behind utf8 "copy to " line) _ λ path.
      let b = noted (some path) s a in
      record {
        old = b.old;
        new = b.new;
        created =
            add_text-All (In (add_text path s.named_paths)) path s.new_files b.created
              (add_text-In_self path s.named_paths);
        counted = b.counted;
        sections = b.sections;
        placed = b.placed;
      }

  rename_header-IsAccounted :
      (marker line : String) (s : Walk)
      → IsAccounted s
      → StaysAccounted (rename_header utf8 marker line s)
  unfolding rename_header
  rename_header-IsAccounted marker line s a =
      Holds-bind IsAccounted (path_behind utf8 marker line) _ λ path. noted (some path) s a

  open_section-IsAccounted :
      (line : String) (s : Walk) → IsAccounted s → StaysAccounted (open_section utf8 line s)
  unfolding open_section
  open_section-IsAccounted line s a = Holds-bind IsAccounted (new_file_path utf8 line) _ λ pending.
      let b = noted pending s a in
      record {
        old = tt;
        new = tt;
        created = b.created;
        counted = b.counted;
        sections = b.sections;
        placed = b.placed;
      }

  extended_header-IsAccounted :
      (line : String) (s : Walk) → IsAccounted s → StaysAccounted (extended_header utf8 line s)
  unfolding extended_header
  extended_header-IsAccounted line s a =
      Holds-if IsAccounted (starts_with line "copy to ") _ _ (copy_to-IsAccounted line s a) (
        Holds-if IsAccounted (starts_with line "new file mode ") _ _ (new_file_mode-IsAccounted s a)
          (Holds-if IsAccounted (starts_with line "copy from ") _ _
            (record {
              old = a.old;
              new = a.new;
              created = a.created;
              counted = a.counted;
              sections = a.sections;
              placed = a.placed;
            })
            (Holds-if IsAccounted (starts_with line "rename from ") _ _
              (rename_header-IsAccounted "rename from " line s a)
              (Holds-if IsAccounted (starts_with line "rename to ") _ _
                (rename_header-IsAccounted "rename to " line s a)
                (Holds-if IsAccounted (starts_with line "diff --git ") _ _
                  (open_section-IsAccounted line s a) a)))))

  hunk_or_extended-IsAccounted :
      (h : Option HunkHeader) (line : String) (s : Walk)
      → IsAccounted s
      → StaysAccounted (hunk_or_extended utf8 h line s)
  hunk_or_extended-IsAccounted (some h) line s a = open_hunk-IsAccounted h s a
  hunk_or_extended-IsAccounted none line s a =
      Holds-if IsAccounted (starts_with line "@@") _ _ tt (extended_header-IsAccounted line s a)

  header_line-IsAccounted :
      (line : String) (s : Walk) → IsAccounted s → StaysAccounted (header_line utf8 line s)
  unfolding header_line
  header_line-IsAccounted line s a =
      Holds-if IsAccounted (starts_with line "--- ") _ _ (old_header-IsAccounted line s a) (
        Holds-if IsAccounted (starts_with line "+++ ") _ _ (new_header-IsAccounted line s a)
          (hunk_or_extended-IsAccounted (hunk_header line) line s a))

  pub walk_lines-IsAccounted :
      (ls : List String) (s : Walk) → IsAccounted s → StaysAccounted (walk_lines utf8 ls s)
  unfolding walk_lines
  walk_lines-IsAccounted [] s a = Holds-if IsAccounted (owes s) _ _ tt a
  walk_lines-IsAccounted (line ∷ ls) s a =
      Holds-then IsAccounted IsAccounted _ (walk_lines utf8 ls)
        (Holds-if IsAccounted (owes s) _ _ (body_line-IsAccounted line s a)
          (header_line-IsAccounted line s a))
        (walk_lines-IsAccounted ls)
