-- ===== src/Gate/Diff/Walk.antt =====
-- `walkDiff` of src/gate/diff-lines.ts: its state, what a line does inside a hunk and outside of all.
use Prim.Native.Char.{nul}
use autodev_harness.Common.{
  ℕ, suc, ◌-◌, String, Bool, true, false, not, ◌||◌, Option, none, some, List, [], ◌∷◌, ◌++◌, ◌==◌,
  nat_eq, if◌then◌else◌, elem, any, is_some,
}
use autodev_harness.Util.Text.{starts_with, join}
use autodev_harness.Gate.Zones.{DiffFileContent, unique_from}
use autodev_harness.Gate.Diff.Refusal.{
  Parsed, ok, refused, too_many_added, too_many_removed, bad_marker, bad_body_line,
  too_many_context,
}
use autodev_harness.Gate.Diff.Quoting.{strip_prefix}
use autodev_harness.Gate.Diff.Headers.{HunkHeader}

-- The sections' lines, each under the key of its paths.
abbrev pub Sections : Type 0
Sections = List (String × DiffFileContent)

abbrev pub Added : Type 0
Added = List (String × List ℕ)

pub record Walk : Type 0 where
  pub added : Added
  pub new_files : List String
  pub named_paths : List String
  pub content : Sections
  pub unattributed_content : Bool
  pub current_path : Option String
  pub current_old_path : Option String
  pub cursor : ℕ
  pub remaining_old : ℕ
  pub remaining_new : ℕ
  pub old_was_dev_null : Bool
  pub saw_new_file_signal : Bool
  pub section_is_copy : Bool
  pub pending_new_file_path : Option String

abbrev pub walk_start : Walk
walk_start = record {
  added = [];
  new_files = [];
  named_paths = [];
  content = [];
  unattributed_content = false;
  current_path = none;
  current_old_path = none;
  cursor = 0;
  remaining_old = 0;
  remaining_new = 0;
  old_was_dev_null = false;
  saw_new_file_signal = false;
  section_is_copy = false;
  pending_new_file_path = none;
}

-- `Set.add` on a set that keeps its order.
abbrev pub add_text : String → List String → List String
add_text x xs = if elem x xs then xs else xs ++ x ∷ []

-- `notePath`
abbrev pub note_path : Option String → List String → List String
note_path none paths = paths
note_path (some p) paths = add_text p paths

abbrev pub add_number : ℕ → List ℕ → List ℕ
add_number n ns = if any (nat_eq n) ns then ns else ns ++ n ∷ []

-- The number goes into the set of the path.
unfoldable pub add_line : String → ℕ → Added → Added
add_line p n [] = (p, n ∷ []) ∷ []
add_line p n ((q, ns) ∷ rest) =
    if q == p then (q, add_number n ns) ∷ rest else (q, ns) ∷ add_line p n rest

abbrev pub add_to_current : Option String → ℕ → Added → Added
add_to_current none n m = m
add_to_current (some p) n m = add_line p n m

-- The line goes to the end of the bucket of the key, which is made with `files` if it is not there.
unfoldable pub push_line : String → List String → String → Sections → Sections
push_line key files line [] = (key, record { files = files; lines = line ∷ [] }) ∷ []
push_line key files line ((k, b) ∷ rest) =
    if k == key
    then (k, record { files = b.files; lines = b.lines ++ line ∷ [] }) ∷ rest
    else (k, b) ∷ push_line key files line rest

abbrev pub present : Option String → List String → List String
present none ps = ps
present (some p) ps = p ∷ ps

abbrev pub nul_text : String
nul_text = String.◌∷◌ nul String.[]

-- `record`
unfoldable pub record_line : String → Walk → Walk
unfolding push_line
record_line line s =
    let files = present s.current_old_path (present s.current_path []) in
    record s {
      unattributed_content =
          s.unattributed_content || not (is_some s.current_old_path || is_some s.current_path);
      content = push_line (join nul_text files) (unique_from [] files) line s.content;
    }

-- `recordUnattributed`
unfoldable pub record_unattributed : String → Walk → Walk
unfolding push_line
record_unattributed line s = record s {
  unattributed_content = true;
  content = push_line "" [] line s.content;
}

abbrev pub no_newline : String
no_newline = "\\ No newline at end of file"

unfoldable pub added_to : String → Walk → Walk
unfolding add_line record_line
added_to line s =
    let r = record_line line s in
    record r {
      added = add_to_current s.current_path s.cursor s.added;
      cursor = suc s.cursor;
      remaining_new = s.remaining_new - 1;
    }

unfoldable pub removed_from : String → Walk → Walk
unfolding record_line
removed_from line s = let r = record_line line s in record r { remaining_old = s.remaining_old - 1 }

unfoldable pub context_of : Walk → Walk
context_of s = record s {
  cursor = suc s.cursor;
  remaining_old = s.remaining_old - 1;
  remaining_new = s.remaining_new - 1;
}

-- A line while a hunk still owes lines.
unfoldable pub body_line : String → Walk → Parsed Walk
unfolding added_to removed_from context_of
body_line line s =
    if starts_with line "+"
    then (if nat_eq s.remaining_new 0 then refused too_many_added else ok (added_to line s))
    else if starts_with line "-"
    then (if nat_eq s.remaining_old 0 then refused too_many_removed else ok (removed_from line s))
    else if starts_with line "\\"
    then (if line == no_newline then ok s else refused bad_marker)
    else if not (starts_with line " ")
    then refused bad_body_line
    else if nat_eq s.remaining_old 0 || nat_eq s.remaining_new 0
    then refused too_many_context
    else ok (context_of s)

abbrev pub owes : Walk → Bool
owes s = not (nat_eq s.remaining_old 0) || not (nat_eq s.remaining_new 0)

abbrev pub side : Bool → String → Option String
side off raw = if off then none else some (strip_prefix raw)

unfoldable pub open_hunk : HunkHeader → Walk → Walk
open_hunk h s = record s {
  unattributed_content =
      s.unattributed_content || not (is_some s.current_path || is_some s.current_old_path);
  cursor = h.new_start;
  remaining_old = h.old_count;
  remaining_new = h.new_count;
}

unfoldable pub new_file_mode : Walk → Walk
new_file_mode s = record s {
  saw_new_file_signal = true;
  new_files = note_path s.pending_new_file_path s.new_files;
  named_paths = note_path s.pending_new_file_path s.named_paths;
}
