-- ===== src/Gate/Diff/Agree.antt =====
-- The readers of a diff agree on the paths that it names.
use autodev_harness.Common.{
  is_nil, Bool, true, false, refl, ◌≡◌, if◌then◌else◌, ℕ, String, Option, List, [], ◌∷◌, All,
}
use autodev_harness.Gate.Zones.{DiffFileContent, diff_added_removed_lines}
use autodev_harness.Gate.Diff.Refusal.{Parsed, ok, ◌>>=◌, unattributed_lines, refused, Holds-then}
use autodev_harness.Gate.Diff.Walk.{Added, Sections, Walk, record_unattributed, walk_start}
use autodev_harness.Gate.Diff.Lines.{walk_lines}
use autodev_harness.Gate.Diff.Names.{In, StaysAccounted, IsAccounted, push_line-All}
use autodev_harness.Gate.Diff.Readers.{
  values, diff_named_paths, added_line_numbers, diff_content_lines_by_file, missing_lines,
  count_content, record_missing, with_missing, walk_diff, diff_lines_of,
}
use autodev_harness.Gate.Diff.Accounts.{walk_lines-IsAccounted}

record_unattributed-IsAccounted :
    (line : String) (s : Walk) → IsAccounted s → IsAccounted (record_unattributed line s)
unfolding record_unattributed
record_unattributed-IsAccounted line s a = record {
  old = a.old;
  new = a.new;
  created = a.created;
  counted = a.counted;
  sections = push_line-All (All (In s.named_paths)) "" [] line s.content a.sections tt;
  placed = λ e. cc;
}

record_missing-IsAccounted :
    (ls : List String) (s : Walk) → IsAccounted s → IsAccounted (record_missing ls s)
unfolding record_missing
record_missing-IsAccounted [] s a = a
record_missing-IsAccounted (l ∷ ls) s a =
    record_missing-IsAccounted ls (record_unattributed l s) (record_unattributed-IsAccounted l s a)

walk_diff-IsAccounted :
    (utf8 : List ℕ → Option String) (text : String) → StaysAccounted (walk_diff utf8 text)
unfolding walk_diff with_missing
walk_diff-IsAccounted utf8 text =
    Holds-then IsAccounted IsAccounted (walk_lines utf8 (diff_lines_of text) walk_start) _
      (walk_lines-IsAccounted utf8 (diff_lines_of text) walk_start (record {
        old = tt;
        new = tt;
        created = tt;
        counted = tt;
        sections = tt;
        placed = λ _. tt;
      }))
      λ s a.
        record_missing-IsAccounted
          (missing_lines (count_content s.content []) (diff_added_removed_lines text)) s a

abbrev pub InAll : List String → List String → Type 0
InAll names ps = All (In names) ps

values-All :
    (names : List String) (c : Sections)
    → All (λ e. is_nil e.1.files ≡ false) c
    → All (λ e. InAll names e.1.files) c
    → All (λ e. (is_nil e.files ≡ false) × InAll names e.files) (values c)
values-All names [] h k = tt
values-All names (e ∷ c) (p, h) (q, k) = ((p, q), values-All names c h k)

answered_names :
    (u : Bool) (named names : List String)
    → (if u then refused unattributed_lines else ok named) ≡ ok names
    → (u ≡ false) × (named ≡ names)
answered_names true named names h = cc
answered_names false named names h = (refl, cc)

module _ (utf8 : List ℕ → Option String) (text : String) (names : List String) where
  -- The other readers answer too, and all that they answer is about the names.
  pub OthersAgree : Parsed (List DiffFileContent) → Parsed (Added × List String) → Type 0
  OthersAgree sections added =
      (es : List DiffFileContent) × (numbers : Added) × (created : List String) × (sections ≡ ok es)
      × (added ≡ ok (numbers, created))
      × All (λ e. (is_nil e.files ≡ false) × InAll names e.files) es
      × All (λ e. In names e.0) numbers
      × InAll names created

  readers_agree :
      (m : Parsed Walk)
      → StaysAccounted m
      → (m >>= λ w. if w.unattributed_content then refused unattributed_lines else ok w.named_paths)
        ≡ ok names
      → OthersAgree (m >>= λ w. ok (values w.content)) (m >>= λ w. ok (w.added, w.new_files))
  unfolding OthersAgree
  readers_agree (refused r) a h = cc
  readers_agree (ok w) a h =
      let (found, e) = answered_names w.unattributed_content w.named_paths names h in
      (
        values w.content,
        w.added,
        w.new_files,
        refl,
        refl,
        rw (← e) (values-All w.named_paths w.content (a.placed found) a.sections),
        rw (← e) a.counted,
        rw (← e) a.created,
      )

  -- When `diffNamedPaths` answers, so do the other two readers of the diff, every section that they
  -- find names a file, and every file of a section, every path with added lines and every new file
  -- is one of the paths that were answered.
  pub diff_named_paths_complete :
      diff_named_paths utf8 text ≡ ok names
      → OthersAgree (diff_content_lines_by_file utf8 text) (added_line_numbers utf8 text)
  unfolding diff_named_paths diff_content_lines_by_file added_line_numbers
  diff_named_paths_complete h =
      readers_agree (walk_diff utf8 text) (walk_diff-IsAccounted utf8 text) h
