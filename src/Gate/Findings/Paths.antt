-- ===== src/Gate/Findings/Paths.antt =====
-- The paths of findings, made relative to the worktree.
use Prim.Native.String
use autodev_harness.Common.{
  ℕ, zero, suc, ◌+◌, Char, code, String, Bool, true, false, not, ◌&&◌, ◌||◌, Option, none, some,
  List, [], ◌∷◌, ◌++◌, ◌==◌, nat_eq, leb, if◌then◌else◌, elem, is_nil, take, drop,
}
use autodev_harness.Util.Glob.{to_slashes}
use autodev_harness.Util.Text.{starts_with, split_on, join, is_blank}
use autodev_harness.Gate.Diff.Headers.{has_terminator}
use autodev_harness.Gate.Diff.Quoting.{behind}

abbrev is_letter : Char → Bool
is_letter c = (leb b'a' (code c) && leb (code c) b'z') || (leb b'A' (code c) && leb (code c) b'Z')

-- A letter of either case, by its lower case.
abbrev is_either_case : ℕ → Char → Bool
is_either_case n c = nat_eq (code c) n || nat_eq (code c + 32) n

-- `/^[A-Za-z]:/` and `/^[A-Za-z]:\//`
abbrev pub has_drive_letter : String → Bool
has_drive_letter (String.◌∷◌ c (String.◌∷◌ d s)) = is_letter c && nat_eq (code d) b':'
has_drive_letter _ = false

abbrev pub has_drive_root : String → Bool
has_drive_root (String.◌∷◌ c (String.◌∷◌ d (String.◌∷◌ e s))) =
    is_letter c && nat_eq (code d) b':' && nat_eq (code e) b'/'
has_drive_root _ = false

-- `/^UNC\/(.*)$/i`, its group.
unfoldable pub behind_unc : String → Option String
behind_unc (String.◌∷◌ u (String.◌∷◌ n (String.◌∷◌ c (String.◌∷◌ s rest)))) =
    if is_either_case b'u' u
      && is_either_case b'n' n
      && is_either_case b'c' c
      && nat_eq (code s) b'/'
      && not (has_terminator rest)
    then some rest
    else none
behind_unc _ = none

-- `/^([A-Za-z]:\/.*)$/`, its group.
unfoldable pub drive_path : String → Option String
drive_path s = if has_drive_root s && not (has_terminator s) then some s else none

abbrev double_slash : String → String
double_slash s = String.◌∷◌ "/" (String.◌∷◌ "/" s)

abbrev prefix_stripped : String → Option String → Option String → String
prefix_stripped folded (some share) drive = double_slash share
prefix_stripped folded none (some path) = path
prefix_stripped folded none none = folded

-- `stripExtendedLengthPrefix`
unfoldable pub strip_extended_length_prefix : String → String
unfolding behind_unc drive_path behind starts_with
strip_extended_length_prefix folded =
    if starts_with folded "//?/"
    then prefix_stripped folded (behind_unc (behind "//?/" folded))
        (drive_path (behind "//?/" folded))
    else folded

-- `isWindowsShapedPath` and `isRootedPath`
unfoldable pub is_windows_shaped : String → Bool
unfolding starts_with
is_windows_shaped folded = has_drive_root folded || starts_with folded "//"

unfoldable pub is_rooted : String → Bool
unfolding starts_with
is_rooted folded = starts_with folded "/" || has_drive_letter folded

-- `rootSegmentCount`
unfoldable pub root_segment_count : List String → ℕ
root_segment_count (a ∷ b ∷ c ∷ d ∷ segs) = if (a == "") && (b == "") then 4 else 1
root_segment_count _ = 1

drop_slashes : String → String
drop_slashes String.[] = ""
drop_slashes (String.◌∷◌ c s) =
    let rest = drop_slashes s in if nat_eq (code c) b'/' then rest else String.◌∷◌ c s

-- `collapseLeadingSlashes`
unfoldable pub collapse_leading_slashes : String → String
unfolding drop_slashes starts_with
collapse_leading_slashes folded =
    if starts_with folded "///" then String.◌∷◌ "/" (drop_slashes folded) else folded

drop_empty_end : List String → List String
drop_empty_end [] = []
drop_empty_end (s ∷ segs) =
    let rest = drop_empty_end segs in if (s == "") && is_nil rest then [] else s ∷ rest

-- The loop that pops empty segments off the end, all but the first.
unfoldable pub pop_empty : List String → List String
unfolding drop_empty_end
pop_empty [] = []
pop_empty (s ∷ segs) = s ∷ drop_empty_end segs

abbrev pub pop : List String → List String
pop [] = []
pop (_ ∷ out) = out

-- The loop over the segments above the root; `out` holds those that are kept, the last one first.
unfoldable pub resolve_dots : List String → List String → List String
resolve_dots out [] = out
resolve_dots out (seg ∷ segs) =
    resolve_dots
      (if (seg == "") || (seg == ".") then out else if seg == ".." then pop out else seg ∷ out) segs

unfoldable pub reverse_onto : List String → List String → List String
reverse_onto [] ys = ys
reverse_onto (x ∷ xs) ys = reverse_onto xs (x ∷ ys)

unfoldable pub canonical_segments : List String → List String
unfolding root_segment_count resolve_dots reverse_onto
canonical_segments segs =
    let floor = root_segment_count segs in
    take floor segs ++ reverse_onto (resolve_dots [] (drop floor segs)) []

-- `canonicalize`
unfoldable pub canonicalize : String → String
unfolding canonical_segments pop_empty collapse_leading_slashes split_on join
canonicalize folded =
    join "/" (canonical_segments (pop_empty (split_on b'/' (collapse_leading_slashes folded))))

-- `resolveAgainstAnchor`
unfoldable pub resolve_against_anchor : String → String → String
unfolding canonicalize
resolve_against_anchor anchor relative =
    canonicalize (String.◌++◌ anchor (String.◌++◌ "/" relative))

-- `folded.slice(0, folded.lastIndexOf("/"))`, if there is a slash.
unfoldable pub directory_of : String → Option String
directory_of String.[] = none
directory_of (String.◌∷◌ c s) = elim (directory_of s) [
  | some dir ↦ some (String.◌∷◌ c dir)
  | none ↦ if nat_eq (code c) b'/' then some "" else none
]

abbrev lacks_share : List String → Bool
lacks_share (a ∷ b ∷ c ∷ d ∷ segs) = (c == "") || (d == "")
lacks_share _ = true

abbrev anchor_of_dir : Option String → Option String
anchor_of_dir none = none
anchor_of_dir (some dir) =
    if starts_with dir "//" && lacks_share (split_on b'/' dir)
    then none
    else some (canonicalize dir)

-- `relativePathAnchor`
unfoldable pub relative_path_anchor : Option String → Option String
unfolding strip_extended_length_prefix collapse_leading_slashes is_rooted directory_of canonicalize
    starts_with split_on
relative_path_anchor none = none
relative_path_anchor (some rules) =
    let folded = collapse_leading_slashes (strip_extended_length_prefix (to_slashes rules)) in
    if is_blank rules || not (is_rooted folded) then none else anchor_of_dir (directory_of folded)

unfoldable pub drop_text : ℕ → String → String
drop_text zero s = s
drop_text (suc n) String.[] = ""
drop_text (suc n) (String.◌∷◌ c s) = drop_text n s

pub record RelativePath : Type 0 where
  pub rel : String
  pub case_insensitive : Bool

module _ (lower : String → String) where
  abbrev pub within_root : String → String → Option RelativePath
  within_root root file =
      let prefix = String.◌++◌ root "/" in
      let insensitive = is_windows_shaped root || is_windows_shaped file in
      let matches =
        if insensitive then starts_with (lower file) (lower prefix) else starts_with file prefix in
      let rel = drop_text (String.count prefix) file in
      if matches && not (elem ".." (split_on b'/' rel))
      then some (record { rel = rel; case_insensitive = insensitive })
      else none

  abbrev anchored : String → Option String → Option String
  anchored raw none = none
  anchored raw (some anchor) = some (resolve_against_anchor anchor raw)

  abbrev in_root : String → Option String → Option RelativePath
  in_root root none = none
  in_root root (some file) = within_root root file

  -- `normalizeFindingPath`
  unfoldable pub normalize_finding_path : String → String → Option String → Option RelativePath
  unfolding strip_extended_length_prefix canonicalize is_rooted relative_path_anchor
      is_windows_shaped drop_text resolve_against_anchor
  normalize_finding_path raw_file worktree rules =
      let raw = strip_extended_length_prefix (to_slashes raw_file) in
      in_root (canonicalize (strip_extended_length_prefix (to_slashes worktree))) (
        if is_rooted raw
        then some (canonicalize raw)
        else anchored raw (relative_path_anchor rules))
