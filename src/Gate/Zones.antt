-- ===== src/Gate/Zones.antt =====
-- src/gate/invariants.ts, src/gate/zone-scope.ts, src/util/path-shape.ts: which contract zones a
-- diff touches, and which of its lines a zone may see.
pub mod Scoped
use autodev_harness.Common.{
  Char, code, String, Bool, false, not, ◌&&◌, ◌||◌, Option, none, some, List, [], ◌∷◌, ◌++◌, ◌==◌,
  nat_eq, leb, if◌then◌else◌, any, every, filter, elem, is_nil,
}
use autodev_harness.Util.Glob.{to_slashes}
use autodev_harness.Util.Match.{glob_match}
use autodev_harness.Util.Text.{is_blank, starts_with, includes, split_on, split_lines}

pub record ContractZone : Type 0 where
  pub id : String
  pub why : String
  pub auto_guardable : Bool
  pub path_globs : List String
  pub grep_patterns : List String
  pub exact_strings : List String

-- The `contract_zones` and `constitution.path_globs` of `Invariants`.
pub record Invariants : Type 0 where
  pub contract_zones : List ContractZone
  pub constitution_globs : List String

-- A section of a diff: its paths (both sides) and its `+`/`-` lines.
pub record DiffFileContent : Type 0 where
  pub files : List String
  pub lines : List String

abbrev starts_with_any : String → List String → Bool
starts_with_any l ps = any (λ p. starts_with l p) ps

-- `diffAddedRemovedLines`
unfoldable pub diff_added_removed_lines : String → List String
unfolding split_lines starts_with
diff_added_removed_lines text =
    filter (λ l. starts_with_any l ("+" ∷ "-" ∷ []) && not (starts_with_any l ("+++" ∷ "---" ∷ [])))
      (split_lines text)

module _ (lower : String → String) (regex : String → Option (String → Bool)) where
  -- `new RegExp(pat, "i").test(l)`; a malformed pattern is no match.
  abbrev grep_hit : String → String → Bool
  grep_hit l pat = elim (regex pat) [ none ↦ false | some test ↦ test l ]

  abbrev line_hits : ContractZone → String → Bool
  line_hits zone l =
      any (grep_hit l) zone.grep_patterns
      || any (λ s. includes (lower l) (lower s)) zone.exact_strings

  -- `zoneTouched`
  unfoldable pub zone_touched : ContractZone → List String → List String → Bool
  zone_touched zone changed_files diff_lines =
      any (λ f. any (λ glob. glob_match glob f) zone.path_globs) changed_files
      || any (line_hits zone) diff_lines

-- `zoneTouchedStrings`
unfoldable pub zone_touched_strings : ContractZone → List String → List String
zone_touched_strings zone diff_lines =
    filter (λ s. not (s == "") && any (λ l. includes l s) diff_lines) zone.exact_strings

abbrev is_control : Char → Bool
is_control c = leb (code c) 0x1f || nat_eq (code c) 0x7f

has_control : String → Bool
has_control String.[] = false
has_control (String.◌∷◌ c s) = is_control c || has_control s

abbrev is_letter : Char → Bool
is_letter c = (leb b'a' (code c) && leb (code c) b'z') || (leb b'A' (code c) && leb (code c) b'Z')

-- `/^[a-zA-Z]:/`
abbrev has_drive : String → Bool
has_drive (String.◌∷◌ c (String.◌∷◌ d s)) = is_letter c && nat_eq (code d) b':'
has_drive _ = false

-- `isPlainRelativePath`
unfoldable pub is_plain_relative_path : String → Bool
unfolding has_control starts_with split_on
is_plain_relative_path p =
    let s = to_slashes p in
    not (has_control p || starts_with s "/" || has_drive s) && not (elem ".." (split_on b'/' s))

-- `isDeclaredDoc`
unfoldable pub is_declared_doc : String → List String → Bool
is_declared_doc path globs =
    not (is_blank path)
    && is_plain_relative_path path
    && any (λ g. not (is_blank g) && glob_match g path) globs

-- `excludeDeclaredDocs`
unfoldable pub exclude_declared_docs : List DiffFileContent → List String → List DiffFileContent
exclude_declared_docs by_file globs =
    if is_nil globs
    then by_file
    else filter (λ e. is_nil e.files || not (every (λ f. is_declared_doc f globs) e.files)) by_file

-- `excludeDeclaredDocPaths`
unfoldable pub exclude_declared_doc_paths : List String → List String → List String
exclude_declared_doc_paths changed_files globs =
    if is_nil globs
    then changed_files
    else filter (λ f. not (is_declared_doc f globs)) changed_files

abbrev pub flat_lines : List DiffFileContent → List String
flat_lines [] = []
flat_lines (e ∷ es) = e.lines ++ flat_lines es

abbrev pub in_scope : ContractZone → DiffFileContent → Bool
in_scope zone e = is_nil e.files || any (λ f. any (λ g. glob_match g f) zone.path_globs) e.files

-- `zoneScopedLines`
unfoldable pub zone_scoped_lines : ContractZone → List DiffFileContent → List String
zone_scoped_lines zone by_file =
    if is_nil zone.path_globs
    then flat_lines by_file
    else flat_lines (filter (in_scope zone) by_file)

-- `attributeDiffLines`: `none` is a diff that `diff-lines.ts` refuses to read.
unfoldable pub attribute_diff_lines :
    Option (List DiffFileContent) → List String → List DiffFileContent
attribute_diff_lines none fallback = record { files = []; lines = fallback } ∷ []
attribute_diff_lines (some by_file) fallback = by_file

-- `[...new Set(xs)]`, behind the elements `seen`.
unfoldable pub unique_from : List String → List String → List String
unique_from seen [] = []
unique_from seen (x ∷ xs) =
    let old = unique_from seen xs in
    let fresh = x ∷ unique_from (x ∷ seen) xs in if elem x seen then old else fresh

-- `unionDiffNamedPaths`
unfoldable pub union_diff_named_paths : List String → Option (List String) → List String
unfolding unique_from
union_diff_named_paths changed_files none = changed_files
union_diff_named_paths changed_files (some paths) = unique_from [] (changed_files ++ paths)
