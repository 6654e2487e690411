-- ===== src/Gate/Findings/Filter.antt =====
-- `filterFindings`: the findings that lie on lines which the diff added, or in files which it
-- created, and those that cannot be placed.
use autodev_harness.Common.{
  ℕ, String, Bool, true, false, Option, none, some, List, [], ◌∷◌, ◌++◌, ◌==◌, nat_eq, lookup, elem,
  any, filter, if◌then◌else◌,
}
use autodev_harness.Gate.Diff.Walk.{Added}
use autodev_harness.Gate.Zones.{unique_from}
use autodev_harness.Gate.Findings.Paths.{RelativePath, normalize_finding_path}

pub data Severity : Type 0 where
  error : Severity
  warning : Severity

-- `CheckstyleFinding`
pub record Finding : Type 0 where
  pub file : String
  pub line : Option ℕ
  pub severity : Severity
  pub message : String
  pub source : String

-- `FilteredFinding`
pub record FilteredFinding : Type 0 where
  pub finding : Finding
  pub unattributed : Bool

abbrev pub keys_of : Added → List String
keys_of [] = []
keys_of ((p, ns) ∷ rest) = p ∷ keys_of rest

-- `addedLines.get(path)?.has(n)`
abbrev pub has_line : Option (List ℕ) → ℕ → Bool
has_line none n = false
has_line (some ns) n = any (nat_eq n) ns

module _ (lower : String → String) (added : Added) (new_files : List String) where
  -- `findAllCaseInsensitiveKeys`
  unfoldable pub matching_keys : String → List String
  unfolding unique_from
  matching_keys target =
      filter (λ k. lower k == lower target) (unique_from [] (keys_of added ++ new_files))

  abbrev pub or_itself : String → List String → List String
  or_itself rel [] = rel ∷ []
  or_itself rel (k ∷ ks) = k ∷ ks

  -- `candidateKeys`
  abbrev pub candidate_keys : RelativePath → List String
  candidate_keys p =
      if p.case_insensitive then or_itself p.rel (matching_keys p.rel) else p.rel ∷ []

  -- The finding is on a line that was added, or it is about a whole file that is new.
  abbrev pub is_on_added : String → Option ℕ → Bool
  is_on_added key none = elem key new_files
  is_on_added key (some n) = has_line (lookup key added) n

  abbrev pub unplaced : Finding → List FilteredFinding
  unplaced f = record { finding = f; unattributed = true } ∷ []

  abbrev pub placed_finding : Finding → String → List FilteredFinding
  placed_finding f key =
      if is_on_added key f.line
      then record { finding = record f { file = key }; unattributed = false } ∷ []
      else []

  abbrev pub by_keys : Finding → List String → List FilteredFinding
  by_keys f [] = []
  by_keys f (key ∷ []) = placed_finding f key
  by_keys f (key ∷ other ∷ keys) = unplaced f

  abbrev pub by_path : Finding → Option RelativePath → List FilteredFinding
  by_path f none = unplaced f
  by_path f (some p) = by_keys f (candidate_keys p)

  -- What the loop keeps of one finding.
  unfoldable pub kept_of : String → Option String → Finding → List FilteredFinding
  unfolding normalize_finding_path matching_keys
  kept_of worktree rules f = by_path f (normalize_finding_path lower f.file worktree rules)

  -- `filterFindings`
  unfoldable pub filter_findings : String → Option String → List Finding → List FilteredFinding
  unfolding kept_of
  filter_findings worktree rules [] = []
  filter_findings worktree rules (f ∷ fs) =
      kept_of worktree rules f ++ filter_findings worktree rules fs
