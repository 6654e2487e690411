-- ===== src/Tests/Findings.antt =====
-- Findings of a tool that writes absolute paths, on a diff that adds line 5 of one file.
use autodev_harness.Common.{
  ℕ, String, true, false, Option, none, some, List, [], ◌∷◌, ◌≡◌, ◌↔◌, refl, All,
}
use autodev_harness.Util.Glob.{to_slashes}
use autodev_harness.Util.Text.{is_blank}
use autodev_harness.Gate.Diff.Headers.{has_terminator}
use autodev_harness.Gate.Diff.Walk.{Added}
use autodev_harness.Gate.Findings.Paths.{normalize_finding_path}
use autodev_harness.Gate.Findings.Filter.{Finding, error, filter_findings}
use autodev_harness.Gate.Findings.Dropped.{IsForeign, filter_findings-none_iff}

abbrev lower : String → String
lower s = s

abbrev added : Added
added = ("src/a.php", 5 ∷ []) ∷ []

abbrev finding : String → Option ℕ → Finding
finding file line = record {
  file = file;
  line = line;
  severity = error;
  message = "m";
  source = "s";
}

abbrev on_added_line : Finding
on_added_line = finding "C:\\wt\\src\\x\\..\\a.php" (some 5)

abbrev off_added_line : Finding
off_added_line = finding "C:\\wt\\src\\a.php" (some 6)

abbrev outside : Finding
outside = finding "C:\\other\\a.php" (some 6)

normalized :
    normalize_finding_path lower "//?/C:/wt/src/./a.php" "C:\\wt\\" none
    ≡ some (record { rel = "src/a.php"; case_insensitive = true })
unfolding normalize_finding_path to_slashes has_terminator
normalized = refl

anchored :
    normalize_finding_path lower "../src/a.php" "/wt" (some "/wt/rules/r.xml")
    ≡ some (record { rel = "src/a.php"; case_insensitive = false })
unfolding normalize_finding_path to_slashes is_blank
anchored = refl

filtered :
    filter_findings lower added [] "C:\\wt" none (on_added_line ∷ off_added_line ∷ outside ∷ [])
    ≡ record { finding = record on_added_line { file = "src/a.php" }; unattributed = false }
      ∷ record { finding = outside; unattributed = true }
      ∷ []
unfolding filter_findings normalize_finding_path to_slashes
filtered = refl

filter_findings-none_iff_example :
    (filter_findings lower added [] "C:\\wt" none (off_added_line ∷ []) ≡ [])
    ↔ All (IsForeign lower added [] "C:\\wt" none) (off_added_line ∷ [])
filter_findings-none_iff_example =
    filter_findings-none_iff lower added [] "C:\\wt" none (off_added_line ∷ [])

abbrev share : List String
share = "" ∷ "" ∷ "host" ∷ "share" ∷ ".." ∷ "a" ∷ []
