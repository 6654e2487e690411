-- ===== src/Tests/Fences.antt =====
-- A worker that changed a file of its task and one beside it.
use autodev_harness.Common.{String, List, [], ◌∷◌}
use autodev_harness.Util.Fingerprint.{Snapshot}

abbrev before_run : Snapshot
before_run = ("src/a.ts", "f1") ∷ []

abbrev after_run : Snapshot
after_run = ("src/a.ts", "f2") ∷ ("dist/b.js", "f3") ∷ []

abbrev touched : List String
touched = "src/a.ts" ∷ "dist/b.js" ∷ []
