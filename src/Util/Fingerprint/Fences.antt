-- ===== src/Util/Fingerprint/Fences.antt =====
-- What the fences let through.
use autodev_harness.Common.{
  String, true, false, ◌||◌, some, List, [], ◌∷◌, map, any, elem, lookup, All, ◌≡◌, ◌↔◌, arith, inl,
  inr, Option-cases, eq_iff,
}
use autodev_harness.Util.Glob.{normalize_path}
use autodev_harness.Util.Match.{glob_match}
use autodev_harness.Util.Fingerprint.{
  Snapshot, unchanged, worker_touched, stray_changed, is_under_any_prefix, forbidden_touches,
}

unchanged_iff :
    (baseline : Snapshot) (k v : String)
    → (unchanged baseline k v ≡ true) ↔ (lookup k baseline ≡ some v)
unchanged_iff baseline k v = elim (Option-cases (lookup k baseline)) [
  | inl missing ↦ ground arith
  | inr (u, found) ↦ ground (arith, eq_iff u v)
]

-- Nothing was touched exactly when every changed path had the same fingerprint before.
worker_touched-none_iff :
    (baseline now : Snapshot)
    → (worker_touched baseline now ≡ []) ↔ All (λ e. lookup e.0 baseline ≡ some e.1) now
unfolding worker_touched
worker_touched-none_iff baseline [] = ground arith
worker_touched-none_iff baseline ((k, v) ∷ now) =
    ground (arith, worker_touched-none_iff baseline now, unchanged_iff baseline k v)

-- A path of the file set, or one that the fence ignores.
abbrev pub InScope : List String → List String → String → Type 0
InScope file_set ignored f =
    (elem (normalize_path f) (map normalize_path file_set)
      || is_under_any_prefix (normalize_path f) ignored)
    ≡ true

-- The fence finds no stray path exactly when every touched path is, in normal form, a path of the
-- file set or one under an ignored prefix.
stray_changed-none_iff :
    (touched file_set ignored : List String)
    → (stray_changed touched file_set ignored ≡ []) ↔ All (InScope file_set ignored) touched
unfolding stray_changed
stray_changed-none_iff [] file_set ignored = ground arith
stray_changed-none_iff (f ∷ touched) file_set ignored =
    ground (arith, stray_changed-none_iff touched file_set ignored)

-- A path that no forbidden glob matches.
abbrev pub IsPermitted : List String → String → Type 0
IsPermitted globs f = any (λ g. glob_match (normalize_path g) (normalize_path f)) globs ≡ false

-- The fence finds no forbidden touch exactly when no glob matches a touched path, both in normal
-- form.
forbidden_touches-none_iff :
    (touched globs : List String)
    → (forbidden_touches touched globs ≡ []) ↔ All (IsPermitted globs) touched
unfolding forbidden_touches
forbidden_touches-none_iff [] globs = ground arith
forbidden_touches-none_iff (f ∷ touched) globs =
    ground (arith, forbidden_touches-none_iff touched globs)
