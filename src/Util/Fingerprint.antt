-- ===== src/Util/Fingerprint.antt =====
-- src/util/fingerprint.ts, src/gate/oracle-paths.ts: what a worker touched, and which of it lies
-- outside its scope. A snapshot maps each changed path to the fingerprint of its content.
pub mod Fences
use autodev_harness.Common.{
  String, Bool, false, ◌||◌, none, some, List, [], ◌∷◌, map, ◌==◌, if◌then◌else◌, lookup, any, elem,
  nat_eq, code,
}
use autodev_harness.Util.Glob.{normalize_path}
use autodev_harness.Util.Match.{glob_match}
use autodev_harness.Util.Text.{starts_with}

abbrev pub Snapshot : Type 0
Snapshot = List (String × String)

-- `baseline.has(k) && baseline.get(k) === v`
abbrev pub unchanged : Snapshot → String → String → Bool
unchanged baseline k v = elim (lookup k baseline) [ none ↦ false | some u ↦ u == v ]

-- `workerTouched`
unfoldable pub worker_touched : Snapshot → Snapshot → List String
worker_touched baseline [] = []
worker_touched baseline ((k, v) ∷ now) =
    let rest = worker_touched baseline now in if unchanged baseline k v then rest else k ∷ rest

-- `n.endsWith("/")` and `n.slice(0, -1)`
ends_with_slash : String → Bool
ends_with_slash String.[] = false
ends_with_slash (String.◌∷◌ c String.[]) = nat_eq (code c) b'/'
ends_with_slash (String.◌∷◌ c (String.◌∷◌ d s)) = ends_with_slash (String.◌∷◌ d s)

but_last : String → String
but_last String.[] = String.[]
but_last (String.◌∷◌ c String.[]) = String.[]
but_last (String.◌∷◌ c (String.◌∷◌ d s)) = String.◌∷◌ c (but_last (String.◌∷◌ d s))

-- `isUnderAnyPrefix`
unfoldable pub is_under_any_prefix : String → List String → Bool
unfolding ends_with_slash but_last starts_with
is_under_any_prefix path prefixes =
    any
      (λ pre.
        let n = normalize_path pre in
        if ends_with_slash n then path == but_last n || starts_with path n else path == n)
      prefixes

-- `strayChanged`
unfoldable pub stray_changed : List String → List String → List String → List String
stray_changed [] file_set ignored = []
stray_changed (f ∷ touched) file_set ignored =
    let n = normalize_path f in
    let rest = stray_changed touched file_set ignored in
    if elem n (map normalize_path file_set) || is_under_any_prefix n ignored then rest else n ∷ rest

-- `forbiddenTouches`; with no globs the loop finds nothing.
unfoldable pub forbidden_touches : List String → List String → List String
forbidden_touches [] globs = []
forbidden_touches (f ∷ touched) globs =
    let n = normalize_path f in
    let rest = forbidden_touches touched globs in
    if any (λ g. glob_match (normalize_path g) n) globs then n ∷ rest else rest

-- `oracleGlobTouches` of src/gate/oracle-paths.ts.
unfoldable pub oracle_glob_touches : List String → List String → List String
oracle_glob_touches [] globs = []
oracle_glob_touches (f ∷ touched) globs =
    let n = normalize_path f in
    let rest = oracle_glob_touches touched globs in
    if any (λ g. glob_match (normalize_path g) n) globs then n ∷ rest else rest
