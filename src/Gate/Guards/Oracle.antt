-- ===== src/Gate/Guards/Oracle.antt =====
-- src/composition/root.ts (resolveContainedOracleFile), src/util/path-contain.ts and
-- isContractFileConfigured of src/config/config.ts: where an oracle file is read from.
--
-- The file system, the joining of paths and the platform are answers of the environment.
use Prim.Native.String
use autodev_harness.Common.{
  Char, code, String, Bool, false, ◌&&◌, ◌||◌, Option, none, some, List, ◌==◌, nat_eq, elem,
  if◌then◌else◌,
}
use autodev_harness.Util.Text.{starts_with}

-- What `lstat` says of a path.
pub data FileKind : Type 0 where
  symbolic_link regular_file other_kind : FileKind

pub record OracleFiles : Type 0 where
  pub root : String
  pub sep : Char
  pub windows : Bool
  pub to_lower_case : String → String
  pub join_paths : String → String → String
  pub lstat : String → Option FileKind
  pub realpath : String → Option String

pub data OracleUnreadableReason : Type 0 where
  absent escaped_root symlinked : OracleUnreadableReason

pub data OracleFileResolution : Type 0 where
  readable : (path : String) → OracleFileResolution
  unreadable : OracleUnreadableReason → OracleFileResolution

-- The `contract` of the raw configuration: not an object, or its keys.
pub data RawContract : Type 0 where
  no_object : RawContract
  with_keys : List String → RawContract

-- `isContractFileConfigured`
abbrev pub is_contract_file_configured : RawContract → String → Bool
is_contract_file_configured no_object key = false
is_contract_file_configured (with_keys keys) key = elem key keys

-- `stripTrailingSeparators`
unfoldable pub strip_trailing_separators : Char → String → String
strip_trailing_separators sep String.[] = ""
strip_trailing_separators sep (String.◌∷◌ c s) =
    let rest = strip_trailing_separators sep s in
    if nat_eq (code c) (code sep) && (rest == "") then "" else String.◌∷◌ c rest

module _ (files : OracleFiles) where
  abbrev fold_case : String → String
  fold_case s = if files.windows then files.to_lower_case s else s

  abbrev is_at_or_below : String → String → Bool
  is_at_or_below root candidate =
      (candidate == root)
      || starts_with candidate (String.◌++◌ root (String.◌∷◌ files.sep String.[]))

  -- `canonicalPathContains`
  unfoldable pub canonical_path_contains : String → String → Bool
  unfolding strip_trailing_separators starts_with
  canonical_path_contains canonical_root canonical_candidate =
      let stripped = strip_trailing_separators files.sep canonical_root in
      if stripped == ""
      then false
      else is_at_or_below (fold_case stripped) (fold_case canonical_candidate)

  abbrev both_resolved : Option String → Option String → Bool
  both_resolved (some root) (some candidate) = canonical_path_contains root candidate
  both_resolved (some root) none = false
  both_resolved none candidate = false

  -- `realpathContains`, on the root
  abbrev pub realpath_contains : String → Bool
  realpath_contains candidate = both_resolved (files.realpath files.root) (files.realpath candidate)

  abbrev resolve_kind : String → Option FileKind → OracleFileResolution
  resolve_kind path none = unreadable absent
  resolve_kind path (some symbolic_link) = unreadable symlinked
  resolve_kind path (some other_kind) = unreadable absent
  resolve_kind path (some regular_file) =
      if realpath_contains path then readable path else unreadable escaped_root

  -- `resolveContainedOracleFile`
  unfoldable pub resolve_contained_oracle_file : String → OracleFileResolution
  unfolding canonical_path_contains
  resolve_contained_oracle_file rel_path =
      let path = files.join_paths files.root rel_path in resolve_kind path (files.lstat path)
