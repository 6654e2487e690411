-- ===== src/Gate/Guards/Load.antt =====
-- src/composition/root.ts: loadGuardPairsFrom, the guards that the gate judges with.
--
-- The files are answers of the environment, and so is `JSON.parse`, whose value is taken at the
-- type that the code declares for it.
use autodev_harness.Common.{String, Option, none, some, List, [], ◌∷◌, if◌then◌else◌}
use autodev_harness.Gate.Guards.{GuardRow, GuardRecipe, GuardRecipePair}
use autodev_harness.Gate.Guards.Oracle.{
  RawContract, OracleFiles, OracleUnreadableReason, OracleFileResolution, readable, unreadable,
  is_contract_file_configured, resolve_contained_oracle_file,
}
use autodev_harness.Gate.Guards.Table.{parse_guards_table, is_mutation_verified}

pub record GuardFiles : Type 0 where
  pub guards_file : String
  pub contract : RawContract
  pub oracle : OracleFiles
  pub read_file : String → Option String
  pub parse_json : String → Option GuardRecipe

-- The pairs, or what is thrown.
pub data Loading : Type 0 where
  loaded : List GuardRecipePair → Loading
  missing_oracle : OracleUnreadableReason → Loading
  read_failed : Loading

-- The second step, on what the first one found.
abbrev if_found : {A B : Type 0} → Option A → (A → Option B) → Option B
if_found none f = none
if_found (some x) f = f x

abbrev resolved_path : OracleFileResolution → Option String
resolved_path (readable path) = some path
resolved_path (unreadable reason) = none

unfoldable pub load_recipe : GuardFiles → String → Option GuardRecipe
unfolding resolve_contained_oracle_file
load_recipe files path =
    if_found (resolved_path (resolve_contained_oracle_file files.oracle path))
      (λ found. if_found (files.read_file found) files.parse_json)

abbrev pub push_pair : GuardRow → Option GuardRecipe → List GuardRecipePair → List GuardRecipePair
push_pair row none pairs = pairs
push_pair row (some recipe) pairs = record { guard = row; recipe = recipe } ∷ pairs

-- The loop over the rows.
unfoldable pub pairs_of : GuardFiles → List GuardRow → List GuardRecipePair
pairs_of files [] = []
pairs_of files (row ∷ rows) =
    let rest = pairs_of files rows in
    if is_mutation_verified row then push_pair row (load_recipe files row.recipe) rest else rest

abbrev pub load_table : GuardFiles → Option String → Loading
load_table files none = read_failed
load_table files (some text) = loaded (pairs_of files (parse_guards_table text))

abbrev pub load_resolved : GuardFiles → OracleFileResolution → Loading
load_resolved files (unreadable reason) =
    if is_contract_file_configured files.contract "guardsFile"
    then missing_oracle reason
    else loaded []
load_resolved files (readable path) = load_table files (files.read_file path)

-- `loadGuardPairsFrom`
unfoldable pub load_guard_pairs : GuardFiles → Loading
unfolding resolve_contained_oracle_file
load_guard_pairs files =
    load_resolved files (resolve_contained_oracle_file files.oracle files.guards_file)
