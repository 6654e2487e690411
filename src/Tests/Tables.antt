-- ===== src/Tests/Tables.antt =====
-- A guard table with a verified row, an unverified one and prose around it.
use Prim.Native.String
use autodev_harness.Common.{
  false, ◌==◌, none, some, List, [], ◌∷◌, String, ◌≡◌, refl, ◌↔◌, if◌then◌else◌, All,
}
use mathlib.Core.List.{Memᴰ}
use autodev_harness.Util.Text.{starts_with, is_blank, split_on}
use autodev_harness.Gate.Diff.Quoting.{trim, trim_start, trim_end}
use autodev_harness.Gate.Guards.{GuardRow, GuardRecipe, GuardRecipePair}
use autodev_harness.Gate.Guards.Table.{
  begins_with_bar, only_dashes, without_ticks, row_of_line, parse_guards_table,
  is_mutation_verified,
}
use autodev_harness.Gate.Guards.Cells.{text_of}
use autodev_harness.Gate.Guards.RoundTrip.{
  IsRow, IsProse, table_lines, row_text, parse_guards_table-table_lines,
}
use autodev_harness.Gate.Guards.Oracle.{
  OracleFiles, with_keys, regular_file, resolve_contained_oracle_file, canonical_path_contains,
  strip_trailing_separators,
}
use autodev_harness.Gate.Guards.Load.{GuardFiles, loaded, load_guard_pairs, load_recipe, pairs_of}
use autodev_harness.Gate.Guards.Loads.{pair_of, IsLoaded, load_guard_pairs-IsLoaded}

abbrev verified : GuardRow
verified = record {
  contract_id = "key";
  contract_value = "user id";
  guard_test = "t_key";
  recipe = "key.json";
  mutation_verified = "Yes (red on flip)";
  blessed_by = "ann";
  date = "2026-07-01";
}

abbrev unverified : GuardRow
unverified = record verified { contract_id = "other"; mutation_verified = "no" }

abbrev two_rows : List GuardRow
two_rows = verified ∷ unverified ∷ []

abbrev title : List String
title = "# GUARDS" ∷ "" ∷ []

verified-IsRow : IsRow verified
unfolding is_blank trim_end only_dashes
verified-IsRow = record {
  id_cell = refl;
  id_trimmed = (refl, refl);
  id_plain = refl;
  value_cell = refl;
  value_plain = refl;
  test_cell = refl;
  test_plain = refl;
  recipe_cell = refl;
  recipe_plain = refl;
  verified_cell = refl;
  verified_trimmed = (refl, refl);
  blessed_cell = refl;
  blessed_trimmed = (refl, refl);
  date_cell = refl;
  date_trimmed = (refl, refl);
}

unverified-IsRow : IsRow unverified
unfolding is_blank trim_end only_dashes
unverified-IsRow = record {
  id_cell = refl;
  id_trimmed = (refl, refl);
  id_plain = refl;
  value_cell = refl;
  value_plain = refl;
  test_cell = refl;
  test_plain = refl;
  recipe_cell = refl;
  recipe_plain = refl;
  verified_cell = refl;
  verified_trimmed = (refl, refl);
  blessed_cell = refl;
  blessed_trimmed = (refl, refl);
  date_cell = refl;
  date_trimmed = (refl, refl);
}

two_rows-IsRow : All IsRow two_rows
two_rows-IsRow = (verified-IsRow, (unverified-IsRow, tt))

title-IsProse : All IsProse title
unfolding begins_with_bar
title-IsProse = ((refl, refl), ((refl, refl), tt))

verified_text :
    row_text verified
    ≡ "| key | `user id` | `t_key` | `key.json` | Yes (red on flip) | ann | 2026-07-01 |"
verified_text = refl

-- The rule below a header is skipped only when it is made of dashes alone.
aligned_rule :
    row_of_line "|:---|---|---|---|---|---|---|"
    ≡ some (record {
      contract_id = ":---";
      contract_value = "---";
      guard_test = "---";
      recipe = "---";
      mutation_verified = "---";
      blessed_by = "---";
      date = "---";
    })
unfolding row_of_line begins_with_bar split_on trim trim_start trim_end is_blank only_dashes
    without_ticks
aligned_rule = refl

parse_guards_table-table_lines_example :
    parse_guards_table (text_of (table_lines title two_rows title)) ≡ two_rows
parse_guards_table-table_lines_example =
    parse_guards_table-table_lines title two_rows title title-IsProse two_rows-IsRow title-IsProse

abbrev recipe : GuardRecipe
recipe = record {
  zone_id = some "Z1";
  contract_id = none;
  file = none;
  locator = none;
  canonical_value = some "user id";
  mutated_value = none;
  guard_test = none;
}

-- Every path below `/r/` is a regular file and its own real path.
abbrev oracle : OracleFiles
oracle = record {
  root = "/r/";
  sep = "/";
  windows = false;
  to_lower_case = λ s. s;
  join_paths = λ root rel. String.◌++◌ root rel;
  lstat = λ path. some regular_file;
  realpath = λ path. some path;
}

-- The recipe's text is `{}`.
abbrev files : GuardFiles
files = record {
  guards_file = "GUARDS.md";
  contract = with_keys ("guardsFile" ∷ []);
  oracle = oracle;
  read_file = λ path.
      if path == "/r/GUARDS.md" then some (text_of (table_lines title two_rows [])) else some "{}";
  parse_json = λ text. some recipe;
}

load_guard_pairs-IsLoaded_example :
    (pairs : List GuardRecipePair) × (load_guard_pairs files ≡ loaded pairs)
    × ((g : GuardRow) (r : GuardRecipe) → Memᴰ (pair_of g r) pairs ↔ IsLoaded files two_rows g r)
unfolding resolve_contained_oracle_file canonical_path_contains strip_trailing_separators
    starts_with
load_guard_pairs-IsLoaded_example =
    load_guard_pairs-IsLoaded files "/r/GUARDS.md" title two_rows [] refl refl title-IsProse
      two_rows-IsRow tt

only_verified : pairs_of files two_rows ≡ pair_of verified recipe ∷ []
unfolding pairs_of is_mutation_verified load_recipe resolve_contained_oracle_file
    canonical_path_contains strip_trailing_separators starts_with
only_verified = refl
