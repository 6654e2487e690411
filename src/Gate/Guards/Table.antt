-- ===== src/Gate/Guards/Table.antt =====
-- src/gate/guards.ts: parseGuardsTable and isMutationVerified.
use autodev_harness.Common.{
  Char, code, String, Bool, true, false, ◌&&◌, ◌||◌, Option, none, some, List, [], ◌∷◌, ◌==◌, map,
  nat_eq, if◌then◌else◌,
}
use autodev_harness.Util.Text.{is_space, split_on, split_lines}
use autodev_harness.Gate.Diff.Quoting.{trim}
use autodev_harness.Gate.Guards.{GuardRow}

-- `/^\s*\|/`
unfoldable pub begins_with_bar : String → Bool
begins_with_bar String.[] = false
begins_with_bar (String.◌∷◌ c s) = nat_eq (code c) 124 || (is_space c && begins_with_bar s)

-- `/^-*$/`
unfoldable pub only_dashes : String → Bool
only_dashes String.[] = true
only_dashes (String.◌∷◌ c s) = nat_eq (code c) 45 && only_dashes s

-- `/^-+$/`
abbrev pub is_dashes : String → Bool
is_dashes String.[] = false
is_dashes (String.◌∷◌ c s) = only_dashes (String.◌∷◌ c s)

-- s.replaceAll("`", "")
unfoldable pub without_ticks : String → String
without_ticks String.[] = ""
without_ticks (String.◌∷◌ c s) =
    let rest = without_ticks s in if nat_eq (code c) 96 then rest else String.◌∷◌ c rest

-- The row of at least eight cells, unless it is the header or the rule below it.
abbrev pub row_of_cells : List String → Option GuardRow
row_of_cells (_ ∷ id ∷ value ∷ test ∷ recipe ∷ verified ∷ blessed ∷ date ∷ _) =
    if (id == "contract_id") || is_dashes id
    then none
    else some (record {
      contract_id = id;
      contract_value = without_ticks value;
      guard_test = without_ticks test;
      recipe = without_ticks recipe;
      mutation_verified = verified;
      blessed_by = blessed;
      date = date;
    })
row_of_cells _ = none

unfoldable pub row_of_line : String → Option GuardRow
row_of_line line =
    if begins_with_bar line then row_of_cells (map trim (split_on 124 line)) else none

abbrev pub push_row : Option GuardRow → List GuardRow → List GuardRow
push_row none rows = rows
push_row (some row) rows = row ∷ rows

unfoldable pub rows_of_lines : List String → List GuardRow
rows_of_lines [] = []
rows_of_lines (line ∷ rest) = push_row (row_of_line line) (rows_of_lines rest)

-- `parseGuardsTable`
unfoldable pub parse_guards_table : String → List GuardRow
unfolding rows_of_lines
parse_guards_table markdown = rows_of_lines (split_lines markdown)

-- The character is the letter, in either case.
abbrev either_case : Char → Char → Char → Bool
either_case lower upper c = nat_eq (code c) (code lower) || nat_eq (code c) (code upper)

abbrev starts_with_yes : String → Bool
starts_with_yes (String.◌∷◌ y (String.◌∷◌ e (String.◌∷◌ s _))) =
    either_case "y" "Y" y && either_case "e" "E" e && either_case "s" "S" s
starts_with_yes _ = false

-- `isMutationVerified`
unfoldable pub is_mutation_verified : GuardRow → Bool
is_mutation_verified guard = starts_with_yes guard.mutation_verified
