-- ===== src/Gate/Guards/RoundTrip.antt =====
-- A guard table that is written and read again.
use mathlib.Core.List.{append-nil}
use autodev_harness.Common.{
  String, false, ◌||◌, List, [], ◌∷◌, ◌++◌, ◌==◌, ◌≡◌, refl, ap, sym, ◌∙◌, map, All, All-imp,
  All-append, some, none, is_nil,
}
use autodev_harness.Util.Text.{is_blank, split_on}
use autodev_harness.Gate.Diff.Quoting.{trim, trim_start, trim_end}
use autodev_harness.Gate.Guards.{GuardRow}
use autodev_harness.Gate.Guards.Table.{
  begins_with_bar, is_dashes, only_dashes, row_of_cells, row_of_line, push_row, rows_of_lines,
  parse_guards_table,
}
use autodev_harness.Gate.Guards.Cells.{
  glue, text_of, IsCell, IsOneLine, HasNoTick, IsTrimmed, split_lines-text_of, ticked,
  ticked-IsTrimmed, without_ticks-ticked, cells_text, ticked-IsCell, cells_text-IsOneLine,
  cells_of-cells_text,
}

-- What the table can carry.
pub record IsRow (row : GuardRow) : Type 0 where
  pub id_cell : IsCell row.contract_id
  pub id_trimmed : IsTrimmed row.contract_id
  pub id_plain : ((row.contract_id == "contract_id") || is_dashes row.contract_id) ≡ false
  pub value_cell : IsCell row.contract_value
  pub value_plain : HasNoTick row.contract_value
  pub test_cell : IsCell row.guard_test
  pub test_plain : HasNoTick row.guard_test
  pub recipe_cell : IsCell row.recipe
  pub recipe_plain : HasNoTick row.recipe
  pub verified_cell : IsCell row.mutation_verified
  pub verified_trimmed : IsTrimmed row.mutation_verified
  pub blessed_cell : IsCell row.blessed_by
  pub blessed_trimmed : IsTrimmed row.blessed_by
  pub date_cell : IsCell row.date
  pub date_trimmed : IsTrimmed row.date

abbrev pub header : String
header =
    "| contract_id | contract_value | guard_test | recipe | mutation_verified | blessed_by | date |"

abbrev pub rule : String
rule = "|---|---|---|---|---|---|---|"

abbrev pub cells_of_row : GuardRow → List String
cells_of_row row =
    row.contract_id
    ∷ ticked row.contract_value
    ∷ ticked row.guard_test
    ∷ ticked row.recipe
    ∷ row.mutation_verified
    ∷ row.blessed_by
    ∷ row.date
    ∷ []

abbrev pub row_text : GuardRow → String
row_text row = glue "|" (cells_text (cells_of_row row))

module _ (row : GuardRow) (w : IsRow row) where
  cells_of_row-All : All (λ s. IsCell s × IsTrimmed s) (cells_of_row row)
  cells_of_row-All = (
    (w.id_cell, w.id_trimmed),
    (
      (ticked-IsCell row.contract_value w.value_cell, ticked-IsTrimmed row.contract_value),
      (
        (ticked-IsCell row.guard_test w.test_cell, ticked-IsTrimmed row.guard_test),
        (
          (ticked-IsCell row.recipe w.recipe_cell, ticked-IsTrimmed row.recipe),
          (
            (w.verified_cell, w.verified_trimmed),
            ((w.blessed_cell, w.blessed_trimmed), ((w.date_cell, w.date_trimmed), tt)),
          ),
        ),
      ),
    ),
  )

  row_text-IsOneLine : IsOneLine (row_text row)
  row_text-IsOneLine = cells_text-IsOneLine (cells_of_row row) (
      All-imp (λ s. IsCell s × IsTrimmed s) IsCell (cells_of_row row) (λ s (p, _). p)
        cells_of_row-All)

  row_of_line-row_text : row_of_line (row_text row) ≡ some row
  unfolding row_of_line begins_with_bar split_on trim trim_start trim_end
  row_of_line-row_text =
      ap (λ cells. row_of_cells ("" ∷ cells))
        (cells_of-cells_text (cells_of_row row) cells_of_row-All)
      ∙ rw
          (
            w.id_plain,
            without_ticks-ticked row.contract_value w.value_plain,
            without_ticks-ticked row.guard_test w.test_plain,
            without_ticks-ticked row.recipe w.recipe_plain,
          )
          refl

-- A line outside the table.
abbrev pub IsProse : String → Type 0
IsProse l = IsOneLine l × (begins_with_bar l ≡ false)

abbrev pub table_lines : List String → List GuardRow → List String → List String
table_lines before rows behind = before ++ header ∷ rule ∷ (map row_text rows ++ behind)

rows_of_lines-prose :
    (ls ms : List String) → All IsProse ls → rows_of_lines (ls ++ ms) ≡ rows_of_lines ms
unfolding rows_of_lines row_of_line
rows_of_lines-prose [] ms h = refl
rows_of_lines-prose (l ∷ ls) ms ((_, p), h) = rw p (rows_of_lines-prose ls ms h)

rows_of_lines-rows :
    (rows : List GuardRow) (behind : List String)
    → All IsRow rows
    → All IsProse behind
    → rows_of_lines (map row_text rows ++ behind) ≡ rows
unfolding rows_of_lines
rows_of_lines-rows [] behind h k =
    ap rows_of_lines (sym (append-nil behind)) ∙ rows_of_lines-prose behind [] k
rows_of_lines-rows (row ∷ rows) behind (w, h) k =
    ap (λ r. push_row r (rows_of_lines (map row_text rows ++ behind))) (row_of_line-row_text row w)
    ∙ ap (λ rs. row ∷ rs) (rows_of_lines-rows rows behind h k)

header_row : row_of_line header ≡ none
unfolding row_of_line begins_with_bar split_on trim trim_start trim_end is_blank
header_row = refl

rule_row : row_of_line rule ≡ none
unfolding row_of_line begins_with_bar split_on trim trim_start trim_end is_blank only_dashes
rule_row = refl

-- The header and the rule below it hold no row.
rows_of_lines-header : (ls : List String) → rows_of_lines (header ∷ rule ∷ ls) ≡ rows_of_lines ls
unfolding rows_of_lines
rows_of_lines-header ls = rw (header_row, rule_row) refl

table_lines-nil :
    (before : List String) (rows : List GuardRow) (behind : List String)
    → is_nil (table_lines before rows behind) ≡ false
table_lines-nil [] rows behind = refl
table_lines-nil (l ∷ before) rows behind = refl

row_texts-IsOneLine : (rows : List GuardRow) → All IsRow rows → All IsOneLine (map row_text rows)
row_texts-IsOneLine [] h = tt
row_texts-IsOneLine (row ∷ rows) (w, h) = (row_text-IsOneLine row w, row_texts-IsOneLine rows h)

prose_lines : (ls : List String) → All IsProse ls → All IsOneLine ls
prose_lines ls h = All-imp IsProse IsOneLine ls (λ l (p, _). p) h

-- A table of rows that it can carry (cells of one line without bars, no white space at the ends of
-- an unquoted cell, no backticks inside a quoted one, no id that is the title or only dashes), with
-- its header and its rule, between lines that do not start like a table's, is read back as the rows
-- in their order.
pub parse_guards_table-table_lines :
    (before : List String) (rows : List GuardRow) (behind : List String)
    → All IsProse before
    → All IsRow rows
    → All IsProse behind
    → parse_guards_table (text_of (table_lines before rows behind)) ≡ rows
unfolding parse_guards_table
parse_guards_table-table_lines before rows behind p h k =
    ap rows_of_lines (
      split_lines-text_of (table_lines before rows behind) (table_lines-nil before rows behind) (
        All-append IsOneLine before _ (prose_lines before p) (
          refl,
          (
            refl,
            All-append IsOneLine (map row_text rows) behind (row_texts-IsOneLine rows h)
                (prose_lines behind k),
          ),
        )))
    ∙ (rows_of_lines-prose before _ p
        ∙ (rows_of_lines-header (map row_text rows ++ behind) ∙ rows_of_lines-rows rows behind h k))
