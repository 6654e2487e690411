-- ===== src/Gate/Guards/Loads.antt =====
-- Which guards the gate is given.
use mathlib.Core.Path.{subst}
use mathlib.Core.List.{Memᴰ}
use autodev_harness.Common.{
  String, Bool, true, false, Option, none, some, List, [], ◌∷◌, if◌then◌else◌, ◌≡◌, ◌⊎◌, ◌↔◌, refl,
  ap, sym, ◌∙◌, inl, inr, All,
}
use autodev_harness.Gate.Guards.{GuardRow, GuardRecipe, GuardRecipePair}
use autodev_harness.Gate.Guards.Table.{is_mutation_verified}
use autodev_harness.Gate.Guards.Cells.{text_of}
use autodev_harness.Gate.Guards.RoundTrip.{
  IsRow, IsProse, table_lines, parse_guards_table-table_lines,
}
use autodev_harness.Gate.Guards.Oracle.{readable, resolve_contained_oracle_file}
use autodev_harness.Gate.Guards.Load.{
  GuardFiles, loaded, load_recipe, load_table, load_resolved, push_pair, pairs_of, load_guard_pairs,
}

abbrev pub pair_of : GuardRow → GuardRecipe → GuardRecipePair
pair_of guard recipe = record { guard = guard; recipe = recipe }

-- The pair is in the list behind the row, or it is the row's.
pushed :
    (b : Bool) (row : GuardRow) (o : Option GuardRecipe) (pairs : List GuardRecipePair)
    (g : GuardRow) (r : GuardRecipe)
    → Memᴰ (pair_of g r) (if b then push_pair row o pairs else pairs)
    → ((b ≡ true) × (g ≡ row) × (o ≡ some r)) ⊎ Memᴰ (pair_of g r) pairs
pushed false row o pairs g r m = inr m
pushed true row none pairs g r m = inr m
pushed true row (some recipe) pairs g r (Memᴰ.head e) =
    inl (refl, ap (λ p. p.guard) e, ap (λ p. some p.recipe) (sym e))
pushed true row (some recipe) pairs g r (Memᴰ.tail m) = inr m

pushed_here :
    (b : Bool) (row : GuardRow) (o : Option GuardRecipe) (pairs : List GuardRecipePair)
    (r : GuardRecipe)
    → b ≡ true
    → o ≡ some r
    → Memᴰ (pair_of row r) (if b then push_pair row o pairs else pairs)
pushed_here b row o pairs r h k = rw (h, k) (Memᴰ.head refl)

pushed_behind :
    (b : Bool) (row : GuardRow) (o : Option GuardRecipe) (pairs : List GuardRecipePair)
    (p : GuardRecipePair)
    → Memᴰ p pairs
    → Memᴰ p (if b then push_pair row o pairs else pairs)
pushed_behind false row o pairs p m = m
pushed_behind true row none pairs p m = m
pushed_behind true row (some recipe) pairs p m = Memᴰ.tail m

module _ (files : GuardFiles) where
  -- The guard is a verified row, and its recipe can be loaded.
  abbrev pub IsLoaded : List GuardRow → GuardRow → GuardRecipe → Type 0
  IsLoaded rows g r =
      Memᴰ g rows × (is_mutation_verified g ≡ true) × (load_recipe files g.recipe ≡ some r)

  pairs_of-IsLoaded :
      (rows : List GuardRow) (g : GuardRow) (r : GuardRecipe)
      → Memᴰ (pair_of g r) (pairs_of files rows)
      → IsLoaded rows g r
  unfolding pairs_of
  pairs_of-IsLoaded [] g r m = elim m [ ]
  pairs_of-IsLoaded (row ∷ rows) g r m =
      elim (pushed (is_mutation_verified row) row (load_recipe files row.recipe)
        (pairs_of files rows) g r m) [
          | inl (v, e, l) ↦ (
            Memᴰ.head e,
            ap is_mutation_verified e ∙ v,
            ap (λ x. load_recipe files x.recipe) e ∙ l,
          )
          | inr n ↦ let (k, v, l) = pairs_of-IsLoaded rows g r n in (Memᴰ.tail k, v, l)
        ]

  IsLoaded-pairs_of :
      (rows : List GuardRow) (g : GuardRow) (r : GuardRecipe)
      → Memᴰ g rows
      → is_mutation_verified g ≡ true
      → load_recipe files g.recipe ≡ some r
      → Memᴰ (pair_of g r) (pairs_of files rows)
  unfolding pairs_of
  IsLoaded-pairs_of [] g r m v l = elim m [ ]
  IsLoaded-pairs_of (row ∷ rows) g r (Memᴰ.head e) v l =
      subst (λ x. Memᴰ (pair_of x r) (pairs_of files (row ∷ rows))) (sym e)
        (pushed_here (is_mutation_verified row) row (load_recipe files row.recipe)
          (pairs_of files rows) r (ap is_mutation_verified (sym e) ∙ v)
          (ap (λ x. load_recipe files x.recipe) (sym e) ∙ l))
  IsLoaded-pairs_of (row ∷ rows) g r (Memᴰ.tail m) v l =
      pushed_behind (is_mutation_verified row) row (load_recipe files row.recipe)
        (pairs_of files rows) (pair_of g r) (IsLoaded-pairs_of rows g r m v l)

  -- When the guards file resolves to a file inside the trusted root, can be read and holds a table of rows that a table can carry, between
  -- lines that do not start like a table's, the loading succeeds, and a guard is loaded with a recipe
  -- exactly when it is a row of the table, its mutation cell starts with `yes` in either case, and
  -- the recipe's file resolves, is read and parses to that recipe.
  pub load_guard_pairs-IsLoaded :
      (path : String) (before : List String) (rows : List GuardRow) (behind : List String)
      → resolve_contained_oracle_file files.oracle files.guards_file ≡ readable path
      → files.read_file path ≡ some (text_of (table_lines before rows behind))
      → All IsProse before
      → All IsRow rows
      → All IsProse behind
      → (pairs : List GuardRecipePair) × (load_guard_pairs files ≡ loaded pairs)
        × ((g : GuardRow) (r : GuardRecipe) → Memᴰ (pair_of g r) pairs ↔ IsLoaded rows g r)
  unfolding load_guard_pairs
  load_guard_pairs-IsLoaded path before rows behind h k p w q = (
    pairs_of files rows,
    ap (load_resolved files) h
        ∙ (ap (load_table files) k
            ∙ ap (λ rs. loaded (pairs_of files rs))
                (parse_guards_table-table_lines before rows behind p w q)),
    λ g r. (pairs_of-IsLoaded rows g r, λ (m, v, l). IsLoaded-pairs_of rows g r m v l),
  )
