-- ===== src/Gate/Mutation.antt =====
-- src/gate/mutation-check.ts: a guard is real if it goes red when the value it guards is mutated.
pub mod Laws
use autodev_harness.Common.{ℕ, suc, String, Bool, true, false, not, ◌||◌, ◌==◌, if◌then◌else◌}
use autodev_harness.Util.Fallible.{Error, thrown, Result, ok, err, Stateful, pure, ◌>>=◌, ◌>>◌}
use autodev_harness.Util.Text.{includes}

pub record MutationRecipe : Type 0 where
  pub file : String
  pub locator : String
  pub canonical_value : String
  pub mutated_value : String
  pub guard_test : String

pub data MutationCheckResult : Type 0 where
  passed baseline_red stale_recipe stayed_green red_after_revert : MutationCheckResult

-- The target file, the writes and the test runs so far, and the flag `restored`.
pub record Target : Type 0 where
  pub content : String
  pub writes : ℕ
  pub runs : ℕ
  pub restored : Bool

-- The language's `replaceAll` and the decoding of bytes, the test runner (run by run, on what the
-- file holds) and the file system.
pub record MutationEnv : Type 0 where
  pub exists : Bool
  pub decode : String → String
  pub encode : String → String
  pub replace_all : (pattern replacement within : String) → String
  pub run_guard_test : ℕ → String → Result Bool
  pub write_fault : ℕ → Bool

abbrev pub M : Type 0 → Type 0
M = Stateful Target

-- A field that is missing or empty.
abbrev pub lacks_field : MutationRecipe → Bool
lacks_field r =
    (r.file == "")
    || (r.locator == "")
    || (r.canonical_value == "")
    || (r.mutated_value == "")
    || (r.guard_test == "")

abbrev pub set_restored : M (Unit {0})
set_restored w = (ok tt, record w { restored = true })

-- A failed write overrides the result.
abbrev pub after_write :
    Result MutationCheckResult → Result (Unit {0}) × Target → Result MutationCheckResult × Target
after_write r (ok _, w) = (r, w)
after_write r (err e, w) = (err e, w)

module _ (env : MutationEnv) where
  abbrev pub run_test : M Bool
  run_test w = (env.run_guard_test w.runs w.content, record w { runs = suc w.runs })

  -- `writeFile`; a failed write leaves the file as it was.
  unfoldable pub write_file : String → M (Unit {0})
  write_file content w =
      if env.write_fault w.writes
      then (err (thrown "write"), record w { writes = suc w.writes })
      else (ok tt, record w { content = content; writes = suc w.writes })

  -- After the file is restored.
  abbrev pub confirm : Bool → M MutationCheckResult
  confirm green =
      if green
      then pure stayed_green
      else (do after ← run_test; pure (if after then passed else red_after_revert))

  -- The `finally`.
  unfoldable pub restore_unless :
      String → Result MutationCheckResult × Target → Result MutationCheckResult × Target
  restore_unless original (r, w) =
      if w.restored then (r, w) else after_write r (write_file original w)

  module _ (recipe : MutationRecipe) where
    abbrev pub mutated_line : String
    mutated_line = env.replace_all recipe.canonical_value recipe.mutated_value recipe.locator

    abbrev pub mutated_bytes : String → String
    mutated_bytes original =
        env.encode (env.replace_all recipe.locator mutated_line (env.decode original))

    -- The mutation, the run under it and the restoration.
    unfoldable pub mutate : String → M MutationCheckResult
    mutate original = do
      write_file (mutated_bytes original)
      green ← run_test
      write_file original
      set_restored
      confirm green

    -- The body of the `try`.
    unfoldable pub check_body : String → M MutationCheckResult
    unfolding mutate
    check_body original = do
      baseline ← run_test
      if baseline
          then (if includes (env.decode original) recipe.locator
              then mutate original
              else pure stale_recipe)
          else pure baseline_red

    unfoldable pub mutation_check : M MutationCheckResult
    unfolding check_body restore_unless
    mutation_check w =
        if lacks_field recipe
        then (err (thrown "recipe is missing a required field"), w)
        else if not env.exists
        then (err (thrown "target file does not exist"), w)
        else if mutated_line == recipe.locator
        then (err (thrown "canonical_value not found inside locator"), w)
        else restore_unless w.content (check_body w.content (record w { restored = false }))
