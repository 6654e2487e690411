-- ===== src/Tests/Arrays.antt =====
-- Prose with brackets around a JSON array.
use autodev_harness.Common.{
  ℕ, Char, String, Option, none, some, List, [], ◌∷◌, ◌≡◌, ◌↔◌, refl, length, drop, nat_eq,
  if◌then◌else◌,
}
use autodev_harness.Orchestrator.{find_balanced_array_end, extract_json_array, scan, extract_from}
use autodev_harness.Orchestrator.Finds.{IsArrayAt, find_balanced_array_end-some_iff}
use autodev_harness.Orchestrator.Extracts.{IsFirst, extract_json_array-some_iff}

abbrev chars : String → List Char
chars String.[] = []
chars (String.◌∷◌ c s) = c ∷ chars s

abbrev prose : List Char
prose = chars "a [b] [\"]\\\"\", 1]!"

quoted_bracket : find_balanced_array_end prose 6 ≡ some 15
unfolding find_balanced_array_end scan
quoted_bracket = refl

unbalanced : find_balanced_array_end (chars "[[1]") 0 ≡ none
unfolding find_balanced_array_end scan
unbalanced = refl

-- A parser that refuses `[b]` and takes all else, its value the length, for an array.
abbrev parse : List Char → Option ℕ
parse t = if nat_eq (length t) 3 then none else some (length t)

abbrev array : ℕ → Option ℕ
array n = some n

extracted : extract_json_array parse array prose ≡ some 10
unfolding extract_json_array extract_from find_balanced_array_end scan
extracted = refl

find_balanced_array_end-some_iff_example :
    (find_balanced_array_end prose 6 ≡ some 15) ↔ IsArrayAt prose 6 15
find_balanced_array_end-some_iff_example =
    find_balanced_array_end-some_iff prose 6 15 "[" (drop 7 prose) refl refl

extract_json_array-some_iff_example :
    (extract_json_array parse array prose ≡ some 10) ↔ IsFirst parse array prose 0 10
extract_json_array-some_iff_example = extract_json_array-some_iff parse array prose 10
