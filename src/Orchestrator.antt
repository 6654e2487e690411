-- ===== src/Orchestrator.antt =====
-- src/orchestrator/json-array-extract.ts: the first JSON array in a model's prose.
--
-- A text is the list of its characters, and `none` is -1 and null.
pub mod Brackets
pub mod Closes
pub mod Sound
pub mod Finds
pub mod Extracts
use autodev_harness.Common.{
  ℕ, zero, suc, ◌-◌, Char, code, Bool, true, false, Option, none, some, List, [], ◌∷◌, nat_eq, take,
  drop, if◌then◌else◌,
}

-- What the scan tells apart.
pub data Mark : Type 0 where
  quote backslash opening closing other : Mark

abbrev pub mark : Char → Mark
mark c =
    if nat_eq (code c) b'"'
    then quote
    else if nat_eq (code c) b'\\'
    then backslash
    else if nat_eq (code c) b'['
    then opening
    else if nat_eq (code c) b']'
    then closing
    else other

-- `inString`, and the character that `i++` passes over.
pub data Mode : Type 0 where
  outside in_string skipped : Mode

-- The loop of `findBalancedArrayEnd` from `i` on; `depth` is `opened - closed`.
unfoldable pub scan : List Char → Mode → (i opened closed : ℕ) → Option ℕ
scan [] m i o c = none
scan (x ∷ xs) skipped i o c = scan xs in_string (suc i) o c
scan (x ∷ xs) in_string i o c = elim (mark x) [
  | backslash ↦ scan xs skipped (suc i) o c
  | quote ↦ scan xs outside (suc i) o c
  | _ ↦ scan xs in_string (suc i) o c
]
scan (x ∷ xs) outside i o c = elim (mark x) [
  | quote ↦ scan xs in_string (suc i) o c
  | opening ↦ scan xs outside (suc i) (suc o) c
  | closing ↦ elim (nat_eq o (suc c)) [ true ↦ some i | false ↦ scan xs outside (suc i) o (suc c) ]
  | _ ↦ scan xs outside (suc i) o c
]

-- `findBalancedArrayEnd`
unfoldable pub find_balanced_array_end : List Char → ℕ → Option ℕ
find_balanced_array_end text start = scan (drop start text) outside start 0 0

-- `text.slice(start, end)`
abbrev pub slice : List Char → ℕ → ℕ → List Char
slice text start end = take (end - start) (drop start text)

-- `parse` is `JSON.parse`, where `none` is a throw; `array` is what `Array.isArray` accepts.
module _ {Json Items : Type 0} (parse : List Char → Option Json) (array : Json → Option Items) where
  abbrev pub array_of : List Char → Option Items
  array_of candidate = elim (parse candidate) [ none ↦ none | some parsed ↦ array parsed ]

  abbrev pub candidate_at : List Char → ℕ → Option ℕ → Option Items
  candidate_at text i none = none
  candidate_at text i (some end) = array_of (slice text i (suc end))

  abbrev pub or_else : Option Items → Option Items → Option Items
  or_else (some items) later = some items
  or_else none later = later

  -- The loop of `extractJsonArray` from `i` on, where `rest` is what `text` has from there.
  unfoldable pub extract_from : List Char → List Char → ℕ → Option Items
  extract_from text [] i = none
  extract_from text (x ∷ rest) i = elim (mark x) [
    | opening ↦
        or_else (candidate_at text i (find_balanced_array_end text i))
          (extract_from text rest (suc i))
    | _ ↦ extract_from text rest (suc i)
  ]

  -- `extractJsonArray`
  unfoldable pub extract_json_array : List Char → Option Items
  extract_json_array text = extract_from text text 0
