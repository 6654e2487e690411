-- ===== src/Registry.antt =====
-- src/registry/registry.ts: the projects that are registered, their ids and their paths.
pub mod Slugs
pub mod Laws
use Prim.Native.String
use autodev_harness.Common.{
  ℕ, zero, suc, Char, code, String, Bool, true, false, not, ◌&&◌, ◌||◌, Option, none, some, List,
  [], ◌∷◌, ◌++◌, map, ◌==◌, nat_eq, leb, if◌then◌else◌, any, filter, elem,
}
use autodev_harness.Util.Fallible.{Result, ok, err, thrown}

pub record RegistryEntry : Type 0 where
  pub id : String
  pub name : String
  pub path : String

-- `Registry` is its list `projects`.
abbrev pub Registry : Type 0
Registry = List RegistryEntry

abbrev pub ids : Registry → List String
ids projects = map (λ p. p.id) projects

abbrev is_digit : Char → Bool
is_digit c = leb b'0' (code c) && leb (code c) b'9'

abbrev is_lower : Char → Bool
is_lower c = leb b'a' (code c) && leb (code c) b'z'

abbrev is_upper : Char → Bool
is_upper c = leb b'A' (code c) && leb (code c) b'Z'

abbrev is_id_char : Char → Bool
is_id_char c =
    is_lower c || is_upper c || is_digit c || nat_eq (code c) b'_' || nat_eq (code c) b'-'

all_id_chars : String → Bool
all_id_chars String.[] = true
all_id_chars (String.◌∷◌ c s) = is_id_char c && all_id_chars s

-- `VALID_ID.test(id)`
unfoldable pub valid_id : String → Bool
unfolding all_id_chars
valid_id id = not (id == "") && all_id_chars id

-- The loop of `loadRegistry`: `none` is what is no entry.
unfoldable pub load_from : List String → List (Option RegistryEntry) → Registry
load_from seen [] = []
load_from seen (none ∷ raw) = load_from seen raw
load_from seen (some e ∷ raw) =
    let dropped = load_from seen raw in
    let kept = e ∷ load_from (e.id ∷ seen) raw in
    if not (valid_id e.id) || elem e.id seen then dropped else kept

-- A text that does not parse is an empty registry.
abbrev pub load_parsed : Result (List (Option RegistryEntry)) → Registry
load_parsed (err e) = []
load_parsed (ok raw) = load_from [] raw

-- `loadRegistry`, on what the read and the parse answer.
unfoldable pub load_registry :
    Result String → (String → Result (List (Option RegistryEntry))) → Registry
load_registry (err e) parse = []
load_registry (ok text) parse = load_parsed (parse text)

-- Runs of other characters become one dash, `dashed` after a run's first character.
slug_chars : Bool → String → String
slug_chars dashed String.[] = String.[]
slug_chars dashed (String.◌∷◌ c s) =
    let plain = String.◌∷◌ c (slug_chars false s) in
    let more = slug_chars true s in
    let dash = String.◌∷◌ "-" (slug_chars true s) in
    if is_lower c || is_digit c then plain else if dashed then more else dash

-- `.replace(/^-+|-+$/g, "")`
strip_dashes : String → String
strip_dashes String.[] = String.[]
strip_dashes (String.◌∷◌ c s) =
    let rest = strip_dashes s in if nat_eq (code c) b'-' then rest else String.◌∷◌ c s

all_dashes : String → Bool
all_dashes String.[] = true
all_dashes (String.◌∷◌ c s) = nat_eq (code c) b'-' && all_dashes s

strip_last_dashes : String → String
unfolding all_dashes
strip_last_dashes String.[] = String.[]
strip_last_dashes (String.◌∷◌ c s) =
    let rest = String.◌∷◌ c (strip_last_dashes s) in
    if all_dashes (String.◌∷◌ c s) then String.[] else rest

abbrev or_project : String → String
or_project s = if s == "" then "project" else s

-- `lower` is `toLowerCase`, `numeral` the text of a number, `path_key` the canonical key of a path,
-- `basename` the last part of a path.
module _ (lower : String → String) (numeral : ℕ → String) where
  unfoldable pub base_slug : String → String
  unfolding slug_chars strip_dashes strip_last_dashes
  base_slug name = or_project (strip_last_dashes (strip_dashes (slug_chars false (lower name))))

  abbrev pub candidate : String → ℕ → String
  candidate base n = String.◌++◌ base (String.◌++◌ "-" (numeral n))

  -- `for (let n = 2; ; n++)`, on fuel.
  unfoldable pub next_free : ℕ → String → ℕ → List String → Option String
  next_free zero base n taken = none
  next_free (suc fuel) base n taken =
      let rest = next_free fuel base (suc n) taken in
      if elem (candidate base n) taken then rest else some (candidate base n)

  -- `slugForName`
  unfoldable pub slug_for_name : ℕ → String → List String → Option String
  slug_for_name fuel name taken =
      let base = base_slug name in
      if elem base taken then next_free fuel base 2 taken else some base

  module _ (path_key basename : String → String) where
    -- `isPathRegistered`
    unfoldable pub is_path_registered : Registry → String → Bool
    is_path_registered projects path = any (λ p. path_key p.path == path_key path) projects

    abbrev pub name_of : String → Option String → String
    name_of path none = basename path
    name_of path (some name) = name

    abbrev pub registered :
        Registry → String → String → Option String → Result (Registry × RegistryEntry)
    registered projects path name none = err (thrown "out of fuel")
    registered projects path name (some id) =
        let entry : RegistryEntry = record { id = id; name = name; path = path } in
        ok (projects ++ entry ∷ [], entry)

    -- `addProject`
    unfoldable pub add_project :
        ℕ → Registry → String → Option String → Result (Registry × RegistryEntry)
    add_project fuel projects path name =
        if is_path_registered projects path
        then err (thrown "path already registered")
        else registered projects path (name_of path name)
            (slug_for_name fuel (name_of path name) (ids projects))

-- `removeProject`
unfoldable pub remove_project : Registry → String → Registry
remove_project projects id = filter (λ p. not (p.id == id)) projects

-- One entry of `renameProject`: it is the one, or the rest has it.
abbrev pub renamed_or :
    Bool
    → RegistryEntry
    → Registry
    → String
    → Option (Registry × RegistryEntry)
    → Option (Registry × RegistryEntry)
renamed_or true p projects name later =
    some (record p { name = name } ∷ projects, record p { name = name })
renamed_or false p projects name none = none
renamed_or false p projects name (some (rest, e)) = some (p ∷ rest, e)

-- `renameProject`; `none` is an unknown id.
unfoldable pub rename_project : Registry → String → String → Option (Registry × RegistryEntry)
rename_project [] id name = none
rename_project (p ∷ projects) id name =
    renamed_or (p.id == id) p projects name (rename_project projects id name)
