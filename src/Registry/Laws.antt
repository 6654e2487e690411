-- ===== src/Registry/Laws.antt =====
-- Ids and paths of a registry are each other's apart, from a load on.
use autodev_harness.Common.{
  in_head, in_tail, apart, ℕ, String, Bool, true, false, not, ◌||◌, Option, none, some, List, [],
  ◌∷◌, ◌++◌, ◌≡◌, refl, arith, elem, any, map, IsDistinct, IsDistinct-append, ◌==◌, eq_iff,
  if◌then◌else◌, sym, ap, ◌∙◌, All,
}
use mathlib.Core.Path.{subst}
use mathlib.Core.List.{map-append}
use autodev_harness.Util.Fallible.{Result, ok, err, thrown}
use autodev_harness.Registry.{
  RegistryEntry, Registry, ids, valid_id, load_from, load_parsed, load_registry, slug_for_name,
  is_path_registered, name_of, registered, add_project, renamed_or, rename_project,
}
use autodev_harness.Registry.Slugs.{some_injective, or_false, slug_for_name-elem}

abbrev pub AreValid : Registry → Type 0
AreValid projects = All (λ p. valid_id p.id ≡ true) projects

-- No id of the list is one of `seen`.
abbrev AreNew : List String → Registry → Type 0
AreNew seen projects = (id : String) → elem id seen ≡ true → elem id (ids projects) ≡ false

abbrev IsLoaded : List String → Registry → Type 0
IsLoaded seen projects = IsDistinct (ids projects) × AreValid projects × AreNew seen projects

load_or :
    (b : Bool) (seen : List String) (e : RegistryEntry) (dropped kept : Registry)
    → (not (valid_id e.id) || elem e.id seen) ≡ b
    → IsLoaded seen dropped
    → IsLoaded (e.id ∷ seen) kept
    → IsLoaded seen (if b then dropped else e ∷ kept)
load_or true seen e dropped kept h d k = d
load_or false seen e dropped kept h d (distinct, valid, new) = (
  (new e.id (in_head e.id seen), distinct),
  (ground arith, valid),
  λ id i. or_false (apart e.id id seen (ground arith) i) (new id (in_tail id e.id seen i)),
)

load_from-IsLoaded :
    (seen : List String) (raw : List (Option RegistryEntry)) → IsLoaded seen (load_from seen raw)
unfolding load_from
load_from-IsLoaded seen [] = (tt, tt, λ id i. refl)
load_from-IsLoaded seen (none ∷ raw) = load_from-IsLoaded seen raw
load_from-IsLoaded seen (some e ∷ raw) =
    load_or (not (valid_id e.id) || elem e.id seen) seen e (load_from seen raw)
      (load_from (e.id ∷ seen) raw) refl (load_from-IsLoaded seen raw)
      (load_from-IsLoaded (e.id ∷ seen) raw)

load_parsed-IsDistinct :
    (r : Result (List (Option RegistryEntry)))
    → IsDistinct (ids (load_parsed r)) × AreValid (load_parsed r)
load_parsed-IsDistinct (err e) = (tt, tt)
load_parsed-IsDistinct (ok raw) =
    let (distinct, valid, _) = load_from-IsLoaded [] raw in (distinct, valid)

-- Whatever the file holds, a loaded registry has only valid ids, each of them once.
pub load_registry-IsDistinct :
    (text : Result String) (parse : String → Result (List (Option RegistryEntry)))
    → IsDistinct (ids (load_registry text parse)) × AreValid (load_registry text parse)
unfolding load_registry
load_registry-IsDistinct (err e) parse = (tt, tt)
load_registry-IsDistinct (ok text) parse = load_parsed-IsDistinct (parse text)

-- A project goes by its id and by the key of its path.
abbrev pub IsRegistry : (String → String) → Registry → Type 0
IsRegistry path_key projects =
    IsDistinct (ids projects) × IsDistinct (map (λ p. path_key p.path) projects)

ok_injective : {A : Type 0} {x y : A} → ok x ≡ ok y → x ≡ y
ok_injective e = cc

any_key :
    (path_key : String → String) (path : String) (projects : Registry)
    → any (λ p. path_key p.path == path_key path) projects
      ≡ elem (path_key path) (map (λ p. path_key p.path) projects)
any_key path_key path [] = refl
any_key path_key path (p ∷ projects) =
    ap (λ b. path_key p.path == path_key path || b) (any_key path_key path projects)

-- A new last entry.
added-IsRegistry :
    (path_key : String → String) (projects : Registry) (e : RegistryEntry)
    → elem e.id (ids projects) ≡ false
    → elem (path_key e.path) (map (λ p. path_key p.path) projects) ≡ false
    → IsRegistry path_key projects
    → IsRegistry path_key (projects ++ e ∷ [])
added-IsRegistry path_key projects e n m (d, k) = (
  subst IsDistinct (sym (map-append (λ p. p.id) projects (e ∷ [])))
      (IsDistinct-append (ids projects) e.id d n),
  subst IsDistinct (sym (map-append (λ p. path_key p.path) projects (e ∷ [])))
      (IsDistinct-append (map (λ p. path_key p.path) projects) (path_key e.path) k m),
)

module _ (lower : String → String) (numeral : ℕ → String)
    (path_key basename : String → String) where
  registered-IsRegistry :
      (projects : Registry) (path name : String) (o : Option String) (after : Registry)
      (e : RegistryEntry)
      → ((id : String) → o ≡ some id → elem id (ids projects) ≡ false)
      → elem (path_key path) (map (λ p. path_key p.path) projects) ≡ false
      → IsRegistry path_key projects
      → registered lower numeral path_key basename projects path name o ≡ ok (after, e)
      → IsRegistry path_key after × (after ≡ projects ++ e ∷ []) × (e.path ≡ path)
  registered-IsRegistry projects path name none after e f n r h = cc
  registered-IsRegistry projects path name (some id) after e f n r h =
      let entry : RegistryEntry = record { id = id; name = name; path = path } in
      let same : (projects ++ entry ∷ [], entry) ≡ (after, e) = ok_injective h in
      subst
        (λ (x : Registry × RegistryEntry).
          IsRegistry path_key x.0 × (x.0 ≡ projects ++ x.1 ∷ []) × (x.1.path ≡ path))
        same (added-IsRegistry path_key projects entry (f id refl) n r, refl, refl)

  refused_or :
      (b : Bool) (o : Option String) (projects : Registry) (path name : String) (after : Registry)
      (e : RegistryEntry)
      → any (λ p. path_key p.path == path_key path) projects ≡ b
      → ((id : String) → o ≡ some id → elem id (ids projects) ≡ false)
      → IsRegistry path_key projects
      → (if b
          then err (thrown "path already registered")
          else registered lower numeral path_key basename projects path name o)
        ≡ ok (after, e)
      → IsRegistry path_key after × (after ≡ projects ++ e ∷ []) × (e.path ≡ path)
  refused_or true o projects path name after e n f r h = cc
  refused_or false o projects path name after e n f r h =
      registered-IsRegistry projects path name o after e f
        (sym (any_key path_key path projects) ∙ n) r h

  -- A project that is added keeps ids and paths apart, and comes last, under the path that was given.
  add_project-IsRegistry :
      (fuel : ℕ) (projects : Registry) (path : String) (name : Option String) (after : Registry)
      (e : RegistryEntry)
      → add_project lower numeral path_key basename fuel projects path name ≡ ok (after, e)
      → IsRegistry path_key projects
      → IsRegistry path_key after × (after ≡ projects ++ e ∷ []) × (e.path ≡ path)
  unfolding add_project is_path_registered
  add_project-IsRegistry fuel projects path name after e h r =
      refused_or (any (λ p. path_key p.path == path_key path) projects)
        (slug_for_name lower numeral fuel (name_of lower numeral path_key basename path name)
          (ids projects))
        projects path (name_of lower numeral path_key basename path name) after e refl
        (slug_for_name-elem lower numeral fuel (name_of lower numeral path_key basename path name)
          (ids projects))
        r h

-- The ids and the paths stay, and the entry has the name.
abbrev IsRenamed : Registry → String → String → Registry × RegistryEntry → Type 0
IsRenamed projects id name (after, e) =
    (ids after ≡ ids projects)
    × (map (λ p. p.path) after ≡ map (λ p. p.path) projects)
    × (e.id ≡ id)
    × (e.name ≡ name)

renamed_or-IsRenamed :
    (b : Bool) (p : RegistryEntry) (projects : Registry) (id name : String)
    (later : Option (Registry × RegistryEntry)) (out : Registry × RegistryEntry)
    → (p.id == id) ≡ b
    → ((o : Registry × RegistryEntry) → later ≡ some o → IsRenamed projects id name o)
    → renamed_or b p projects name later ≡ some out
    → IsRenamed (p ∷ projects) id name out
renamed_or-IsRenamed true p projects id name later out n k h =
    subst (IsRenamed (p ∷ projects) id name) (some_injective h)
      (refl, refl, (eq_iff p.id id).0 n, refl)
renamed_or-IsRenamed false p projects id name none out n k h = cc
renamed_or-IsRenamed false p projects id name (some (rest, e)) out n k h =
    let (same, paths, this, named) = k (rest, e) refl in
    subst (IsRenamed (p ∷ projects) id name) (some_injective h)
      (ap (λ x. p.id ∷ x) same, ap (λ x. p.path ∷ x) paths, this, named)

rename_project-IsRenamed :
    (projects : Registry) (id name : String) (out : Registry × RegistryEntry)
    → rename_project projects id name ≡ some out
    → IsRenamed projects id name out
unfolding rename_project
rename_project-IsRenamed [] id name out h = cc
rename_project-IsRenamed (p ∷ projects) id name out h =
    renamed_or-IsRenamed (p.id == id) p projects id name (rename_project projects id name) out refl
      (rename_project-IsRenamed projects id name) h

-- A rename answers the entry with its new name, and leaves the ids and the paths as they were.
rename_project-ids :
    (projects : Registry) (id name : String) (after : Registry) (e : RegistryEntry)
    → rename_project projects id name ≡ some (after, e)
    → (ids after ≡ ids projects)
      × (map (λ p. p.path) after ≡ map (λ p. p.path) projects)
      × (e.id ≡ id)
      × (e.name ≡ name)
rename_project-ids projects id name after e h =
    rename_project-IsRenamed projects id name (after, e) h
