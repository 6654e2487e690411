-- ===== src/Tests/Projects.antt =====
-- A registry of one project, and a second of the same name.
use autodev_harness.Common.{
  ℕ, zero, suc, String, ◌≢◌, Option, none, some, List, [], ◌∷◌, ◌≡◌, refl, arith, IsDistinct, ap,
}
use autodev_harness.Util.Fallible.{Result, ok}
use autodev_harness.Registry.{
  RegistryEntry, Registry, ids, valid_id, load_registry, load_from, slug_for_name, base_slug,
  next_free, add_project, is_path_registered, rename_project,
}
use autodev_harness.Registry.Slugs.{slug_for_name_ends}
use autodev_harness.Registry.Laws.{IsRegistry, AreValid, load_registry-IsDistinct}

abbrev same_text : String → String
same_text s = s

-- A numeral of strokes.
abbrev strokes : ℕ → String
strokes zero = ""
strokes (suc n) = String.◌∷◌ "1" (strokes n)

abbrev app : RegistryEntry
app = record { id = "app"; name = "App"; path = "/srv/app" }

abbrev second : RegistryEntry
second = record { id = "app-11"; name = "app"; path = "/home/app" }

abbrev one : Registry
one = app ∷ []

added :
    add_project same_text strokes same_text same_text 3 one "/home/app" (some "app")
    ≡ ok (app ∷ second ∷ [], second)
unfolding add_project is_path_registered slug_for_name base_slug next_free
added = refl

one-IsRegistry : IsRegistry same_text one
one-IsRegistry = ((refl, tt), (refl, tt))

abbrev parsed : String → Result (List (Option RegistryEntry))
parsed text =
    ok (
      some app
      ∷ none
      ∷ some (record app { name = "again" })
      ∷ some (record app { id = "a/b" })
      ∷ [])

loaded : load_registry (ok "{}") parsed ≡ one
unfolding load_registry load_from valid_id
loaded = refl

load_registry-IsDistinct_example :
    IsDistinct (ids (load_registry (ok "{}") parsed)) × AreValid (load_registry (ok "{}") parsed)
load_registry-IsDistinct_example = load_registry-IsDistinct (ok "{}") parsed

abbrev shop : RegistryEntry
shop = record app { name = "Shop" }

renamed : rename_project one "app" "Shop" ≡ some (shop ∷ [], shop)
unfolding rename_project
renamed = refl

strokes_length : String → ℕ
strokes_length String.[] = 0
strokes_length (String.◌∷◌ c s) = suc (strokes_length s)

strokes_length-strokes : (n : ℕ) → strokes_length (strokes n) ≡ n
unfolding strokes_length
strokes_length-strokes zero = refl
strokes_length-strokes (suc n) = ap suc (strokes_length-strokes n)

strokes_injective : (n m : ℕ) → strokes n ≡ strokes m → n ≡ m
strokes_injective n m e = cc (strokes_length-strokes n, strokes_length-strokes m, e)

slug_for_name_ends_example : slug_for_name same_text strokes 3 "App" (ids one) ≢ none
slug_for_name_ends_example =
    slug_for_name_ends same_text strokes strokes_injective 3 "App" (ids one) (omega arith)
