-- ===== src/Gate/Guards.antt =====
-- src/gate/guards.ts: the guard table and the selection of a guard.
pub mod Table
pub mod Cells
pub mod RoundTrip
pub mod Oracle
pub mod Load
pub mod Loads
use autodev_harness.Common.{
  String, Bool, false, not, ◌&&◌, Option, none, some, List, [], ◌∷◌, ◌==◌, if◌then◌else◌,
}

pub record GuardRow : Type 0 where
  pub contract_id : String
  pub contract_value : String
  pub guard_test : String
  pub recipe : String
  pub mutation_verified : String
  pub blessed_by : String
  pub date : String

pub record GuardRecipe : Type 0 where
  pub zone_id : Option String
  pub contract_id : Option String
  pub file : Option String
  pub locator : Option String
  pub canonical_value : Option String
  pub mutated_value : Option String
  pub guard_test : Option String

pub record GuardRecipePair : Type 0 where
  pub guard : GuardRow
  pub recipe : GuardRecipe

-- `isBlessed`
unfoldable pub is_blessed : GuardRow → Bool
is_blessed g = not (g.blessed_by == "pending-operator") && not (g.blessed_by == "")

-- `field === value`, false where the field is absent.
abbrev pub field_is : Option String → String → Bool
field_is none v = false
field_is (some s) v = s == v

-- `selectGuardForValue`
unfoldable pub select_guard_for_value : List GuardRecipePair → String → Option GuardRow
select_guard_for_value [] value = none
select_guard_for_value (p ∷ ps) value =
    if field_is p.recipe.canonical_value value
    then some p.guard
    else select_guard_for_value ps value

-- `selectGuardForZone`
unfoldable pub select_guard_for_zone : List GuardRecipePair → String → Option GuardRow
select_guard_for_zone [] zone_id = none
select_guard_for_zone (p ∷ ps) zone_id =
    if field_is p.recipe.zone_id zone_id then some p.guard else select_guard_for_zone ps zone_id
