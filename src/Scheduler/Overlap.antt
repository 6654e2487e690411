-- ===== src/Scheduler/Overlap.antt =====
-- `fileSetsDisjoint` does not depend on the order of its two lists.
use autodev_harness.Common.{
  String, Bool, false, not, ◌||◌, List, [], ◌∷◌, map, ◌≡◌, refl, ap, ◌∙◌, arith, eq_iff, any, elem,
}
use autodev_harness.Util.Glob.{normalize_path}
use autodev_harness.Scheduler.{file_sets_disjoint}

abbrev hits : List String → List String → Bool
hits a b = any (λ p. elem (normalize_path p) (map normalize_path a)) b

hits_nil : (b : List String) → hits [] b ≡ false
hits_nil [] = refl
hits_nil (p ∷ b) = hits_nil b

hits_cons :
    (x : String) (a b : List String)
    → hits (x ∷ a) b ≡ (elem (normalize_path x) (map normalize_path b) || hits a b)
hits_cons x a [] = refl
hits_cons x a (p ∷ b) = ground (
  arith,
  eq_iff (normalize_path x) (normalize_path p),
  eq_iff (normalize_path p) (normalize_path x),
  hits_cons x a b,
)

hits_comm : (a b : List String) → hits a b ≡ hits b a
hits_comm [] b = hits_nil b
hits_comm (x ∷ a) b =
    hits_cons x a b ∙ ap (λ t. elem (normalize_path x) (map normalize_path b) || t) (hits_comm a b)

pub file_sets_disjoint_comm : (a b : List String) → file_sets_disjoint a b ≡ file_sets_disjoint b a
unfolding file_sets_disjoint
file_sets_disjoint_comm a b = ap not (hits_comm a b)
