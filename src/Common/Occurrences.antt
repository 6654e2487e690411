-- ===== src/Common/Occurrences.antt =====
-- Texts in lists: how often, and at most once.
use Prim.Native.Nat.{ℕ, suc, ◌≤◌}
use Prim.Native.String.{String}
use mathlib.Core.Path.{◌≡◌, refl, sym, ap, ◌∙◌}
use mathlib.Core.Logic.{inl, inr}
use mathlib.Core.Bool.{true, false, ◌||◌}
use mathlib.Core.List.{List, [], ◌∷◌, ◌++◌}
use native.Mathlib.Omega.{arith}
use text.Mathlib.Text.{◌==◌}
use text.Mathlib.TextEquality.{eq_iff}
use text.Mathlib.TextPositions.{eq_refl}
use autodev_harness.Common.Tests.{if◌then◌else◌, Bool-cases}
use autodev_harness.Common.Lists.{elem, All, length}

-- How often a text is in a list.
abbrev pub occurrences : String → List String → ℕ
occurrences k [] = 0
occurrences k (x ∷ xs) = let rest = occurrences k xs in if x == k then suc rest else rest

-- No text is in the list twice.
abbrev pub IsDistinct : List String → Type 0
IsDistinct [] = Unit
IsDistinct (x ∷ xs) = (elem x xs ≡ false) × IsDistinct xs

pub in_tail : (id x : String) (ids : List String) → elem id ids ≡ true → elem id (x ∷ ids) ≡ true
in_tail id x ids h = ground arith

pub in_head : (x : String) (ids : List String) → elem x (x ∷ ids) ≡ true
in_head x ids = ground (arith, eq_refl x)

pub apart :
    (x id : String) (ids : List String)
    → elem x ids ≡ false
    → elem id ids ≡ true
    → (x == id) ≡ false
apart x id ids n i = elim (Bool-cases (x == id)) [
  | inl e ↦
      let clash : true ≡ false = sym i ∙ ap (λ k. elem k ids) (sym ((eq_iff x id).0 e)) ∙ n in cc
  | inr e ↦ e
]

-- A list without the first occurrence of a text.
abbrev without : String → List String → List String
without x [] = []
without x (y ∷ ys) = let rest = y ∷ without x ys in if y == x then ys else rest

length-without :
    (x : String) (ys : List String) → elem x ys ≡ true → suc (length (without x ys)) ≡ length ys
length-without x [] h = cc
length-without x (y ∷ ys) h = ground (arith, length-without x ys)

elem-without :
    (x z : String) (ys : List String)
    → (x == z) ≡ false
    → elem z ys ≡ true
    → elem z (without x ys) ≡ true
elem-without x z [] n h = cc
elem-without x z (y ∷ ys) n h =
    ground (arith, elem-without x z ys n, eq_iff y x, eq_iff y z, eq_iff x z)

All-without :
    (x : String) (xs ys : List String)
    → elem x xs ≡ false
    → All (λ z. elem z ys ≡ true) xs
    → All (λ z. elem z (without x ys) ≡ true) xs
All-without x [] ys n h = tt
All-without x (z ∷ xs) ys n (p, h) = (
  elem-without x z ys (ground (arith, eq_iff z x, eq_iff x z)) p,
  All-without x xs ys (ground arith) h,
)

-- Distinct texts of a list are not more than its texts.
pub length-IsDistinct :
    (xs ys : List String) → IsDistinct xs → All (λ z. elem z ys ≡ true) xs → length xs ≤ length ys
length-IsDistinct [] ys d h = omega arith
length-IsDistinct (x ∷ xs) ys (n, d) (p, h) =
    let fewer = length-IsDistinct xs (without x ys) d (All-without x xs ys n h) in
    let size = length-without x ys p in omega arith

pub elem-append : (k : String) (xs ys : List String) → elem k (xs ++ ys) ≡ (elem k xs || elem k ys)
elem-append k [] ys = refl
elem-append k (x ∷ xs) ys = ground (arith, elem-append k xs ys)

pub IsDistinct-append :
    (xs : List String) (y : String) → IsDistinct xs → elem y xs ≡ false → IsDistinct (xs ++ y ∷ [])
IsDistinct-append [] y d n = (refl, tt)
IsDistinct-append (x ∷ xs) y (m, d) n = (
  ground (arith, elem-append x xs (y ∷ []), eq_iff x y, eq_iff y x),
  IsDistinct-append xs y d (ground arith),
)
