-- ===== src/Common/Dict.antt =====
-- Association lists with text keys: at most one value is seen for a key.
use Prim.Native.String.{String}
use mathlib.Core.Path.{◌≡◌}
use mathlib.Core.Option.{Option, none, some}
use mathlib.Core.List.{List, [], ◌∷◌}
use native.Mathlib.Omega.{arith}
use text.Mathlib.Text.{◌==◌}
use text.Mathlib.TextEquality.{eq_iff}
use autodev_harness.Common.Tests.{if◌then◌else◌}
use autodev_harness.Common.Lists.{All}

module _ {ℓ} {V : Type ℓ} where
  abbrev pub lookup : String → List (String × V) → Option V
  lookup k [] = none
  lookup k ((j, v) ∷ m) = if j == k then some v else lookup k m

  abbrev pub remove : String → List (String × V) → List (String × V)
  remove k [] = []
  remove k ((j, v) ∷ m) = if j == k then remove k m else (j, v) ∷ remove k m

  abbrev pub put : String → V → List (String × V) → List (String × V)
  put k v m = (k, v) ∷ remove k m

  pub lookup-remove :
      (k j : String) (m : List (String × V))
      → lookup j (remove k m) ≡ (if k == j then none else lookup j m)
  lookup-remove k j [] = ground arith
  lookup-remove k j ((i, w) ∷ m) =
      ground (arith, eq_iff k j, eq_iff i k, eq_iff i j, lookup-remove k j m)

  pub lookup-put :
      (k j : String) (v : V) (m : List (String × V))
      → lookup j (put k v m) ≡ (if k == j then some v else lookup j m)
  lookup-put k j v m = ground (arith, lookup-remove k j m)

  -- What holds of every entry holds of what is looked up.
  pub lookup-All {κ} :
      (P : String → V → Type κ) (k : String) {v : V} (m : List (String × V))
      → All (λ e. P e.0 e.1) m
      → lookup k m ≡ some v
      → P k v
  lookup-All P k [] h e = cc
  lookup-All P k {v} ((j, w) ∷ m) (p, h) e = ground (arith, eq_iff j k, lookup-All P k {v = v} m h)
