-- ===== src/Chat/Totals.antt =====
-- Sums over the entries of a dictionary.
use autodev_harness.Common.{ℕ, ◌+◌, String, none, some, List, [], ◌∷◌, ◌≡◌, refl, lookup, arith}
use autodev_harness.Chat.{delete_key, set_key, change_key}

module _ {V : Type 0} (g : V → ℕ) where
  abbrev pub total : List (String × V) → ℕ
  total [] = 0
  total ((k, v) ∷ m) = g v + total m

  pub total-delete_key :
      (k : String) (v : V) (m : List (String × V))
      → lookup k m ≡ some v
      → total m ≡ total (delete_key k m) + g v
  total-delete_key k v [] h = cc
  total-delete_key k v ((j, w) ∷ m) h = ground (arith, total-delete_key k v m)

  pub total-set_key :
      (k : String) (v : V) (m : List (String × V))
      → lookup k m ≡ none
      → total (set_key k v m) ≡ total m + g v
  total-set_key k v [] h = omega arith
  total-set_key k v ((j, w) ∷ m) h = ground (arith, total-set_key k v m)

  pub total-change_key :
      (k : String) (f : V → V) (m : List (String × V))
      → ((v : V) → g (f v) ≡ g v)
      → total (change_key k f m) ≡ total m
  total-change_key k f [] h = refl
  total-change_key k f ((j, w) ∷ m) h = ground (arith, total-change_key k f m h, h w)
