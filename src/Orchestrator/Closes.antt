-- ===== src/Orchestrator/Closes.antt =====
-- What a scan that answers has read.
use mathlib.Core.List.{append_assoc}
use mathlib.Core.Path.{subst}
use autodev_harness.Common.{
  ℕ, suc, ◌+◌, Char, some, List, ◌∷◌, ◌++◌, ◌≡◌, ◌≢◌, arith, length, length-append,
}
use autodev_harness.Orchestrator.{quote, opening, closing, mark}
use autodev_harness.Orchestrator.Brackets.{Literal, Balanced}

-- The first `k` characters of a text close `n` brackets that were open before.
pub data Closes : ℕ → List Char → ℕ → Type 0 where
  all_closed : (t : List Char) → Closes 0 t 0
  level :
      (n : ℕ) (s : List Char) (e : Char) (t : List Char) (k j : ℕ)
      → Balanced s
      → mark e ≡ closing
      → Closes n t k
      → j ≡ length s + suc k
      → Closes (suc n) (s ++ e ∷ t) j

pub some_injective : {A : Type 0} {x y : A} → some x ≡ some y → x ≡ y
some_injective e = cc

pub Closes-character :
    (x : Char) (n : ℕ) (t : List Char) (k : ℕ)
    → mark x ≢ quote
    → mark x ≢ opening
    → mark x ≢ closing
    → Closes (suc n) t k
    → Closes (suc n) (x ∷ t) (suc k)
Closes-character x n _ _ a b c (level _ s e t k j p m q l) =
    level n (x ∷ s) e t k (suc j) (Balanced.character x s a b c p) m q (omega arith)

pub Closes-Literal :
    (x : Char) (n : ℕ) (l t : List Char) (k i : ℕ)
    → mark x ≡ quote
    → Literal l
    → Closes (suc n) t k
    → i ≡ suc (length l + k)
    → Closes (suc n) (x ∷ l ++ t) i
Closes-Literal x n lit _ _ i a w (level _ s e t k j p m q l) h =
    subst (λ u. Closes (suc n) (x ∷ u) i) (append_assoc lit s (e ∷ t))
      (level n (x ∷ lit ++ s) e t k i (Balanced.literal x lit s a w p) m q
        (let n = length-append lit s in omega arith))

pub Closes-array :
    (x : Char) (n : ℕ) (t : List Char) (k : ℕ)
    → mark x ≡ opening
    → Closes (suc (suc n)) t k
    → Closes (suc n) (x ∷ t) (suc k)
Closes-array x n _ _ a (level _ s e _ _ j p m (level _ u f t k i q o r h) l) =
    subst (λ v. Closes (suc n) (x ∷ v) (suc j)) (append_assoc s (e ∷ u) (f ∷ t))
      (level n (x ∷ s ++ e ∷ u) f t k (suc j) (Balanced.array x e s u a m p q) o r
        (let n = length-append s (e ∷ u) in omega arith))
