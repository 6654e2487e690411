-- ===== src/Common/Lists.antt =====
-- Lists under Boolean tests, and predicates on them by recursion.
use native.Mathlib.Omega.{arith}
use Prim.Native.Nat.{ℕ, zero, suc, ◌+◌, ◌-◌, ◌≤◌}
use mathlib.Core.Path.{◌≡◌, refl, ap, sym, subst, ◌∙◌}
use mathlib.Core.Logic.{◌⊎◌, inl, inr}
use mathlib.Core.Bool.{Bool, true, false, ◌&&◌, ◌||◌, and-eq-true_iff}
use mathlib.Core.List.{List, [], ◌∷◌, ◌++◌, map, Memᴰ}
use Prim.Native.String.{String}
use text.Mathlib.Text.{◌==◌}
use autodev_harness.Common.Tests.{if◌then◌else◌}

module _ {ℓ} {A : Type ℓ} where
  abbrev pub length : List A → ℕ
  length [] = 0
  length (_ ∷ xs) = suc (length xs)

  abbrev pub is_nil : List A → Bool
  is_nil [] = true
  is_nil (_ ∷ _) = false

  -- `xs.every(p)` and `xs.some(p)`.
  abbrev pub every : (A → Bool) → List A → Bool
  every p [] = true
  every p (x ∷ xs) = p x && every p xs

  abbrev pub any : (A → Bool) → List A → Bool
  any p [] = false
  any p (x ∷ xs) = p x || any p xs

  abbrev pub filter : (A → Bool) → List A → List A
  filter p [] = []
  filter p (x ∷ xs) = let rest = filter p xs in if p x then x ∷ rest else rest

module _ {ℓ κ} {A : Type ℓ} (P : A → Type κ) where
  abbrev pub All : List A → Type κ
  All [] = Unit
  All (x ∷ xs) = P x × All xs

  pub All-append : (xs ys : List A) → All xs → All ys → All (xs ++ ys)
  All-append [] ys hx hy = hy
  All-append (x ∷ xs) ys (p, hx) hy = (p, All-append xs ys hx hy)

  pub All-left : (xs ys : List A) → All (xs ++ ys) → All xs
  All-left [] ys h = tt
  All-left (x ∷ xs) ys (p, h) = (p, All-left xs ys h)

  pub All-right : (xs ys : List A) → All (xs ++ ys) → All ys
  All-right [] ys h = h
  All-right (x ∷ xs) ys (p, h) = All-right xs ys h

-- `every` decides `All`.
pub every→All {ℓ} :
    {A : Type ℓ} (p : A → Bool) (xs : List A) → every p xs ≡ true → All (λ x. p x ≡ true) xs
every→All p [] h = tt
every→All p (x ∷ xs) h =
    let (here, later) = (and-eq-true_iff _ _).0 h in (here, every→All p xs later)

-- `xs.includes(k)` on texts.
abbrev pub elem : String → List String → Bool
elem k xs = any (λ x. x == k) xs

pub map-All {ℓ κ μ} :
    {A : Type ℓ} {B : Type κ} (P : B → Type μ) (f : A → B) (xs : List A)
    → All (λ x. P (f x)) xs
    → All P (map f xs)
map-All P f [] h = tt
map-All P f (x ∷ xs) (p, h) = (p, map-All P f xs h)

pub All-map {ℓ κ μ} :
    {A : Type ℓ} {B : Type κ} (P : B → Type μ) (f : A → B) (xs : List A)
    → All P (map f xs)
    → All (λ x. P (f x)) xs
All-map P f [] h = tt
All-map P f (x ∷ xs) (p, h) = (p, All-map P f xs h)

pub All-imp {ℓ κ μ} :
    {A : Type ℓ} (P : A → Type κ) (Q : A → Type μ) (xs : List A)
    → ((x : A) → P x → Q x)
    → All P xs
    → All Q xs
All-imp P Q [] f h = tt
All-imp P Q (x ∷ xs) f (p, h) = (f x p, All-imp P Q xs f h)

pub Memᴰ-All {ℓ κ} :
    {A : Type ℓ} (P : A → Type κ) {x : A} {xs : List A} → Memᴰ x xs → All P xs → P x
Memᴰ-All P (Memᴰ.head e) (p, h) = subst P (sym e) p
Memᴰ-All P (Memᴰ.tail m) (p, h) = Memᴰ-All P m h

module _ {ℓ} {A : Type ℓ} where
  abbrev pub take : ℕ → List A → List A
  take zero xs = []
  take (suc n) [] = []
  take (suc n) (x ∷ xs) = x ∷ take n xs

  abbrev pub drop : ℕ → List A → List A
  drop zero xs = xs
  drop (suc n) [] = []
  drop (suc n) (x ∷ xs) = drop n xs

  pub length-append : (xs ys : List A) → length (xs ++ ys) ≡ length xs + length ys
  length-append [] ys = omega arith
  length-append (x ∷ xs) ys = let h = length-append xs ys in omega arith

  pub take-append : (n : ℕ) (xs ys : List A) → n ≡ length xs → take n (xs ++ ys) ≡ xs
  take-append zero [] ys e = refl
  take-append zero (x ∷ xs) ys e = absurd (omega arith)
  take-append (suc n) [] ys e = absurd (omega arith)
  take-append (suc n) (x ∷ xs) ys e = ap (λ t. x ∷ t) (take-append n xs ys (omega arith))

  pub take-drop : (n : ℕ) (xs : List A) → take n xs ++ drop n xs ≡ xs
  take-drop zero xs = refl
  take-drop (suc n) [] = refl
  take-drop (suc n) (x ∷ xs) = ap (λ t. x ∷ t) (take-drop n xs)

  pub length-take : (n : ℕ) (xs : List A) → n ≤ length xs → length (take n xs) ≡ n
  length-take zero xs h = refl
  length-take (suc n) [] h = absurd (omega arith)
  length-take (suc n) (x ∷ xs) h = let k = length-take n xs (omega arith) in omega arith

  pub length-drop : (n : ℕ) (xs : List A) → length (drop n xs) ≡ length xs - n
  length-drop zero xs = omega arith
  length-drop (suc n) [] = omega arith
  length-drop (suc n) (x ∷ xs) = let k = length-drop n xs in omega arith

-- Membership in an append.
module _ {ℓ} {A : Type ℓ} (e : A) where
  pub Memᴰ-left : (xs ys : List A) → Memᴰ e xs → Memᴰ e (xs ++ ys)
  Memᴰ-left [] ys m = elim m [ ]
  Memᴰ-left (x ∷ xs) ys (Memᴰ.head h) = Memᴰ.head h
  Memᴰ-left (x ∷ xs) ys (Memᴰ.tail m) = Memᴰ.tail (Memᴰ-left xs ys m)

  pub Memᴰ-right : (xs ys : List A) → Memᴰ e ys → Memᴰ e (xs ++ ys)
  Memᴰ-right [] ys m = m
  Memᴰ-right (x ∷ xs) ys m = Memᴰ.tail (Memᴰ-right xs ys m)

  pub Memᴰ-append : (xs ys : List A) → Memᴰ e (xs ++ ys) → Memᴰ e xs ⊎ Memᴰ e ys
  Memᴰ-append [] ys m = inr m
  Memᴰ-append (x ∷ xs) ys (Memᴰ.head h) = inl (Memᴰ.head h)
  Memᴰ-append (x ∷ xs) ys (Memᴰ.tail m) = elim (Memᴰ-append xs ys m) [
    | inl l ↦ inl (Memᴰ.tail l)
    | inr r ↦ inr r
  ]

either_true : (a b : Bool) → (a || b) ≡ true → (a ≡ true) ⊎ (b ≡ true)
either_true true b h = inl refl
either_true false b h = inr h

true_or : (a b : Bool) → a ≡ true → (a || b) ≡ true
true_or a b h = ground arith

or_true : (a b : Bool) → b ≡ true → (a || b) ≡ true
or_true a b h = ground arith

-- `any` decides that some member passes.
module _ {ℓ} {A : Type ℓ} (p : A → Bool) where
  pub any→Memᴰ : (xs : List A) → any p xs ≡ true → (x : A) × Memᴰ x xs × (p x ≡ true)
  any→Memᴰ [] h = cc
  any→Memᴰ (x ∷ xs) h = elim (either_true (p x) (any p xs) h) [
    | inl here ↦ (x, Memᴰ.head refl, here)
    | inr later ↦ let (y, m, q) = any→Memᴰ xs later in (y, Memᴰ.tail m, q)
  ]

  pub Memᴰ→any : (x : A) (xs : List A) → Memᴰ x xs → p x ≡ true → any p xs ≡ true
  Memᴰ→any x [] m h = elim m [ ]
  Memᴰ→any x (y ∷ xs) (Memᴰ.head e) h = true_or (p y) (any p xs) (ap p (sym e) ∙ h)
  Memᴰ→any x (y ∷ xs) (Memᴰ.tail m) h = or_true (p y) (any p xs) (Memᴰ→any x xs m h)
