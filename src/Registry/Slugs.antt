-- ===== src/Registry/Slugs.antt =====
-- A slug is free, and it is found.
use Prim.Native.String
use mathlib.Core.Path.{subst}
use text.Mathlib.TextLemmas.{append_cancel_left}
use autodev_harness.Common.{
  ◌||◌, ℕ, zero, suc, ◌<◌, String, Bool, true, false, Option, none, some, List, [], ◌∷◌, ◌≡◌, ◌≢◌,
  refl, arith, elem, All, IsDistinct, length, length-IsDistinct, ◌==◌, eq_iff, if◌then◌else◌,
  Bool-cases, inl, inr, ap,
}
use autodev_harness.Registry.{candidate, next_free, slug_for_name, base_slug}

pub some_injective : {A : Type 0} {x y : A} → some x ≡ some y → x ≡ y
some_injective e = cc

free_or :
    (b : Bool) (o : Option String) (x id : String) (taken : List String)
    → elem x taken ≡ b
    → (o ≡ some id → elem id taken ≡ false)
    → (if b then o else some x) ≡ some id
    → elem id taken ≡ false
free_or true o x id taken h k e = k e
free_or false o x id taken h k e = subst (λ y. elem y taken ≡ false) (some_injective e) h

pub or_false : {a b : Bool} → a ≡ false → b ≡ false → (a || b) ≡ false
or_false h k = ground arith

none_if :
    (b : Bool) (o : Option String) (x : String)
    → (if b then o else some x) ≡ none
    → (b ≡ true) × (o ≡ none)
none_if true o x e = (refl, e)
none_if false o x e = cc

module _ (lower : String → String) (numeral : ℕ → String) where
  next_free-elem :
      (fuel : ℕ) (base : String) (n : ℕ) (taken : List String) (id : String)
      → next_free lower numeral fuel base n taken ≡ some id
      → elem id taken ≡ false
  unfolding next_free
  next_free-elem zero base n taken id e = cc
  next_free-elem (suc fuel) base n taken id e =
      free_or (elem (candidate lower numeral base n) taken)
        (next_free lower numeral fuel base (suc n) taken) (candidate lower numeral base n) id taken
        refl (next_free-elem fuel base (suc n) taken id) e

  -- A slug that is answered is not taken.
  pub slug_for_name-elem :
      (fuel : ℕ) (name : String) (taken : List String) (id : String)
      → slug_for_name lower numeral fuel name taken ≡ some id
      → elem id taken ≡ false
  unfolding slug_for_name
  slug_for_name-elem fuel name taken id e =
      free_or (elem (base_slug lower numeral name) taken)
        (next_free lower numeral fuel (base_slug lower numeral name) 2 taken)
        (base_slug lower numeral name) id taken refl
        (next_free-elem fuel (base_slug lower numeral name) 2 taken id) e

  candidates : ℕ → String → ℕ → List String
  candidates zero base n = []
  candidates (suc fuel) base n = candidate lower numeral base n ∷ candidates fuel base (suc n)

  length-candidates : (fuel : ℕ) (base : String) (n : ℕ) → length (candidates fuel base n) ≡ fuel
  unfolding candidates
  length-candidates zero base n = refl
  length-candidates (suc fuel) base n = ap suc (length-candidates fuel base (suc n))

  next_free-none :
      (fuel : ℕ) (base : String) (n : ℕ) (taken : List String)
      → next_free lower numeral fuel base n taken ≡ none
      → All (λ z. elem z taken ≡ true) (candidates fuel base n)
  unfolding next_free candidates
  next_free-none zero base n taken e = tt
  next_free-none (suc fuel) base n taken e =
      let (here, later) =
        none_if (elem (candidate lower numeral base n) taken)
          (next_free lower numeral fuel base (suc n) taken) (candidate lower numeral base n) e in
      (here, next_free-none fuel base (suc n) taken later)

  module _ (injective : (n m : ℕ) → numeral n ≡ numeral m → n ≡ m) where
    apart :
        (base : String) (n m : ℕ)
        → n < m
        → (candidate lower numeral base m == candidate lower numeral base n) ≡ false
    apart base n m l =
        elim (Bool-cases (candidate lower numeral base m == candidate lower numeral base n)) [
          | inl e ↦
              let same =
                (eq_iff (candidate lower numeral base m) (candidate lower numeral base n)).0 e in
              let number = injective m n (
                append_cancel_left "-" (numeral m) (numeral n) (
                  append_cancel_left base (String.◌++◌ "-" (numeral m))
                    (String.◌++◌ "-" (numeral n)) same)) in
              absurd (omega arith)
          | inr e ↦ e
        ]

    elem-candidates :
        (fuel : ℕ) (base : String) (n m : ℕ)
        → n < m
        → elem (candidate lower numeral base n) (candidates fuel base m) ≡ false
    unfolding candidates
    elem-candidates zero base n m l = refl
    elem-candidates (suc fuel) base n m l =
        or_false (apart base n m l) (elem-candidates fuel base n (suc m) (omega arith))

    candidates-IsDistinct : (fuel : ℕ) (base : String) (n : ℕ) → IsDistinct (candidates fuel base n)
    unfolding candidates
    candidates-IsDistinct zero base n = tt
    candidates-IsDistinct (suc fuel) base n =
        (elem-candidates fuel base n (suc n) (omega arith), candidates-IsDistinct fuel base (suc n))

    -- If no two numbers have the same text, then on more fuel than there are taken ids the search for a
    -- slug ends: `slugForName` answers.
    pub slug_for_name_ends :
        (fuel : ℕ) (name : String) (taken : List String)
        → length taken < fuel
        → slug_for_name lower numeral fuel name taken ≢ none
    unfolding slug_for_name
    slug_for_name_ends fuel name taken l e =
        let base = base_slug lower numeral name in
        let (_, search) =
          none_if (elem base taken) (next_free lower numeral fuel base 2 taken) base e in
        let many =
          length-IsDistinct (candidates fuel base 2) taken (candidates-IsDistinct fuel base 2)
            (next_free-none fuel base 2 taken search) in
        let size = length-candidates fuel base 2 in absurd (omega arith)
