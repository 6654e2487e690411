-- ===== src/Gate/Findings/Candidates.antt =====
-- The distinct paths that pass a test: membership, and when there is one.
use mathlib.Core.List.{Memᴰ}
use autodev_harness.Common.{
  ℕ, String, Bool, true, false, List, [], ◌∷◌, ◌==◌, ◌≡◌, ◌⊎◌, ◌↔◌, inl, inr, refl, sym, ap, ◌∙◌,
  arith, eq_iff, nat_eq, elem, filter, Bool-cases,
}
use autodev_harness.Gate.Zones.{unique_from}

pub on_and_off : {b : Bool} → b ≡ true → b ≡ false → ⊥
on_and_off on off = cc

pub off_of_not : (b : Bool) → ¬ (b ≡ true) → b ≡ false
off_of_not true n = absurd (n refl)
off_of_not false n = refl

pub nat_eq_iff : (a b : ℕ) → (nat_eq a b ≡ true) ↔ (a ≡ b)
nat_eq_iff a b = (λ h. ground arith, λ h. ground arith)

elem_new :
    (x k : String) (seen : List String)
    → (x == k) ≡ false
    → elem k seen ≡ false
    → elem k (x ∷ seen) ≡ false
elem_new x k seen other new = ground arith

elem_old : (x k : String) (seen : List String) → elem k (x ∷ seen) ≡ false → elem k seen ≡ false
elem_old x k seen new = ground arith

elem_first : (x k : String) (seen : List String) → x ≡ k → elem k (x ∷ seen) ≡ true
elem_first x k seen e = let same : (x == k) ≡ true = (eq_iff x k).1 e in ground arith

behind_other : (x k : String) (xs : List String) → (x == k) ≡ false → Memᴰ k (x ∷ xs) → Memᴰ k xs
behind_other x k xs other (Memᴰ.head e) = absurd (on_and_off ((eq_iff x k).1 (sym e)) other)
behind_other x k xs other (Memᴰ.tail m) = m

-- The distinct paths that pass a test, and have not been seen.
module _ (q : String → Bool) where
  pub Memᴰ-unique :
      (k : String) (seen xs : List String)
      → Memᴰ k xs
      → elem k seen ≡ false
      → q k ≡ true
      → Memᴰ k (filter q (unique_from seen xs))
  unfolding unique_from
  Memᴰ-unique k seen [] m new on = elim m [ ]
  Memᴰ-unique k seen (x ∷ xs) m new on = elim (Bool-cases (x == k)) [
    | inl same ↦
        let e : x ≡ k = (eq_iff x k).0 same in
        let fresh : elem x seen ≡ false = ap (λ y. elem y seen) e ∙ new in
        let passes : q x ≡ true = ap q e ∙ on in rw (fresh, passes) (Memᴰ.head (sym e))
    | inr other ↦
        let later = behind_other x k xs other m in
        elim (Bool-cases (elem x seen)) [
          | inl old ↦ rw old (Memᴰ-unique k seen xs later new on)
          | inr fresh ↦
              let n = Memᴰ-unique k (x ∷ seen) xs later (elem_new x k seen other new) on in
              elim (Bool-cases (q x)) [
                | inl passes ↦ rw (fresh, passes) (Memᴰ.tail n)
                | inr fails ↦ rw (fresh, fails) n
              ]
        ]
  ]

  first_or_later :
      (k x : String) (us : List String) {xs : List String}
      → Memᴰ k (x ∷ us)
      → q x ≡ true
      → (Memᴰ k us → Memᴰ k xs × (q k ≡ true))
      → Memᴰ k (x ∷ xs) × (q k ≡ true)
  first_or_later k x us (Memᴰ.head e) on h = (Memᴰ.head e, ap q e ∙ on)
  first_or_later k x us (Memᴰ.tail m) on h = let (n, passes) = h m in (Memᴰ.tail n, passes)

  pub Memᴰ-of_unique :
      (k : String) (seen xs : List String)
      → Memᴰ k (filter q (unique_from seen xs))
      → Memᴰ k xs × (q k ≡ true)
  unfolding unique_from
  Memᴰ-of_unique k seen [] m = elim m [ ]
  Memᴰ-of_unique k seen (x ∷ xs) m = elim (Bool-cases (elem x seen)) [
    | inl old ↦ let (n, on) = Memᴰ-of_unique k seen xs (rw old at m) in (Memᴰ.tail n, on)
    | inr fresh ↦ elim (Bool-cases (q x)) [
      | inl passes ↦
          first_or_later k x _ (rw (fresh, passes) at m) passes (Memᴰ-of_unique k (x ∷ seen) xs)
      | inr fails ↦
          let (n, on) = Memᴰ-of_unique k (x ∷ seen) xs (rw (fresh, fails) at m) in (Memᴰ.tail n, on)
    ]
  ]

  unique-nil :
      (seen xs : List String)
      → ((k : String) → Memᴰ k xs → elem k seen ≡ false → q k ≡ true → ⊥)
      → filter q (unique_from seen xs) ≡ []
  unfolding unique_from
  unique-nil seen [] h = refl
  unique-nil seen (x ∷ xs) h = elim (Bool-cases (elem x seen)) [
    | inl old ↦ rw old (unique-nil seen xs (λ k m. h k (Memᴰ.tail m)))
    | inr fresh ↦ elim (Bool-cases (q x)) [
      | inl passes ↦ absurd (h x (Memᴰ.head refl) fresh passes)
      | inr fails ↦
          rw (fresh, fails)
            (unique-nil (x ∷ seen) xs (λ k m n. h k (Memᴰ.tail m) (elem_old x k seen n)))
    ]
  ]

  pub unique-one :
      (key : String) (seen xs : List String)
      → ((k : String) → Memᴰ k xs → q k ≡ true → k ≡ key)
      → (filter q (unique_from seen xs) ≡ []) ⊎ (filter q (unique_from seen xs) ≡ key ∷ [])
  unfolding unique_from
  unique-one key seen [] h = inl refl
  unique-one key seen (x ∷ xs) h = elim (Bool-cases (elem x seen)) [
    | inl old ↦ rw old (unique-one key seen xs (λ k m. h k (Memᴰ.tail m)))
    | inr fresh ↦ elim (Bool-cases (q x)) [
      | inl passes ↦
          let is_key : x ≡ key = h x (Memᴰ.head refl) passes in
          let none_left : filter q (unique_from (x ∷ seen) xs) ≡ [] =
            unique-nil (x ∷ seen) xs (λ k m n on.
              on_and_off (elem_first x k seen (is_key ∙ sym (h k (Memᴰ.tail m) on))) n) in
          inr (rw (fresh, passes, none_left) (ap (λ y. y ∷ []) is_key))
      | inr fails ↦ rw (fresh, fails) (unique-one key (x ∷ seen) xs (λ k m. h k (Memᴰ.tail m)))
    ]
  ]
