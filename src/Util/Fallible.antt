-- ===== src/Util/Fallible.antt =====
-- Functions that change a state and may throw: what was changed before a throw stays changed.
use autodev_harness.Common.{
  Bool, true, false, if◌then◌else◌, String, ap, ◌⊎◌, inl, inr, ◌≡◌, refl, arith,
}

-- A throw. The conductor tells the two "unavailable" errors from all others.
pub data Error : Type 0 where
  thrown : String → Error
  agent_ci_unavailable : String → Error
  command_unavailable : String → Error

pub data Result {ℓ} (A : Type ℓ) : Type ℓ where
  ok : A → Result A
  err : Error → Result A

pub Result-cases {ℓ} :
    {A : Type ℓ} (r : Result A) → ((a : A) × (r ≡ ok a)) ⊎ ((e : Error) × (r ≡ err e))
Result-cases (ok a) = inl (a, refl)
Result-cases (err e) = inr (e, refl)

abbrev pub Stateful : Type 0 → Type 0 → Type 0
Stateful S A = S → Result A × S

module _ {S : Type 0} where
  abbrev pub pure : {A : Type 0} → A → Stateful S A
  pure a s = (ok a, s)

  abbrev pub lift : {A : Type 0} → Result A → Stateful S A
  lift r s = (r, s)

  abbrev pub and_then : {A B : Type 0} → Result A × S → (A → Stateful S B) → Result B × S
  and_then (ok a, s) f = f a s
  and_then (err e, s) f = (err e, s)

  infixl 5 ◌>>=◌
  infixr 5 ◌>>◌
  abbrev pub ◌>>=◌ : {A B : Type 0} → Stateful S A → (A → Stateful S B) → Stateful S B
  ◌>>=◌ m f s = and_then (m s) f

  abbrev pub ◌>>◌ : {B : Type 0} → Stateful S (Unit {0}) → Stateful S B → Stateful S B
  m >> k = m >>= λ _. k

  -- A sequence that answers: its first part answers, and its second from there.
  pub and_then-eq-ok :
      {A B : Type 0} (r : Result A × S) (f : A → Stateful S B) {b : B}
      → (and_then r f).0 ≡ ok b
      → (a : A) × (r.0 ≡ ok a) × ((f a r.1).0 ≡ ok b)
  and_then-eq-ok (ok a, s) f h = (a, refl, h)
  and_then-eq-ok (err e, s) f h = cc

  pub and_then_ok :
      {A B : Type 0} (r : Result A × S) (f : A → Stateful S B) {a : A}
      → r.0 ≡ ok a
      → and_then r f ≡ f a r.1
  and_then_ok (ok x, s) f h = ap (λ y. f y s) (ground arith)
  and_then_ok (err e, s) f h = cc

  -- The same for a long sequence: what follows is proved from each part's answer.
  pub answers {κ} :
      {A B : Type 0} {C : Type κ} (r : Result A × S) (f : A → Stateful S B) {b : B}
      → (and_then r f).0 ≡ ok b
      → ((a : A) → r.0 ≡ ok a → (f a r.1).0 ≡ ok b → C)
      → C
  answers r f h k = let (a, first, rest) = and_then-eq-ok r f h in k a first rest

  -- The same for a property of the whole outcome.
  pub follows {κ} :
      {A B : Type 0} (P : Result B × S → Type κ) (r : Result A × S) (f : A → Stateful S B) {b : B}
      → (and_then r f).0 ≡ ok b
      → ((a : A) → r.0 ≡ ok a → (f a r.1).0 ≡ ok b → P (f a r.1))
      → P (and_then r f)
  follows P (ok a, s) f h k = k a refl h
  follows P (err e, s) f h k = cc

  -- What a sequence leaves, also where it throws.
  pub leaves {κ} :
      {A B : Type 0} (P : S → Type κ) (r : Result A × S) (f : A → Stateful S B)
      → P r.1
      → ((a : A) → r.0 ≡ ok a → P (f a r.1).1)
      → P (and_then r f).1
  leaves P (ok a, s) f p k = k a refl
  leaves P (err e, s) f p k = p

  pub leaves_if {κ} :
      {A : Type 0} (P : S → Type κ) (b : Bool) (m n : Stateful S A) (s : S)
      → P (m s).1
      → P (n s).1
      → P ((if b then m else n) s).1
  leaves_if P true m n s h k = h
  leaves_if P false m n s h k = k
