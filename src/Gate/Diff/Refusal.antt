-- ===== src/Gate/Diff/Refusal.antt =====
-- What src/gate/diff-lines.ts throws, one constructor for each `throw`.
use mathlib.Core.Path.{subst}
use autodev_harness.Common.{Bool, true, false, if◌then◌else◌, ◌≡◌, refl}

pub data Refusal : Type 0 where
  bad_escape : Refusal
  not_utf8 : Refusal
  unterminated : Refusal
  empty_path : Refusal
  too_many_added : Refusal
  too_many_removed : Refusal
  bad_marker : Refusal
  bad_body_line : Refusal
  too_many_context : Refusal
  bad_hunk_header : Refusal
  truncated : Refusal
  unattributed_lines : Refusal

pub data Parsed {ℓ} (A : Type ℓ) : Type ℓ where
  ok : A → Parsed A
  refused : Refusal → Parsed A

module _ {ℓ κ} {A : Type ℓ} {B : Type κ} where
  infixl 5 ◌>>=◌
  abbrev pub ◌>>=◌ : Parsed A → (A → Parsed B) → Parsed B
  ◌>>=◌ (refused why) k = refused why
  ◌>>=◌ (ok a) k = k a

  -- A sequence that answers has a first part that does, and its second part answers from there.
  pub answer_of_parts :
      (first : Parsed A) (k : A → Parsed B) {b : B}
      → (first >>= k) ≡ ok b
      → (a : A) × (first ≡ ok a) × (k a ≡ ok b)
  answer_of_parts (refused why) k e = cc
  answer_of_parts (ok a) k e = (a, refl, e)

-- What holds of the answer, if there is one.
abbrev pub Holds {ℓ κ} : {A : Type ℓ} → (A → Type κ) → Parsed A → Type κ
Holds P (ok a) = P a
Holds P (refused r) = Unit

pub Holds-bind {ℓ κ μ} :
    {A : Type ℓ} {B : Type κ} (P : B → Type μ) (m : Parsed A) (f : A → Parsed B)
    → ((a : A) → Holds P (f a))
    → Holds P (m >>= f)
Holds-bind P (ok a) f h = h a
Holds-bind P (refused r) f h = tt

pub Holds-then {ℓ κ μ ν} :
    {A : Type ℓ} {B : Type κ} (P : A → Type μ) (Q : B → Type ν) (m : Parsed A) (f : A → Parsed B)
    → Holds P m
    → ((a : A) → P a → Holds Q (f a))
    → Holds Q (m >>= f)
Holds-then P Q (ok a) f h k = k a h
Holds-then P Q (refused r) f h k = tt

pub Holds-if {ℓ κ} :
    {A : Type ℓ} (P : A → Type κ) (b : Bool) (m n : Parsed A)
    → Holds P m
    → Holds P n
    → Holds P (if b then m else n)
Holds-if P true m n h k = h
Holds-if P false m n h k = k

pub Holds-ok {ℓ κ} :
    {A : Type ℓ} (P : A → Type κ) (m : Parsed A) {a : A} → Holds P m → m ≡ ok a → P a
Holds-ok P (ok b) h e = subst P (cc) h
Holds-ok P (refused r) h e = cc
