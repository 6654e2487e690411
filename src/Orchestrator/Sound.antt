-- ===== src/Orchestrator/Sound.antt =====
-- A scan that answers has read what the grammar describes.
use autodev_harness.Common.{
  ℕ, zero, suc, ◌+◌, Char, some, List, [], ◌∷◌, ◌++◌, ◌≡◌, ◌≢◌, refl, ◌∙◌, sym, arith, length, ◌⊎◌,
  inl, inr,
}
use autodev_harness.Orchestrator.{
  Mark, quote, backslash, opening, closing, other, mark, Mode, outside, in_string, skipped, scan,
}
use autodev_harness.Orchestrator.Brackets.{
  in_string-quote, in_string-backslash, in_string-other, outside-quote, outside-opening,
  outside-closing, outside-last, outside-other, Literal, Balanced,
}
use autodev_harness.Orchestrator.Closes.{
  Closes, all_closed, level, some_injective, Closes-character, Closes-Literal, Closes-array,
}

-- The same in each mode: what is left of a literal comes first.
pub data Scanned : ℕ → Mode → List Char → ℕ → Type 0 where
  plainly : (n : ℕ) (t : List Char) (k : ℕ) → Closes n t k → Scanned n outside t k
  in_literal :
      (n : ℕ) (l t : List Char) (k j : ℕ)
      → Literal l
      → Closes n t k
      → j ≡ length l + k
      → Scanned n in_string (l ++ t) j
  past_escape :
      (n : ℕ) (x : Char) (l t : List Char) (k j : ℕ)
      → Literal l
      → Closes n t k
      → j ≡ suc (length l + k)
      → Scanned n skipped (x ∷ l ++ t) j

in_string-cases : (m : Mark) → (m ≡ quote) ⊎ ((m ≡ backslash) ⊎ ((m ≢ quote) × (m ≢ backslash)))
in_string-cases quote = inl refl
in_string-cases backslash = inr (inl refl)
in_string-cases opening = inr (inr (λ e. cc, λ e. cc))
in_string-cases closing = inr (inr (λ e. cc, λ e. cc))
in_string-cases other = inr (inr (λ e. cc, λ e. cc))

outside-cases :
    (m : Mark)
    → (m ≡ quote)
      ⊎ ((m ≡ opening) ⊎ ((m ≡ closing) ⊎ ((m ≢ quote) × (m ≢ opening) × (m ≢ closing))))
outside-cases quote = inl refl
outside-cases opening = inr (inl refl)
outside-cases closing = inr (inr (inl refl))
outside-cases backslash = inr (inr (inr (λ e. cc, λ e. cc, λ e. cc)))
outside-cases other = inr (inr (inr (λ e. cc, λ e. cc, λ e. cc)))

-- Some first part of the text is read by a scan that answers `e`.
abbrev pub Answers : ℕ → Mode → List Char → ℕ → ℕ → Type 0
Answers n m t i e = (k : ℕ) × (Scanned n m t k × (suc e ≡ i + k))

module _ (x : Char) (n i e : ℕ) where
  then_character :
      (t : List Char)
      → mark x ≢ quote
      → mark x ≢ opening
      → mark x ≢ closing
      → Answers (suc n) outside t (suc i) e
      → Answers (suc n) outside (x ∷ t) i e
  then_character t a b c (k, (plainly _ _ _ p, h)) =
      (suc k, (plainly (suc n) (x ∷ t) (suc k) (Closes-character x n t k a b c p), omega arith))

  then_literal :
      (t : List Char)
      → mark x ≡ quote
      → Answers (suc n) in_string t (suc i) e
      → Answers (suc n) outside (x ∷ t) i e
  then_literal _ a (_, (in_literal _ l u k j w p q, h)) = (
    suc j,
    (
      plainly (suc n) (x ∷ l ++ u) (suc j) (Closes-Literal x n l u k (suc j) a w p (omega arith)),
      omega arith,
    ),
  )

  then_opening :
      (t : List Char)
      → mark x ≡ opening
      → Answers (suc (suc n)) outside t (suc i) e
      → Answers (suc n) outside (x ∷ t) i e
  then_opening t a (k, (plainly _ _ _ p, h)) =
      (suc k, (plainly (suc n) (x ∷ t) (suc k) (Closes-array x n t k a p), omega arith))

  then_closing :
      (t : List Char)
      → mark x ≡ closing
      → Answers n outside t (suc i) e
      → Answers (suc n) outside (x ∷ t) i e
  then_closing t a (k, (plainly _ _ _ p, h)) = (
    suc k,
    (
      plainly (suc n) (x ∷ t) (suc k) (level n [] x t k (suc k) Balanced.nothing a p (omega arith)),
      omega arith,
    ),
  )

  then_quote :
      (t : List Char)
      → mark x ≡ quote
      → Answers n outside t (suc i) e
      → Answers n in_string (x ∷ t) i e
  then_quote t a (k, (plainly _ _ _ p, h)) =
      (suc k, (in_literal n (x ∷ []) t k (suc k) (Literal.closed x a) p (omega arith), omega arith))

  then_escape :
      (t : List Char)
      → mark x ≡ backslash
      → Answers n skipped t (suc i) e
      → Answers n in_string (x ∷ t) i e
  then_escape _ a (_, (past_escape _ y l u k j w p q, h)) = (
    suc j,
    (in_literal n (x ∷ y ∷ l) u k (suc j) (Literal.escaped x y l a w) p (omega arith), omega arith),
  )

  then_plain :
      (t : List Char)
      → mark x ≢ quote
      → mark x ≢ backslash
      → Answers n in_string t (suc i) e
      → Answers n in_string (x ∷ t) i e
  then_plain _ a b (_, (in_literal _ l u k j w p q, h)) = (
    suc j,
    (in_literal n (x ∷ l) u k (suc j) (Literal.plain x l a b w) p (omega arith), omega arith),
  )

  then_skipped : (t : List Char) → Answers n in_string t (suc i) e → Answers n skipped (x ∷ t) i e
  then_skipped _ (_, (in_literal _ l u k j w p q, h)) =
      (suc j, (past_escape n x l u k (suc j) w p (omega arith), omega arith))

-- A closing bracket ends the scan, or one level.
at_closing :
    (x : Char) (t : List Char) (n i o c e : ℕ)
    → o ≡ suc n + c
    → mark x ≡ closing
    → scan (x ∷ t) outside i o c ≡ some e
    → ((m : ℕ)
        → o ≡ suc m + suc c
        → scan t outside (suc i) o (suc c) ≡ some e
        → Answers (suc m) outside t (suc i) e)
    → Answers (suc n) outside (x ∷ t) i e
at_closing x t zero i o c e d a h k =
    let last : i ≡ e = some_injective (sym (outside-last x t i o c a (omega arith)) ∙ h) in
    then_closing x 0 i e t a (0, (plainly 0 t 0 (all_closed t), omega arith))
at_closing x t (suc n) i o c e d a h k =
    then_closing x (suc n) i e t a
      (k n (omega arith) (sym (outside-closing x t i o c a (omega arith)) ∙ h))

pub scan_sound :
    (t : List Char) (m : Mode) (n i o c e : ℕ)
    → o ≡ suc n + c
    → scan t m i o c ≡ some e
    → Answers (suc n) m t i e
unfolding scan
scan_sound [] m n i o c e d h = cc
scan_sound (x ∷ t) skipped n i o c e d h =
    then_skipped x (suc n) i e t (scan_sound t in_string n (suc i) o c e d h)
scan_sound (x ∷ t) in_string n i o c e d h = elim (in_string-cases (mark x)) [
  | inl a ↦
      then_quote x (suc n) i e t a
        (scan_sound t outside n (suc i) o c e d (sym (in_string-quote x t i o c a) ∙ h))
  | inr (inl a) ↦
      then_escape x (suc n) i e t a
        (scan_sound t skipped n (suc i) o c e d (sym (in_string-backslash x t i o c a) ∙ h))
  | inr (inr (a, b)) ↦
      then_plain x (suc n) i e t a b
        (scan_sound t in_string n (suc i) o c e d (sym (in_string-other x t i o c a b) ∙ h))
]
scan_sound (x ∷ t) outside n i o c e d h = elim (outside-cases (mark x)) [
  | inl a ↦
      then_literal x n i e t a
        (scan_sound t in_string n (suc i) o c e d (sym (outside-quote x t i o c a) ∙ h))
  | inr (inl a) ↦ then_opening x n i e t a (
      scan_sound t outside (suc n) (suc i) (suc o) c e (omega arith)
        (sym (outside-opening x t i o c a) ∙ h))
  | inr (inr (inl a)) ↦
      at_closing x t n i o c e d a h (λ m. scan_sound t outside m (suc i) o (suc c) e)
  | inr (inr (inr (a, b, k))) ↦
      then_character x n i e t a b k
        (scan_sound t outside n (suc i) o c e d (sym (outside-other x t i o c a b k) ∙ h))
]
