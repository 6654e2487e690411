-- ===== src/Orchestrator/Finds.antt =====
-- `findBalancedArrayEnd` finds the end of the balanced array at a position, and nothing else.
use mathlib.Core.List.{append_assoc}
use mathlib.Core.Path.{subst}
use autodev_harness.Common.{
  ℕ, suc, ◌+◌, ◌-◌, Char, some, List, [], ◌∷◌, ◌++◌, ◌≡◌, refl, ap, ◌∙◌, sym, arith, length,
  length-append, ◌<◌, ◌≤◌, ◌↔◌, take, drop, take-append, take-drop, length-take, length-drop,
}
use autodev_harness.Orchestrator.{
  opening, closing, mark, outside, scan, find_balanced_array_end, slice,
}
use autodev_harness.Orchestrator.Brackets.{outside-opening, outside-last, scan-Balanced, Balanced}
use autodev_harness.Orchestrator.Closes.{all_closed, level}
use autodev_harness.Orchestrator.Sound.{scan_sound, plainly, Answers}

-- Balanced text between two brackets.
pub data IsBracketed : List Char → Type 0 where
  brackets :
      (b f : Char) (s : List Char)
      → mark b ≡ opening
      → mark f ≡ closing
      → Balanced s
      → IsBracketed (b ∷ s ++ f ∷ [])

-- The characters from `start` to `end`, both included, lie in the text and are a bracketed array.
abbrev pub IsArrayAt : List Char → ℕ → ℕ → Type 0
IsArrayAt text start end =
    (start ≤ end) × (end < length text) × IsBracketed (slice text start (suc end))

-- What a first bracket and the brackets of its array answer.
array_taken :
    (b f : Char) (s rest : List Char) (n : ℕ)
    → mark b ≡ opening
    → mark f ≡ closing
    → Balanced s
    → n ≡ suc (suc (length s))
    → IsBracketed (take n (b ∷ s ++ f ∷ rest))
array_taken b f s rest n h k p e =
    subst IsBracketed
      (sym (
        ap (λ u. take n (b ∷ u)) (sym (append_assoc s (f ∷ []) rest))
        ∙ take-append n (b ∷ s ++ f ∷ []) rest (let l = length-append s (f ∷ []) in omega arith)))
      (brackets b f s h k p)

found_IsArrayAt :
    (text : List Char) (start e : ℕ) (b : Char) (u : List Char)
    → drop start text ≡ b ∷ u
    → mark b ≡ opening
    → Answers 1 outside u (suc start) e
    → IsArrayAt text start e
found_IsArrayAt text start e b _ d m
      (k, (plainly _ _ _ (level _ s f rest _ _ p q (all_closed _) l), h)) =
    let parts = length-append s (f ∷ rest) in
    let whole = length-drop start text in
    let seen : length (drop start text) ≡ suc (length (s ++ f ∷ rest)) = ap length d in
    (
      omega arith,
      omega arith,
      subst (λ v. IsBracketed (take (suc e - start) v)) (sym d)
          (array_taken b f s rest (suc e - start) m q p (omega arith)),
    )

-- The scan of an array that stands at `start`.
scan-IsBracketed :
    (c rest : List Char) (start e : ℕ)
    → IsBracketed c
    → suc e ≡ start + length c
    → scan (c ++ rest) outside start 0 0 ≡ some e
scan-IsBracketed _ rest start e (brackets b f s h k p) l =
    let parts = length-append s (f ∷ []) in
    ap (λ v. scan (b ∷ v) outside start 0 0) (append_assoc s (f ∷ []) rest)
    ∙ (outside-opening b (s ++ f ∷ rest) start 0 0 h
        ∙ (scan-Balanced s (f ∷ rest) (suc start) e 1 0 p (omega arith) (omega arith)
            ∙ outside-last f rest e 1 0 k refl))

pub find-IsArrayAt :
    (text : List Char) (start e : ℕ)
    → IsArrayAt text start e
    → find_balanced_array_end text start ≡ some e
unfolding find_balanced_array_end
find-IsArrayAt text start e (l, m, p) =
    let whole = length-drop start text in
    let size = length-take (suc e - start) (drop start text) (omega arith) in
    sym (ap (λ v. scan v outside start 0 0) (take-drop (suc e - start) (drop start text)))
    ∙ scan-IsBracketed (slice text start (suc e)) (drop (suc e - start) (drop start text)) start e p
        (omega arith)

module _ (text : List Char) (start e : ℕ) (b : Char) (u : List Char) (at : drop start text ≡ b ∷ u)
    (bracket : mark b ≡ opening) where
  -- At an opening bracket, `findBalancedArrayEnd` answers `e` exactly when `e` is a position of the
  -- text at or behind the bracket and the slice up to `e` is a bracketed array: balanced text, where
  -- the brackets in string literals are left out, between an opening and a closing bracket.
  pub find_balanced_array_end-some_iff :
      (find_balanced_array_end text start ≡ some e) ↔ IsArrayAt text start e
  unfolding find_balanced_array_end
  find_balanced_array_end-some_iff = (
    λ h. found_IsArrayAt text start e b u at bracket (
        scan_sound u outside 0 (suc start) 1 0 e (omega arith) (
          sym (ap (λ v. scan v outside start 0 0) at ∙ outside-opening b u start 0 0 bracket) ∙ h)),
    λ h. find-IsArrayAt text start e h,
  )
