-- ===== src/Thread/Removal.antt =====
-- The removal of fences in one pass over a text, as a description of what is streamed.
use autodev_harness.Common.{
  Bool-cases, inl, inr, ℕ, zero, suc, ◌≤◌, ◌<◌, Char, true, false, [], ◌∷◌, ◌≡◌, refl, ap, ◌∙◌,
  length, drop, if◌then◌else◌, arith,
}
use autodev_harness.Util.Chars.{Text, begins}
use autodev_harness.Thread.{fence_open, fence_close}
use autodev_harness.Thread.Scans.{begins-length}

-- Where the pass is, and how many characters of a mark are still to pass.
pub data Place : Type 0 where
  in_prose inside_fence : ℕ → Place

unfoldable pub removed : Place → Text → Text
removed p [] = []
removed (in_prose (suc n)) (c ∷ s) = removed (in_prose n) s
removed (inside_fence (suc n)) (c ∷ s) = removed (inside_fence n) s
removed (in_prose zero) (c ∷ s) =
    let prose = c ∷ removed (in_prose 0) s in
    let fenced = removed (inside_fence 6) s in if begins (c ∷ s) fence_open then fenced else prose
removed (inside_fence zero) (c ∷ s) =
    let prose = removed (in_prose 2) s in
    let fenced = removed (inside_fence 0) s in if begins (c ∷ s) fence_close then prose else fenced

removed_fence-drop :
    (n : ℕ) (s : Text) → removed (inside_fence n) s ≡ removed (inside_fence 0) (drop n s)
unfolding removed
removed_fence-drop zero s = refl
removed_fence-drop (suc n) [] = refl
removed_fence-drop (suc n) (c ∷ s) = removed_fence-drop n s

removed_prose-drop : (n : ℕ) (s : Text) → removed (in_prose n) s ≡ removed (in_prose 0) (drop n s)
unfolding removed
removed_prose-drop zero s = refl
removed_prose-drop (suc n) [] = refl
removed_prose-drop (suc n) (c ∷ s) = removed_prose-drop n s

module _ (c : Char) (s : Text) where
  pub prose_hit :
      begins (c ∷ s) fence_open ≡ true
      → removed (in_prose 0) (c ∷ s) ≡ removed (inside_fence 0) (drop (length fence_open) (c ∷ s))
  unfolding removed
  prose_hit h = ground (arith, removed_fence-drop 6 s)

  pub prose_miss :
      begins (c ∷ s) fence_open ≡ false → removed (in_prose 0) (c ∷ s) ≡ c ∷ removed (in_prose 0) s
  unfolding removed
  prose_miss h = ground arith

  pub fence_hit :
      begins (c ∷ s) fence_close ≡ true
      → removed (inside_fence 0) (c ∷ s) ≡ removed (in_prose 0) (drop (length fence_close) (c ∷ s))
  unfolding removed
  fence_hit h = ground (arith, removed_prose-drop 2 s)

  pub fence_miss :
      begins (c ∷ s) fence_close ≡ false
      → removed (inside_fence 0) (c ∷ s) ≡ removed (inside_fence 0) s
  unfolding removed
  fence_miss h = ground arith

-- Texts that are too short for a mark.
pub begins_short : (s p : Text) → length s < length p → begins s p ≡ false
begins_short s p l = elim (Bool-cases (begins s p)) [
  | inl h ↦ let k = begins-length s p h in absurd (omega arith)
  | inr h ↦ h
]

pub removed_prose_short : (s : Text) → length s ≤ 6 → removed (in_prose 0) s ≡ s
unfolding removed
removed_prose_short [] l = refl
removed_prose_short (c ∷ s) l =
    prose_miss c s (begins_short (c ∷ s) fence_open (omega arith))
    ∙ ap (λ t. c ∷ t) (removed_prose_short s (omega arith))

pub removed_fence_short : (s : Text) → length s ≤ 2 → removed (inside_fence 0) s ≡ []
unfolding removed
removed_fence_short [] l = refl
removed_fence_short (c ∷ s) l =
    fence_miss c s (begins_short (c ∷ s) fence_close (omega arith))
    ∙ removed_fence_short s (omega arith)
