-- ===== src/Thread/Parts.antt =====
-- The removal of fences by the positions of their marks.
use mathlib.Core.List.{append-nil}
use autodev_harness.Common.{
  ℕ, ◌+◌, true, false, none, some, [], ◌∷◌, ◌++◌, ◌≡◌, refl, ap, ◌∙◌, sym, length, take, drop,
  arith, length-drop, take-drop, inl, inr,
}
use autodev_harness.Util.Chars.{Text, begins}
use autodev_harness.Thread.{fence_open, fence_close, index_of, safe}
use autodev_harness.Thread.Scans.{index_of-some, index_of-none, some_cases}
use autodev_harness.Thread.Removal.{
  removed, in_prose, inside_fence, prose_hit, prose_miss, fence_hit, fence_miss,
  removed_prose_short, removed_fence_short,
}

-- The whole text is prose, or the rest of it is fenced.
pub removed-none : (s : Text) → index_of fence_open s ≡ none → removed (in_prose 0) s ≡ s
removed-none s e =
    let size = length-drop (safe fence_open s) s in
    sym (ap (removed (in_prose 0)) (append-nil s))
    ∙ (index_of-none fence_open true (removed (in_prose 0)) (removed (inside_fence 0)) prose_hit
          prose_miss s [] (safe fence_open s) e refl
        ∙ (ap (λ x. take (safe fence_open s) s ++ x)
              (ap (removed (in_prose 0)) (append-nil (drop (safe fence_open s) s))
                ∙ removed_prose_short (drop (safe fence_open s) s) (omega arith))
            ∙ take-drop (safe fence_open s) s))

pub removed_fence-none :
    (s : Text) → index_of fence_close s ≡ none → removed (inside_fence 0) s ≡ []
removed_fence-none s e =
    let size = length-drop (safe fence_close s) s in
    sym (ap (removed (inside_fence 0)) (append-nil s))
    ∙ (index_of-none fence_close false (removed (inside_fence 0)) (removed (in_prose 0)) fence_hit
          fence_miss s [] (safe fence_close s) e refl
        ∙ (ap (removed (inside_fence 0)) (append-nil (drop (safe fence_close s) s))
            ∙ removed_fence_short (drop (safe fence_close s) s) (omega arith)))

pub removed-some :
    (s : Text) (k : ℕ)
    → index_of fence_open s ≡ some k
    → removed (in_prose 0) s ≡ take k s ++ removed (inside_fence 0) (drop (k + length fence_open) s)
removed-some s k e =
    sym (ap (removed (in_prose 0)) (append-nil s))
    ∙ (index_of-some fence_open true (removed (in_prose 0)) (removed (inside_fence 0)) prose_hit
          prose_miss s [] k e
        ∙ ap (λ x. take k s ++ removed (inside_fence 0) x)
            (append-nil (drop (k + length fence_open) s)))

pub removed_fence-some :
    (s : Text) (k : ℕ)
    → index_of fence_close s ≡ some k
    → removed (inside_fence 0) s ≡ removed (in_prose 0) (drop (k + length fence_close) s)
removed_fence-some s k e =
    sym (ap (removed (inside_fence 0)) (append-nil s))
    ∙ (index_of-some fence_close false (removed (inside_fence 0)) (removed (in_prose 0)) fence_hit
          fence_miss s [] k e
        ∙ ap (removed (in_prose 0)) (append-nil (drop (k + length fence_close) s)))

pub begins_at : (p b : Text) (k : ℕ) → index_of p b ≡ some k → begins (drop k b) p ≡ true
unfolding index_of
begins_at p [] k e = cc
begins_at p (c ∷ s) k e = elim (some_cases (begins (c ∷ s) p) (index_of p s) k e) [
  | inl (h, z) ↦ rw z h
  | inr (j, n, h, z) ↦ rw z (begins_at p s j h)
]
