-- ===== src/Gate/Findings/Laws.antt =====
-- The canonical form of a path, and which findings the filter drops.
use mathlib.Core.List.{append-nil}
use autodev_harness.Common.{
  String, false, ◌||◌, List, [], ◌∷◌, ◌++◌, ◌==◌, ◌≡◌, inl, inr, refl, ap, ◌∙◌, All, take, drop,
  take-drop, if◌then◌else◌, Bool-cases,
}
use autodev_harness.Gate.Findings.Paths.{
  root_segment_count, resolve_dots, reverse_onto, canonical_segments, pop,
}

-- A segment that names something.
abbrev pub IsPlain : String → Type 0
IsPlain s = ((s == "") ≡ false) × ((s == ".") ≡ false) × ((s == "..") ≡ false)

pop-All : (out : List String) → All IsPlain out → All IsPlain (pop out)
pop-All [] h = tt
pop-All (x ∷ out) (p, h) = h

next_out :
    (s : String) (out : List String)
    → All IsPlain out
    → All IsPlain (if (s == "") || (s == ".") then out else if s == ".." then pop out else s ∷ out)
next_out s out h = elim (Bool-cases (s == "")) [
  | inl e ↦ rw e h
  | inr e ↦ elim (Bool-cases (s == ".")) [
    | inl d ↦ rw (e, d) h
    | inr d ↦ elim (Bool-cases (s == "..")) [
      | inl u ↦ rw (e, d, u) (pop-All out h)
      | inr u ↦ rw (e, d, u) ((e, d, u), h)
    ]
  ]
]

resolve_dots-All : (segs out : List String) → All IsPlain out → All IsPlain (resolve_dots out segs)
unfolding resolve_dots
resolve_dots-All [] out h = h
resolve_dots-All (s ∷ segs) out h = resolve_dots-All segs _ (next_out s out h)

reverse_onto-All :
    (xs ys : List String) → All IsPlain xs → All IsPlain ys → All IsPlain (reverse_onto xs ys)
unfolding reverse_onto
reverse_onto-All [] ys h k = k
reverse_onto-All (x ∷ xs) ys (p, h) k = reverse_onto-All xs (x ∷ ys) h (p, k)

-- Plain segments stay as they are.
resolve_dots_plain :
    (segs out ys : List String)
    → All IsPlain segs
    → reverse_onto (resolve_dots out segs) ys ≡ reverse_onto out (segs ++ ys)
unfolding resolve_dots reverse_onto
resolve_dots_plain [] out ys h = refl
resolve_dots_plain (s ∷ segs) out ys (p, h) =
    rw (p.0, p.1, p.2) (resolve_dots_plain segs (s ∷ out) ys h)

-- The canonical segments of a path are those of its root, as they are, and behind them plain ones:
-- none is empty, `.` or `..`. A path whose segments behind the root are plain keeps all of them.
canonical_segments_lem :
    (segs : List String)
    → (names : List String) × (canonical_segments segs
        ≡ take (root_segment_count segs) segs ++ names)
      × All IsPlain names
      × (All IsPlain (drop (root_segment_count segs) segs) → canonical_segments segs ≡ segs)
unfolding canonical_segments
canonical_segments_lem segs =
    let floor = root_segment_count segs in
    (
      reverse_onto (resolve_dots [] (drop floor segs)) [],
      refl,
      reverse_onto-All (resolve_dots [] (drop floor segs)) []
          (resolve_dots-All (drop floor segs) [] tt) tt,
      λ h.
          ap (λ (t : List String). take floor segs ++ t)
            (resolve_dots_plain (drop floor segs) [] [] h ∙ append-nil (drop floor segs))
          ∙ take-drop floor segs,
    )
