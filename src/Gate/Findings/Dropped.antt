-- ===== src/Gate/Findings/Dropped.antt =====
-- Which findings the filter drops.
use mathlib.Core.List.{Memᴰ}
use autodev_harness.Common.{
  String, true, false, Option, none, some, List, [], ◌∷◌, ◌++◌, ◌≡◌, ◌⊎◌, ◌↔◌, inl, inr, refl, All,
  Bool-cases, All-imp, Memᴰ-left, Memᴰ-right,
}
use autodev_harness.Gate.Diff.Walk.{Added}
use autodev_harness.Gate.Findings.Paths.{RelativePath, normalize_finding_path}
use autodev_harness.Gate.Findings.Places.{
  StandsFor, IsNotAdded, candidate_keys_iff, is_on_added_iff,
}
use autodev_harness.Gate.Findings.Filter.{
  Finding, FilteredFinding, matching_keys, or_itself, candidate_keys, is_on_added, by_keys, by_path,
  kept_of, filter_findings,
}

append-eq-nil {ℓ} : {A : Type ℓ} (xs ys : List A) → xs ++ ys ≡ [] → ys ≡ []
append-eq-nil [] ys e = e
append-eq-nil (x ∷ xs) ys e = cc

module _ (lower : String → String) (added : Added) (new_files : List String) (worktree : String)
    (rules : Option String) where
  -- The loop keeps nothing of the finding.
  IsDropped : Finding → Type 0
  IsDropped f =
      (p : RelativePath) × (key : String) × (normalize_finding_path lower f.file worktree rules
        ≡ some p)
      × (candidate_keys lower added new_files p ≡ key ∷ [])
      × (is_on_added lower added new_files key f.line ≡ false)

  -- The filter keeps the finding: under its own path, marked, or under that of a file which has it on
  -- an added line, or is new if it names no line.
  IsKeptIn : Finding → List FilteredFinding → Type 0
  IsKeptIn f kept =
      Memᴰ (record { finding = f; unattributed = true }) kept
      ⊎ ((key : String) × (is_on_added lower added new_files key f.line ≡ true)
          × Memᴰ (record { finding = record f { file = key }; unattributed = false }) kept)

  or_itself_some :
      (rel : String) (ks : List String) → or_itself lower added new_files rel ks ≡ [] → ⊥
  or_itself_some rel [] e = cc
  or_itself_some rel (k ∷ ks) e = cc

  no_keys : (p : RelativePath) → candidate_keys lower added new_files p ≡ [] → ⊥
  no_keys p e = elim (Bool-cases p.case_insensitive) [
    | inr b ↦ let e = rw b at e in cc
    | inl b ↦
        let e = rw b at e in or_itself_some p.rel (matching_keys lower added new_files p.rel) e
  ]

  of_keys :
      (f : Finding) (p : RelativePath)
      → normalize_finding_path lower f.file worktree rules ≡ some p
      → (keys : List String) → candidate_keys lower added new_files p ≡ keys
      → IsKeptIn f (by_keys lower added new_files f keys) ⊎ IsDropped f
  unfolding IsKeptIn IsDropped
  of_keys f p n [] e = absurd (no_keys p e)
  of_keys f p n (key ∷ []) e = elim (Bool-cases (is_on_added lower added new_files key f.line)) [
    | inl on ↦ inl (inr (key, on, rw on (Memᴰ.head refl)))
    | inr off ↦ inr (p, key, n, e, off)
  ]
  of_keys f p n (key ∷ other ∷ keys) e = inl (inl (Memᴰ.head refl))

  of_path :
      (f : Finding) (o : Option RelativePath)
      → normalize_finding_path lower f.file worktree rules ≡ o
      → IsKeptIn f (by_path lower added new_files f o) ⊎ IsDropped f
  unfolding IsKeptIn
  of_path f none n = inl (inl (Memᴰ.head refl))
  of_path f (some p) n = of_keys f p n (candidate_keys lower added new_files p) refl

  kept_or_IsDropped :
      (f : Finding) → IsKeptIn f (kept_of lower added new_files worktree rules f) ⊎ IsDropped f
  unfolding kept_of IsKeptIn IsDropped
  kept_or_IsDropped f = of_path f (normalize_finding_path lower f.file worktree rules) refl

  kept_left : (f : Finding) (xs ys : List FilteredFinding) → IsKeptIn f xs → IsKeptIn f (xs ++ ys)
  unfolding IsKeptIn
  kept_left f xs ys (inl m) = inl (Memᴰ-left _ xs ys m)
  kept_left f xs ys (inr (key, on, m)) = inr (key, on, Memᴰ-left _ xs ys m)

  kept_right : (f : Finding) (xs ys : List FilteredFinding) → IsKeptIn f ys → IsKeptIn f (xs ++ ys)
  unfolding IsKeptIn
  kept_right f xs ys (inl m) = inl (Memᴰ-right _ xs ys m)
  kept_right f xs ys (inr (key, on, m)) = inr (key, on, Memᴰ-right _ xs ys m)

  kept_behind :
      (f g : Finding) (fs : List Finding)
      → IsKeptIn f (filter_findings lower added new_files worktree rules fs) ⊎ IsDropped f
      → IsKeptIn f (filter_findings lower added new_files worktree rules (g ∷ fs)) ⊎ IsDropped f
  unfolding filter_findings
  kept_behind f g fs (inl k) =
      inl (kept_right f (kept_of lower added new_files worktree rules g) _ k)
  kept_behind f g fs (inr foreign) = inr foreign

  kept_first :
      (f : Finding) (fs : List Finding)
      → IsKeptIn f (kept_of lower added new_files worktree rules f) ⊎ IsDropped f
      → IsKeptIn f (filter_findings lower added new_files worktree rules (f ∷ fs)) ⊎ IsDropped f
  unfolding filter_findings
  kept_first f fs (inl k) = inl (kept_left f (kept_of lower added new_files worktree rules f) _ k)
  kept_first f fs (inr foreign) = inr foreign

  -- A finding that the filter does not keep has a path inside the worktree that stands for one file,
  -- and that file has no such added line, or is not new if the finding names no line.
  filter_findings_complete :
      (fs : List Finding) (f : Finding)
      → Memᴰ f fs
      → IsKeptIn f (filter_findings lower added new_files worktree rules fs) ⊎ IsDropped f
  filter_findings_complete [] f m = elim m [ ]
  filter_findings_complete (g ∷ fs) f (Memᴰ.head e) =
      rw (← e) (kept_first f fs (kept_or_IsDropped f))
  filter_findings_complete (g ∷ fs) f (Memᴰ.tail m) =
      kept_behind f g fs (filter_findings_complete fs f m)

  not_kept : (f : Finding) → IsKeptIn f [] → ⊥
  unfolding IsKeptIn
  not_kept f (inl m) = elim m [ ]
  not_kept f (inr (key, on, m)) = elim m [ ]

  rest_nil :
      (f : Finding) (fs : List Finding)
      → filter_findings lower added new_files worktree rules (f ∷ fs) ≡ []
      → filter_findings lower added new_files worktree rules fs ≡ []
  unfolding filter_findings
  rest_nil f fs e = (append-eq-nil (kept_of lower added new_files worktree rules f) _ e)

  All-IsDropped :
      (fs : List Finding)
      → filter_findings lower added new_files worktree rules fs ≡ []
      → All IsDropped fs
  All-IsDropped [] e = tt
  All-IsDropped (f ∷ fs) e = (
    elim (filter_findings_complete (f ∷ fs) f (Memᴰ.head refl)) [
      | inl k ↦ absurd (not_kept f (rw (← e) k))
      | inr foreign ↦ foreign
    ],
    All-IsDropped fs (rest_nil f fs e),
  )

  foreign_dropped :
      (f : Finding) → IsDropped f → kept_of lower added new_files worktree rules f ≡ []
  unfolding kept_of IsDropped
  foreign_dropped f (p, key, n, c, off) = rw (n, c, off) refl

  none_of_foreign :
      (fs : List Finding)
      → All IsDropped fs
      → filter_findings lower added new_files worktree rules fs ≡ []
  unfolding filter_findings
  none_of_foreign [] h = refl
  none_of_foreign (f ∷ fs) (p, h) = rw (foreign_dropped f p) (none_of_foreign fs h)

  -- The path of the finding is inside the worktree and stands for one file, and the finding is not
  -- on a line that the diff added there; or it names no line and the file is not new.
  abbrev pub IsForeign : Finding → Type 0
  IsForeign f =
      (p : RelativePath) × (key : String) × (normalize_finding_path lower f.file worktree rules
        ≡ some p)
      × StandsFor lower added new_files p key
      × IsNotAdded lower added new_files key f.line

  dropped-IsForeign : (f : Finding) → IsDropped f → IsForeign f
  unfolding IsDropped
  dropped-IsForeign f (p, key, n, c, off) = (
    p,
    key,
    n,
    (candidate_keys_iff lower added new_files p key).0 c,
    (is_on_added_iff lower added new_files key f.line).0 off,
  )

  foreign-IsDropped : (f : Finding) → IsForeign f → IsDropped f
  unfolding IsDropped
  foreign-IsDropped f (p, key, n, c, off) = (
    p,
    key,
    n,
    (candidate_keys_iff lower added new_files p key).1 c,
    (is_on_added_iff lower added new_files key f.line).1 off,
  )

  -- The filter keeps nothing exactly when each finding has a path inside the worktree that stands for
  -- one file (up to case, where paths are compared so), and the diff added no line of its number to
  -- that file, or, if the finding names no line, the file is not new.
  pub filter_findings-none_iff :
      (fs : List Finding)
      → (filter_findings lower added new_files worktree rules fs ≡ []) ↔ All IsForeign fs
  filter_findings-none_iff fs = (
    λ e. All-imp IsDropped IsForeign fs dropped-IsForeign (All-IsDropped fs e),
    λ h. none_of_foreign fs (All-imp IsForeign IsDropped fs foreign-IsDropped h),
  )
