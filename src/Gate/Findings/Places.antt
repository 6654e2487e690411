-- ===== src/Gate/Findings/Places.antt =====
-- Which file of a diff a reported path stands for, and whether the diff added a line of it.
use mathlib.Core.List.{Memᴰ}
use autodev_harness.Common.{
  ℕ, String, Bool, true, false, Option, none, some, List, [], ◌∷◌, ◌++◌, ◌==◌, ◌≡◌, ◌⊎◌, ◌↔◌, inl,
  inr, refl, sym, ap, ◌∙◌, eq_iff, nat_eq, lookup, elem, any, filter, Bool-cases, any→Memᴰ,
  Memᴰ→any,
}
use autodev_harness.Gate.Diff.Walk.{Added}
use autodev_harness.Gate.Zones.{unique_from}
use autodev_harness.Gate.Findings.Paths.{RelativePath}
use autodev_harness.Gate.Findings.Filter.{
  keys_of, has_line, matching_keys, or_itself, candidate_keys, is_on_added,
}
use autodev_harness.Gate.Findings.Candidates.{
  on_and_off, off_of_not, nat_eq_iff, Memᴰ-unique, Memᴰ-of_unique, unique-one,
}

no_member : {k : String} → Memᴰ k [] → ⊥
no_member m = elim m [ ]

only_member : {k key : String} → Memᴰ k (key ∷ []) → k ≡ key
only_member (Memᴰ.head e) = e
only_member (Memᴰ.tail m) = absurd (no_member m)

head_eq : {a b : String} {xs ys : List String} → a ∷ xs ≡ b ∷ ys → a ≡ b
head_eq e = cc

some_list : {xs ys : List ℕ} → some xs ≡ some ys → ys ≡ xs
some_list e = cc

module _ (lower : String → String) (added : Added) (new_files : List String) where
  -- The paths that the diff knows: those with added lines, and the new files.
  abbrev pub known_paths : List String
  known_paths = keys_of added ++ new_files

  -- No other known path is the reported one up to case; the key is such a path, or there is none and
  -- it is the reported path itself.
  abbrev pub IsOnlyFold : String → String → Type 0
  IsOnlyFold rel key =
      ((k : String) → Memᴰ k known_paths → (lower k == lower rel) ≡ true → k ≡ key)
      × ((Memᴰ key known_paths × ((lower key == lower rel) ≡ true))
          ⊎ ((key ≡ rel) × ((k : String) → Memᴰ k known_paths → ¬ ((lower k == lower rel) ≡ true))))

  -- The reported path stands for exactly one file: the key.
  abbrev pub StandsFor : RelativePath → String → Type 0
  StandsFor p key =
      ((p.case_insensitive ≡ false) × (key ≡ p.rel))
      ⊎ ((p.case_insensitive ≡ true) × IsOnlyFold p.rel key)

  module _ (rel key : String) where
    keys_of_fold :
        IsOnlyFold rel key
        → or_itself lower added new_files rel (matching_keys lower added new_files rel) ≡ key ∷ []
    unfolding matching_keys
    keys_of_fold (only, is) =
        let q : String → Bool = λ k. lower k == lower rel in
        elim (unique-one q key [] known_paths only) [
          | inl gone ↦ elim is [
            | inl (m, on) ↦
                let left = rw gone at (Memᴰ-unique q key [] known_paths m refl on) in
                absurd (no_member left)
            | inr (same, _) ↦ rw gone (ap (λ k. k ∷ []) (sym same))
          ]
          | inr one ↦ rw one refl
        ]

    keys-IsOnlyFold :
        (ks : List String)
        → filter (λ k. lower k == lower rel) (unique_from [] known_paths) ≡ ks
        → or_itself lower added new_files rel ks ≡ key ∷ []
        → IsOnlyFold rel key
    keys-IsOnlyFold [] e is =
        let gone : (k : String) → Memᴰ k known_paths → (lower k == lower rel) ≡ true → ⊥ = λ k m on.
          no_member
            (rw e at (Memᴰ-unique (λ k. lower k == lower rel) k [] known_paths m refl on)) in
        (λ k m on. absurd (gone k m on), inr (sym (head_eq is), gone))
    keys-IsOnlyFold (k0 ∷ rest) e is =
        let all : filter (λ k. lower k == lower rel) (unique_from [] known_paths) ≡ key ∷ [] =
          e ∙ is in
        (
          λ k m on.
              only_member
                (rw all at (Memᴰ-unique (λ k. lower k == lower rel) k [] known_paths m refl on)),
          inl (
              Memᴰ-of_unique (λ k. lower k == lower rel) key [] known_paths
                (rw all (Memᴰ.head refl))),
        )

  -- A path has one candidate exactly when it stands for that file.
  pub candidate_keys_iff :
      (p : RelativePath) (key : String)
      → (candidate_keys lower added new_files p ≡ key ∷ []) ↔ StandsFor p key
  unfolding matching_keys
  candidate_keys_iff p key = elim (Bool-cases p.case_insensitive) [
    | inl folding ↦ (
      λ e. inr (folding, keys-IsOnlyFold p.rel key _ refl (rw folding at e)),
      λ h. elim h [
        | inl (exact, _) ↦ absurd (on_and_off folding exact)
        | inr (_, only) ↦ rw folding (keys_of_fold p.rel key only)
      ],
    )
    | inr exact ↦ (
      λ e. inl (exact, sym (head_eq (rw exact at e))),
      λ h. elim h [
        | inl (_, same) ↦ rw exact (ap (λ k. k ∷ []) (sym same))
        | inr (folding, _) ↦ absurd (on_and_off folding exact)
      ],
    )
  ]

  -- The finding names no line and its file is not new, or the diff added no such line to the file.
  abbrev pub IsNotAdded : String → Option ℕ → Type 0
  IsNotAdded key none = ¬ Memᴰ key new_files
  IsNotAdded key (some n) = (ns : List ℕ) → lookup key added ≡ some ns → ¬ Memᴰ n ns

  has_line-none :
      (o : Option (List ℕ)) (n : ℕ)
      → (has_line o n ≡ false) ↔ ((ns : List ℕ) → o ≡ some ns → ¬ Memᴰ n ns)
  has_line-none none n = (λ _ ns e. absurd cc, λ _. refl)
  has_line-none (some ns) n = (
    λ off ms e m.
        on_and_off (Memᴰ→any (nat_eq n) n ns (rw (← some_list e) m) ((nat_eq_iff n n).1 refl)) off,
    λ h. off_of_not (any (nat_eq n) ns) (λ on.
        let (x, m, same) = any→Memᴰ (nat_eq n) ns on in h ns refl (rw ((nat_eq_iff n x).0 same) m)),
  )

  pub is_on_added_iff :
      (key : String) (line : Option ℕ)
      → (is_on_added lower added new_files key line ≡ false) ↔ IsNotAdded key line
  is_on_added_iff key none = (
    λ off m. on_and_off (Memᴰ→any (λ x. x == key) key new_files m ((eq_iff key key).1 refl)) off,
    λ h. off_of_not (elem key new_files) (λ on.
        let (x, m, same) = any→Memᴰ (λ x. x == key) new_files on in
        h (rw (sym ((eq_iff x key).0 same)) m)),
  )
  is_on_added_iff key (some n) = has_line-none (lookup key added) n
