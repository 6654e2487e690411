-- ===== src/Orchestrator/Extracts.antt =====
-- `extractJsonArray` answers the first array of the text that parses.
use mathlib.Core.Path.{subst}
use autodev_harness.Common.{
  le-cases, ℕ, zero, suc, ◌-◌, Char, Option, none, some, List, [], ◌∷◌, ◌≡◌, ◌≢◌, refl, ap, ◌∙◌,
  sym, arith, length, ◌⊎◌, inl, inr, ◌<◌, ◌≤◌, ◌↔◌, take, drop, length-drop, Option-cases,
}
use autodev_harness.Orchestrator.{
  Mark, quote, backslash, opening, closing, other, mark, find_balanced_array_end, slice, array_of,
  candidate_at, extract_from, extract_json_array, or_else,
}
use autodev_harness.Orchestrator.Closes.{some_injective}
use autodev_harness.Orchestrator.Finds.{
  IsArrayAt, IsBracketed, brackets, find_balanced_array_end-some_iff, find-IsArrayAt,
}

opening-cases : (m : Mark) → (m ≡ opening) ⊎ (m ≢ opening)
opening-cases opening = inl refl
opening-cases quote = inr λ e. cc
opening-cases backslash = inr λ e. cc
opening-cases closing = inr λ e. cc
opening-cases other = inr λ e. cc

drop_next :
    (text : List Char) (i : ℕ) (x : Char) (rest : List Char)
    → drop i text ≡ x ∷ rest
    → drop (suc i) text ≡ rest
drop_next [] zero x rest e = cc
drop_next [] (suc i) x rest e = cc
drop_next (y ∷ text) zero x rest e = cc
drop_next (y ∷ text) (suc i) x rest e = drop_next text i x rest e

order : (i j : ℕ) → (i < j) ⊎ ((i ≡ j) ⊎ (j < i))
order i j = ground arith

bracket_first :
    (n : ℕ) (x : Char) (rest c : List Char)
    → IsBracketed c
    → take n (x ∷ rest) ≡ c
    → mark x ≡ opening
bracket_first zero x rest _ (brackets b f s h k p) e = cc
bracket_first (suc n) x rest _ (brackets b f s h k p) e = cc

module _ {Json Items : Type 0} (parse : List Char → Option Json) (array : Json → Option Items)
    (text : List Char) where
  -- No array at `i` parses to an array.
  abbrev pub Fails : ℕ → Type 0
  Fails i = (e : ℕ) → IsArrayAt text i e → array_of parse array (slice text i (suc e)) ≡ none

  -- One array at `i` does, and no array before it from `from` on.
  abbrev pub IsFirst : ℕ → Items → Type 0
  IsFirst from a =
      (i : ℕ) × (e : ℕ) × (from ≤ i)
      × IsArrayAt text i e
      × (array_of parse array (slice text i (suc e)) ≡ some a)
      × ((j : ℕ) → from ≤ j → j < i → Fails j)

  Fails-closed :
      (i : ℕ) (x : Char) (rest : List Char) → drop i text ≡ x ∷ rest → mark x ≢ opening → Fails i
  Fails-closed i x rest d n e (l, m, p) = absurd (
      n (bracket_first (suc e - i) x rest (slice text i (suc e)) p (ap (take (suc e - i)) (sym d))))

  Fails-unfound : (i : ℕ) → find_balanced_array_end text i ≡ none → Fails i
  Fails-unfound i h e p = let found = find-IsArrayAt text i e p in cc

  Fails-found :
      (i e : ℕ)
      → find_balanced_array_end text i ≡ some e
      → array_of parse array (slice text i (suc e)) ≡ none
      → Fails i
  Fails-found i e h k d p =
      let same : e ≡ d = some_injective (sym h ∙ find-IsArrayAt text i d p) in
      subst (λ v. array_of parse array (slice text i (suc v)) ≡ none) same k

  Fails-end : (i : ℕ) → length text ≤ i → Fails i
  Fails-end i h e (l, m, p) = absurd (omega arith)

  abbrev Outcome : ℕ → Option Items → Type 0
  Outcome i none = (j : ℕ) → i ≤ j → Fails j
  Outcome i (some a) = IsFirst i a

  Fails-from : (i j : ℕ) → Fails i → (suc i ≤ j → Fails j) → i ≤ j → Fails j
  Fails-from i j h k l = elim (le-cases i j l) [ inl e ↦ subst Fails e h | inr m ↦ k m ]

  one_later : (i : ℕ) (o : Option Items) → Fails i → Outcome (suc i) o → Outcome i o
  one_later i none h k = λ j l. Fails-from i j h (k j) l
  one_later i (some a) h (n, e, l, p, q, k) =
      (n, e, omega arith, p, q, λ j m m'. Fails-from i j h (λ b. k j b m') m)

  candidate-Fails :
      (i : ℕ) (f : Option ℕ)
      → find_balanced_array_end text i ≡ f
      → candidate_at parse array text i f ≡ none
      → Fails i
  candidate-Fails i none h k = Fails-unfound i h
  candidate-Fails i (some e) h k = Fails-found i e h k

  candidate-IsFirst :
      (i : ℕ) (x : Char) (rest : List Char) (a : Items) (f : Option ℕ)
      → drop i text ≡ x ∷ rest
      → mark x ≡ opening
      → find_balanced_array_end text i ≡ f
      → candidate_at parse array text i f ≡ some a
      → IsFirst i a
  candidate-IsFirst i x rest a none d m h k = cc
  candidate-IsFirst i x rest a (some e) d m h k = (
    i,
    e,
    omega arith,
    (find_balanced_array_end-some_iff text i e x rest d m).0 h,
    k,
    λ j l n. absurd (omega arith),
  )

  or_else-Outcome :
      (i : ℕ) (x : Char) (rest : List Char) (o later : Option Items)
      → drop i text ≡ x ∷ rest
      → mark x ≡ opening
      → candidate_at parse array text i (find_balanced_array_end text i) ≡ o
      → Outcome (suc i) later
      → Outcome i (or_else parse array o later)
  or_else-Outcome i x rest none later d m h k =
      one_later i later (candidate-Fails i (find_balanced_array_end text i) refl h) k
  or_else-Outcome i x rest (some a) later d m h k =
      candidate-IsFirst i x rest a (find_balanced_array_end text i) d m refl h

  at_opening :
      (x : Char) (rest : List Char) (i : ℕ)
      → mark x ≡ opening
      → extract_from parse array text (x ∷ rest) i
        ≡ or_else parse array
            (candidate_at parse array text i (find_balanced_array_end text i))
            (extract_from parse array text rest (suc i))
  unfolding extract_from
  at_opening x rest i h = ground arith

  at_other :
      (x : Char) (rest : List Char) (i : ℕ)
      → mark x ≢ opening
      → extract_from parse array text (x ∷ rest) i ≡ extract_from parse array text rest (suc i)
  unfolding extract_from
  at_other x rest i h = ground arith

  extract_from-Outcome :
      (rest : List Char) (i : ℕ)
      → drop i text ≡ rest
      → Outcome i (extract_from parse array text rest i)
  unfolding extract_from
  extract_from-Outcome [] i d = λ j l.
      Fails-end j (
        let n = length-drop i text in let z : length (drop i text) ≡ 0 = ap length d in omega arith)
  extract_from-Outcome (x ∷ rest) i d =
      let later = extract_from-Outcome rest (suc i) (drop_next text i x rest d) in
      elim (opening-cases (mark x)) [
        | inl m ↦ subst (Outcome i) (sym (at_opening x rest i m)) (
            or_else-Outcome i x rest
              (candidate_at parse array text i (find_balanced_array_end text i))
              (extract_from parse array text rest (suc i)) d m refl later)
        | inr m ↦ subst (Outcome i) (sym (at_other x rest i m)) (
            one_later i (extract_from parse array text rest (suc i)) (Fails-closed i x rest d m)
              later)
      ]

  IsFirst-array : (a : Items) → extract_json_array parse array text ≡ some a → IsFirst 0 a
  unfolding extract_json_array
  IsFirst-array a h = subst (Outcome 0) h (extract_from-Outcome text 0 refl)

  nothing-Fails : extract_json_array parse array text ≡ none → (i : ℕ) → Fails i
  unfolding extract_json_array
  nothing-Fails h i = subst (Outcome 0) h (extract_from-Outcome text 0 refl) i (omega arith)

  not-IsFirst : (a : Items) → ((i : ℕ) → Fails i) → ¬ IsFirst 0 a
  not-IsFirst a h (i, e, l, p, q, k) = let n = h i e p in cc

  same_start :
      (i e d : ℕ) (a b : Items)
      → IsArrayAt text i e
      → IsArrayAt text i d
      → array_of parse array (slice text i (suc e)) ≡ some a
      → array_of parse array (slice text i (suc d)) ≡ some b
      → a ≡ b
  same_start i e d a b p q h k =
      let same : e ≡ d =
        some_injective (sym (find-IsArrayAt text i e p) ∙ find-IsArrayAt text i d q) in
      some_injective (sym h ∙ (ap (λ v. array_of parse array (slice text i (suc v))) same ∙ k))

  first_unique : (a b : Items) → IsFirst 0 a → IsFirst 0 b → a ≡ b
  first_unique a b (i, e, _, p, q, k) (j, d, _, r, t, m) = elim (order i j) [
    | inl l ↦ let n = m i (omega arith) l e p in cc
    | inr (inl l) ↦
        same_start j e d a b (subst (λ v. IsArrayAt text v e) l p) r
          (subst (λ v. array_of parse array (slice text v (suc e)) ≡ some a) l q) t
    | inr (inr l) ↦ let n = k j (omega arith) l d r in cc
  ]

  -- `extractJsonArray` answers an array `a` exactly when some bracketed array of the text parses to
  -- `a` and no bracketed array that begins before it parses to an array.
  pub extract_json_array-some_iff :
      (a : Items) → (extract_json_array parse array text ≡ some a) ↔ IsFirst 0 a
  extract_json_array-some_iff a = (
    IsFirst-array a,
    λ h. elim (Option-cases (extract_json_array parse array text)) [
      | inl e ↦ absurd (not-IsFirst a (λ i. nothing-Fails e i) h)
      | inr (b, e) ↦ e ∙ ap some (first_unique b a (IsFirst-array b e) h)
    ],
  )

  -- `extractJsonArray` answers null exactly when no bracketed array of the text parses to an array.
  extract_json_array-none_iff : (extract_json_array parse array text ≡ none) ↔ ((i : ℕ) → Fails i)
  unfolding extract_json_array
  extract_json_array-none_iff = (
    nothing-Fails,
    λ h. elim (Option-cases (extract_json_array parse array text)) [
      | inl e ↦ e
      | inr (a, e) ↦ absurd (not-IsFirst a h (IsFirst-array a e))
    ],
  )
