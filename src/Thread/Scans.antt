-- ===== src/Thread/Scans.antt =====
-- Scans for a mark: what a buffer shows of the text that it begins.
use autodev_harness.Common.{
  ◌⊎◌, inl, inr, ℕ, zero, suc, ◌+◌, ◌-◌, ◌≤◌, Char, code, Bool, true, false, ◌&&◌, Option, none,
  some, [], ◌∷◌, ◌++◌, ◌≡◌, refl, ap, ◌∙◌, sym, length, take, drop, if◌then◌else◌, arith, nat_eq,
}
use autodev_harness.Util.Chars.{Text, begins}
use autodev_harness.Thread.{index_of, one_on}

begins-nil : (s : Text) → begins s [] ≡ true
begins-nil [] = refl
begins-nil (c ∷ s) = refl

pub begins-append : (s t p : Text) → length p ≤ length s → begins (s ++ t) p ≡ begins s p
begins-append [] t [] h = ground (arith, begins-nil t)
begins-append (c ∷ s) t [] h = refl
begins-append [] t (d ∷ p) h = absurd (omega arith)
begins-append (c ∷ s) t (d ∷ p) h =
    ap (λ b. nat_eq (code c) (code d) && b) (begins-append s t p (omega arith))

pub begins-length : (s p : Text) → begins s p ≡ true → length p ≤ length s
begins-length s [] h = omega arith
begins-length [] (d ∷ p) h = cc
begins-length (c ∷ s) (d ∷ p) h = ground (arith, begins-length s p)

drop-append : (n : ℕ) (s t : Text) → n ≤ length s → drop n (s ++ t) ≡ drop n s ++ t
drop-append zero s t h = refl
drop-append (suc n) [] t h = absurd (omega arith)
drop-append (suc n) (c ∷ s) t h = drop-append n s t (omega arith)

abbrev pub kept : Bool → Text → Text
kept true s = s
kept false s = []

kept-nil : (keep : Bool) → kept keep [] ≡ []
kept-nil true = refl
kept-nil false = refl

kept-cons :
    (keep : Bool) (c : Char) (s t : Text)
    → kept keep (c ∷ []) ++ (kept keep s ++ t) ≡ kept keep (c ∷ s) ++ t
kept-cons true c s t = refl
kept-cons false c s t = refl

add_suc : (j n : ℕ) → suc (j + n) ≡ suc j + n
add_suc j n = omega arith

pub some_cases :
    (b : Bool) (o : Option ℕ) (k : ℕ)
    → (if b then some 0 else one_on o) ≡ some k
    → ((b ≡ true) × (k ≡ 0)) ⊎ ((j : ℕ) × (b ≡ false) × (o ≡ some j) × (k ≡ suc j))
some_cases true o k e = inl (refl, ground arith)
some_cases false none k e = cc
some_cases false (some j) k e = inr (j, refl, refl, ground arith)

pub none_cases :
    (b : Bool) (o : Option ℕ) → (if b then some 0 else one_on o) ≡ none → (b ≡ false) × (o ≡ none)
none_cases true o e = cc
none_cases false none e = (refl, refl)
none_cases false (some j) e = cc

module _ (p : Text) where
  pub index_of-length : (b : Text) (k : ℕ) → index_of p b ≡ some k → k + length p ≤ length b
  unfolding index_of
  index_of-length [] k e = cc
  index_of-length (c ∷ s) k e = elim (some_cases (begins (c ∷ s) p) (index_of p s) k e) [
    | inl (h, z) ↦ let l = begins-length (c ∷ s) p h in omega arith
    | inr (j, _, h, z) ↦ let l = index_of-length s j h in omega arith
  ]

  -- Behind the last characters of a buffer without the mark there is room for a mark.
  begins_early :
      (c : Char) (s t : Text)
      → begins (c ∷ s) p ≡ false
      → length p ≤ suc (length s)
      → begins (c ∷ (s ++ t)) p ≡ false
  begins_early c s t h l = begins-append (c ∷ s) t p l ∙ h

-- `scan` reads characters up to a mark, emits them if `keep` says so, and hands on to `next`.
module _ (p : Text) (keep : Bool) (scan next : Text → Text)
    (hit : (c : Char) (s : Text)
      → begins (c ∷ s) p ≡ true
      → scan (c ∷ s) ≡ next (drop (length p) (c ∷ s)))
    (miss : (c : Char) (s : Text)
      → begins (c ∷ s) p ≡ false
      → scan (c ∷ s) ≡ kept keep (c ∷ []) ++ scan s) where
  at_once :
      (c : Char) (s t : Text) (k : ℕ)
      → begins (c ∷ s) p ≡ true
      → k ≡ 0
      → scan (c ∷ (s ++ t)) ≡ kept keep (take k (c ∷ s)) ++ next (drop (k + length p) (c ∷ s) ++ t)
  at_once c s t k h z =
      let l = begins-length (c ∷ s) p h in
      hit c (s ++ t) (begins-append (c ∷ s) t p l ∙ h)
      ∙ (ap next (drop-append (length p) (c ∷ s) t l)
          ∙ (sym (ap (λ x. x ++ next (drop (length p) (c ∷ s) ++ t)) (kept-nil keep))
              ∙ rw z (ap (λ n. kept keep [] ++ next (drop n (c ∷ s) ++ t)) (omega arith))))

  passed :
      (c : Char) (s t : Text) (j k : ℕ)
      → begins (c ∷ s) p ≡ false
      → index_of p s ≡ some j
      → k ≡ suc j
      → scan (s ++ t) ≡ kept keep (take j s) ++ next (drop (j + length p) s ++ t)
      → scan (c ∷ (s ++ t)) ≡ kept keep (take k (c ∷ s)) ++ next (drop (k + length p) (c ∷ s) ++ t)
  passed c s t j k n h z ih =
      let l = index_of-length p s j h in
      miss c (s ++ t) (begins_early p c s t n (omega arith))
      ∙ (ap (λ x. kept keep (c ∷ []) ++ x) ih
          ∙ (kept-cons keep c (take j s) (next (drop (j + length p) s ++ t))
              ∙ rw z (
                  ap (λ m. kept keep (c ∷ take j s) ++ next (drop m (c ∷ s) ++ t))
                    (add_suc j (length p)))))

  pub index_of-some :
      (b t : Text) (k : ℕ)
      → index_of p b ≡ some k
      → scan (b ++ t) ≡ kept keep (take k b) ++ next (drop (k + length p) b ++ t)
  unfolding index_of
  index_of-some [] t k e = cc
  index_of-some (c ∷ s) t k e = elim (some_cases (begins (c ∷ s) p) (index_of p s) k e) [
    | inl (h, z) ↦ at_once c s t k h z
    | inr (j, n, h, z) ↦ passed c s t j k n h z (index_of-some s t j h)
  ]

  nothing_safe :
      (n : ℕ) (b t : Text) → n ≡ 0 → scan (b ++ t) ≡ kept keep (take n b) ++ scan (drop n b ++ t)
  nothing_safe n b t z = rw z (sym (ap (λ x. x ++ scan (b ++ t)) (kept-nil keep)))

  pub index_of-none :
      (b t : Text) (n : ℕ)
      → index_of p b ≡ none
      → n ≡ length b - (length p - 1)
      → scan (b ++ t) ≡ kept keep (take n b) ++ scan (drop n b ++ t)
  unfolding index_of
  index_of-none [] t n e z = nothing_safe n [] t (omega arith)
  index_of-none (c ∷ s) t zero e z = nothing_safe zero (c ∷ s) t refl
  index_of-none (c ∷ s) t (suc n) e z =
      let (b, o) = none_cases (begins (c ∷ s) p) (index_of p s) e in
      miss c (s ++ t) (begins_early p c s t b (omega arith))
      ∙ (ap (λ x. kept keep (c ∷ []) ++ x) (index_of-none s t n o (omega arith))
          ∙ kept-cons keep c (take n s) (scan (drop n s ++ t)))
