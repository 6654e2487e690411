-- ===== src/Orchestrator/Brackets.antt =====
-- Balanced text as a grammar, and the scan on it.
use mathlib.Core.List.{append_assoc}
use autodev_harness.Common.{
  ◌≢◌, ℕ, suc, ◌+◌, ◌<◌, Char, some, List, [], ◌∷◌, ◌++◌, ◌≡◌, refl, ap, ◌∙◌, arith, length,
  length-append,
}
use autodev_harness.Orchestrator.{
  quote, backslash, opening, closing, mark, Mode, outside, in_string, skipped, scan,
}

-- The rest of a string literal, its closing quote included.
pub data Literal : List Char → Type 0 where
  closed : (q : Char) → mark q ≡ quote → Literal (q ∷ [])
  escaped : (b c : Char) (s : List Char) → mark b ≡ backslash → Literal s → Literal (b ∷ c ∷ s)
  plain :
      (c : Char) (s : List Char) → mark c ≢ quote → mark c ≢ backslash → Literal s → Literal (c ∷ s)

-- Text whose brackets match each other, those in string literals left out.
pub data Balanced : List Char → Type 0 where
  nothing : Balanced []
  character :
      (c : Char) (s : List Char)
      → mark c ≢ quote
      → mark c ≢ opening
      → mark c ≢ closing
      → Balanced s
      → Balanced (c ∷ s)
  literal :
      (q : Char) (l s : List Char) → mark q ≡ quote → Literal l → Balanced s → Balanced (q ∷ l ++ s)
  array :
      (b e : Char) (s t : List Char)
      → mark b ≡ opening
      → mark e ≡ closing
      → Balanced s
      → Balanced t
      → Balanced (b ∷ s ++ e ∷ t)

-- One step of the scan on each mark.
module _ (x : Char) (xs : List Char) (i o c : ℕ) where
  pub skipped_one : scan (x ∷ xs) skipped i o c ≡ scan xs in_string (suc i) o c
  unfolding scan
  skipped_one = refl

  pub in_string-quote : mark x ≡ quote → scan (x ∷ xs) in_string i o c ≡ scan xs outside (suc i) o c
  unfolding scan
  in_string-quote h = ground arith

  pub in_string-backslash :
      mark x ≡ backslash → scan (x ∷ xs) in_string i o c ≡ scan xs skipped (suc i) o c
  unfolding scan
  in_string-backslash h = ground arith

  pub in_string-other :
      mark x ≢ quote
      → mark x ≢ backslash
      → scan (x ∷ xs) in_string i o c ≡ scan xs in_string (suc i) o c
  unfolding scan
  in_string-other h k = ground arith

  pub outside-quote : mark x ≡ quote → scan (x ∷ xs) outside i o c ≡ scan xs in_string (suc i) o c
  unfolding scan
  outside-quote h = ground arith

  pub outside-opening :
      mark x ≡ opening → scan (x ∷ xs) outside i o c ≡ scan xs outside (suc i) (suc o) c
  unfolding scan
  outside-opening h = ground arith

  pub outside-closing :
      mark x ≡ closing → suc c < o → scan (x ∷ xs) outside i o c ≡ scan xs outside (suc i) o (suc c)
  unfolding scan
  outside-closing h k = ground arith

  pub outside-last : mark x ≡ closing → o ≡ suc c → scan (x ∷ xs) outside i o c ≡ some i
  unfolding scan
  outside-last h k = ground arith

  pub outside-other :
      mark x ≢ quote
      → mark x ≢ opening
      → mark x ≢ closing
      → scan (x ∷ xs) outside i o c ≡ scan xs outside (suc i) o c
  unfolding scan
  outside-other h k l = ground arith

-- Only the depth matters.
scan_shift : (t : List Char) (m : Mode) (i o c : ℕ) → scan t m i (suc o) (suc c) ≡ scan t m i o c
unfolding scan
scan_shift [] m i o c = refl
scan_shift (x ∷ xs) skipped i o c = scan_shift xs in_string (suc i) o c
scan_shift (x ∷ xs) in_string i o c = ground (
  arith,
  scan_shift xs in_string (suc i) o c,
  scan_shift xs outside (suc i) o c,
  scan_shift xs skipped (suc i) o c,
)
scan_shift (x ∷ xs) outside i o c = ground (
  arith,
  scan_shift xs in_string (suc i) o c,
  scan_shift xs outside (suc i) o c,
  scan_shift xs outside (suc i) (suc o) c,
  scan_shift xs outside (suc i) o (suc c),
)

-- The same scan, its numbers given by equations.
from_here : (t : List Char) (m : Mode) (o c : ℕ) {i j : ℕ} → i ≡ j → scan t m i o c ≡ scan t m j o c
from_here t m o c e = ap (λ k. scan t m k o c) e

-- The scan passes over a literal and over balanced text.
scan-Literal :
    (l t : List Char) (i j o c : ℕ)
    → Literal l
    → length l + i ≡ j
    → scan (l ++ t) in_string i o c ≡ scan t outside j o c
scan-Literal _ t i j o c (closed q h) e =
    in_string-quote q t i o c h ∙ from_here t outside o c (omega arith)
scan-Literal _ t i j o c (escaped b y s h p) e =
    in_string-backslash b (y ∷ s ++ t) i o c h
    ∙ (skipped_one y (s ++ t) (suc i) o c ∙ scan-Literal s t (suc (suc i)) j o c p (omega arith))
scan-Literal _ t i j o c (plain y s h k p) e =
    in_string-other y (s ++ t) i o c h k ∙ scan-Literal s t (suc i) j o c p (omega arith)

pub scan-Balanced :
    (s t : List Char) (i j o c : ℕ)
    → Balanced s
    → c < o
    → length s + i ≡ j
    → scan (s ++ t) outside i o c ≡ scan t outside j o c
scan-Balanced _ t i j o c nothing l e = from_here t outside o c (omega arith)
scan-Balanced _ t i j o c (character y s h k m p) l e =
    outside-other y (s ++ t) i o c h k m ∙ scan-Balanced s t (suc i) j o c p l (omega arith)
scan-Balanced _ t i j o c (literal q lit s h p b) l e =
    ap (λ u. scan (q ∷ u) outside i o c) (append_assoc lit s t)
    ∙ (outside-quote q (lit ++ (s ++ t)) i o c h
        ∙ (scan-Literal lit (s ++ t) (suc i) (length lit + suc i) o c p refl
            ∙ scan-Balanced s t (length lit + suc i) j o c b l
                (let n = length-append lit s in omega arith)))
scan-Balanced _ t i j o c (array b x s u h k p r) l e =
    ap (λ v. scan (b ∷ v) outside i o c) (append_assoc s (x ∷ u) t)
    ∙ (outside-opening b (s ++ (x ∷ (u ++ t))) i o c h
        ∙ (scan-Balanced s (x ∷ (u ++ t)) (suc i) (length s + suc i) (suc o) c p (omega arith) refl
            ∙ (outside-closing x (u ++ t) (length s + suc i) (suc o) c k (omega arith)
                ∙ (scan_shift (u ++ t) outside (suc (length s + suc i)) o c
                    ∙ scan-Balanced u t (suc (length s + suc i)) j o c r l
                        (let n = length-append s (x ∷ u) in omega arith)))))
