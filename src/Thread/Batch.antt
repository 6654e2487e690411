-- ===== src/Thread/Batch.antt =====
-- The removal in one go, and where it agrees with the stream.
use mathlib.Core.List.{append_assoc, append-nil}
use mathlib.Core.Path.{subst}
use autodev_harness.Common.{
  ℕ, zero, suc, ◌+◌, ◌≤◌, ◌<◌, Char, code, true, false, Option, none, some, List, [], ◌∷◌, ◌++◌,
  ◌≡◌, refl, ap, ◌∙◌, sym, length, take, drop, arith, length-drop, take-drop, ◌⊎◌, inl, inr,
}
use autodev_harness.Util.Chars.{Text, begins}
use autodev_harness.Thread.{
  fence_open, fence_close, index_of, streamed, before_open, without_closed, cut_to_close,
  cut_from_open, strip_fenced_json,
}
use autodev_harness.Thread.Scans.{index_of-length, none_cases, begins-append, begins-length}
use autodev_harness.Thread.Removal.{removed, in_prose, removed_prose_short}
use autodev_harness.Thread.Parts.{
  removed-none, removed_fence-none, removed-some, removed_fence-some, begins_at,
}
use autodev_harness.Thread.Streams.{concat, fresh, streamed-removed}

-- Nothing, or a fence that does not close.
abbrev IsTail : Text → Type 0
IsTail t = (t ≡ []) ⊎ (begins t fence_open ≡ true)

abbrev Splits : Text → Text → Type 0
Splits whole prose = (tail : Text) × IsTail tail × (whole ≡ prose ++ tail)

module _ (again : Text → Text) (text : Text)
    (rest : (s : Text) → length s < length text → Splits (again s) (removed (in_prose 0) s)) where
  cut_to_close-Splits :
      (k : ℕ) (o : Option ℕ)
      → index_of fence_open text ≡ some k
      → index_of fence_close (drop (k + length fence_open) text) ≡ o
      → Splits (cut_to_close again text k o) (removed (in_prose 0) text)
  cut_to_close-Splits k none e f = (
    drop k text,
    inr (begins_at fence_open text k e),
    sym (
        ap (λ x. x ++ drop k text)
          (removed-some text k e
            ∙ (ap (λ x. take k text ++ x) (removed_fence-none (drop (k + length fence_open) text) f)
                ∙ append-nil (take k text)))
        ∙ take-drop k text),
  )
  cut_to_close-Splits k (some m) e f =
      let size = length-drop (k + length fence_open) text in
      let l = index_of-length fence_open text k e in
      let more = length-drop (m + length fence_close) (drop (k + length fence_open) text) in
      let (tail, t, split) =
        rest (drop (m + length fence_close) (drop (k + length fence_open) text)) (omega arith) in
      (
        tail,
        t,
        ap (λ x. take k text ++ x) split
            ∙ (sym (
                  append_assoc (take k text)
                    (removed (in_prose 0)
                      (drop (m + length fence_close) (drop (k + length fence_open) text)))
                    tail)
                ∙ ap (λ x. x ++ tail)
                    (sym (
                      removed-some text k e
                      ∙ ap (λ x. take k text ++ x)
                          (removed_fence-some (drop (k + length fence_open) text) m f)))),
      )

  cut_from_open-Splits :
      (o : Option ℕ)
      → index_of fence_open text ≡ o
      → Splits (cut_from_open again text o) (removed (in_prose 0) text)
  cut_from_open-Splits none e =
      ([], inl refl, sym (append-nil (removed (in_prose 0) text) ∙ removed-none text e))
  cut_from_open-Splits (some k) e =
      cut_to_close-Splits k (index_of fence_close (drop (k + length fence_open) text)) e refl

without_closed-Splits :
    (fuel : ℕ) (text : Text)
    → length text ≤ fuel
    → Splits (without_closed fuel text) (removed (in_prose 0) text)
unfolding without_closed
without_closed-Splits zero text l = (
  [],
  inl refl,
  sym (append-nil (removed (in_prose 0) text) ∙ removed_prose_short text (omega arith)),
)
without_closed-Splits (suc fuel) text l =
    cut_from_open-Splits (without_closed fuel) text
      (λ s k. without_closed-Splits fuel s (omega arith)) (index_of fence_open text) refl

-- A mark does not begin in one text and end in a fence behind it.
le_or : (a b : ℕ) → (a ≤ b) ⊎ (b < a)
le_or a b = ground arith

ticks_straddle :
    (s : Text) (x y z : Char) (r : Text)
    → 0 < length s
    → length s ≤ 6
    → code x ≡ 96
    → code y ≡ 96
    → code z ≡ 96
    → begins (s ++ x ∷ y ∷ z ∷ r) fence_open ≡ false
ticks_straddle [] x y z r l m p q w = absurd (omega arith)
ticks_straddle (a ∷ []) x y z r l m p q w = ground arith
ticks_straddle (a ∷ b ∷ []) x y z r l m p q w = ground arith
ticks_straddle (a ∷ b ∷ c ∷ []) x y z r l m p q w = ground arith
ticks_straddle (a ∷ b ∷ c ∷ d ∷ []) x y z r l m p q w = ground arith
ticks_straddle (a ∷ b ∷ c ∷ d ∷ e ∷ []) x y z r l m p q w = ground arith
ticks_straddle (a ∷ b ∷ c ∷ d ∷ e ∷ f ∷ []) x y z r l m p q w = ground arith
ticks_straddle (a ∷ b ∷ c ∷ d ∷ e ∷ f ∷ g ∷ s) x y z r l m p q w = absurd (omega arith)

no_straddle :
    (s t : Text)
    → 0 < length s
    → length s ≤ 6
    → begins t fence_open ≡ true
    → begins (s ++ t) fence_open ≡ false
no_straddle s [] l m h = cc
no_straddle s (x ∷ []) l m h = let k = begins-length (x ∷ []) fence_open h in absurd (omega arith)
no_straddle s (x ∷ y ∷ []) l m h =
    let k = begins-length (x ∷ y ∷ []) fence_open h in absurd (omega arith)
no_straddle s (x ∷ y ∷ z ∷ r) l m h =
    ticks_straddle s x y z r l m (ground arith) (ground arith) (ground arith)

before_open_at : (t : Text) → IsTail t → before_open t ≡ []
unfolding before_open
before_open_at [] h = refl
before_open_at (c ∷ t) (inl e) = cc
before_open_at (c ∷ t) (inr h) = ground arith

before_open_step :
    (c : Char) (s : Text)
    → begins (c ∷ s) fence_open ≡ false
    → before_open (c ∷ s) ≡ c ∷ before_open s
unfolding before_open
before_open_step c s h = ground arith

-- No mark begins at the first of the characters before the tail.
not_here :
    (c : Char) (s t : Text)
    → begins (c ∷ s) fence_open ≡ false
    → IsTail t
    → begins (c ∷ (s ++ t)) fence_open ≡ false
not_here c s t n (inl e) =
    subst (λ u. begins (c ∷ u) fence_open ≡ false) (sym (ap (λ u. s ++ u) e ∙ append-nil s)) n
not_here c s t n (inr h) = elim (le_or (length (c ∷ s)) 6) [
  | inl l ↦ no_straddle (c ∷ s) t (omega arith) l h
  | inr l ↦ begins-append (c ∷ s) t fence_open (omega arith) ∙ n
]

before_open-tail : (s t : Text) → index_of fence_open s ≡ none → IsTail t → before_open (s ++ t) ≡ s
unfolding index_of
before_open-tail [] t e h = before_open_at t h
before_open-tail (c ∷ s) t e h =
    let (n, o) = none_cases (begins (c ∷ s) fence_open) (index_of fence_open s) e in
    before_open_step c (s ++ t) (not_here c s t n h) ∙ ap (λ u. c ∷ u) (before_open-tail s t o h)

-- Where the text without its fences holds no mark that its parts make up together, the removal in one
-- go is what is streamed, however the text is cut into chunks.
pub strip_fenced_json-streamed :
    (chunks : List Text)
    → index_of fence_open (streamed fresh chunks) ≡ none
    → strip_fenced_json (concat chunks) ≡ streamed fresh chunks
unfolding strip_fenced_json
strip_fenced_json-streamed chunks e =
    let (tail, t, split) =
      without_closed-Splits (length (concat chunks)) (concat chunks) (omega arith) in
    ap before_open split
    ∙ (before_open-tail (removed (in_prose 0) (concat chunks)) tail
          (sym (ap (index_of fence_open) (streamed-removed chunks)) ∙ e) t
        ∙ sym (streamed-removed chunks))

-- Two ways to cut the same text into chunks stream the same.
streamed-concat :
    (chunks others : List Text)
    → concat chunks ≡ concat others
    → streamed fresh chunks ≡ streamed fresh others
streamed-concat chunks others e =
    streamed-removed chunks ∙ (ap (removed (in_prose 0)) e ∙ sym (streamed-removed others))
