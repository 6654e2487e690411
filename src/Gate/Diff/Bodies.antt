-- ===== src/Gate/Diff/Bodies.antt =====
-- The body of a hunk, described by its lines, and what the walk does on one.
use mathlib.Core.Path.{subst}
use text.Mathlib.TextEquality.{Char-path}
use autodev_harness.Common.{
  length, ℕ, ◌≤◌, String, Bool, true, false, ◌||◌, Option, List, [], ◌∷◌, ◌++◌, ◌≡◌, refl, ap, ◌∙◌,
  inl, inr, ◌==◌, eq_iff, nat_eq, Char, map, if◌then◌else◌, arith, Bool-cases,
}
use autodev_harness.Util.Text.{starts_with}
use autodev_harness.Gate.Diff.Refusal.{
  Refusal, bad_marker, too_many_context, too_many_added, too_many_removed, ok, refused,
  answer_of_parts,
}
use autodev_harness.Gate.Diff.Walk.{
  Walk, added_to, removed_from, context_of, body_line, no_newline, owes, record_line,
}
use autodev_harness.Gate.Diff.Lines.{walk_lines}

pub data BodyLine : Type 0 where
  kept : String → BodyLine
  added : String → BodyLine
  removed : String → BodyLine
  marker : BodyLine

-- The line as the diff writes it.
abbrev pub text_of : BodyLine → String
text_of (kept l) = String.◌∷◌ " " l
text_of (added l) = String.◌∷◌ "+" l
text_of (removed l) = String.◌∷◌ "-" l
text_of marker = no_newline

-- The lines of the old file and of the new one.
abbrev pub old_side : List BodyLine → List String
old_side [] = []
old_side (kept l ∷ body) = l ∷ old_side body
old_side (added l ∷ body) = old_side body
old_side (removed l ∷ body) = l ∷ old_side body
old_side (marker ∷ body) = old_side body

-- Each with whether the hunk adds it.
abbrev pub new_side : List BodyLine → List (Bool × String)
new_side [] = []
new_side (kept l ∷ body) = (false, l) ∷ new_side body
new_side (added l ∷ body) = (true, l) ∷ new_side body
new_side (removed l ∷ body) = new_side body
new_side (marker ∷ body) = new_side body

abbrev pub after_line : BodyLine → Walk → Walk
after_line (kept l) s = context_of s
after_line (added l) s = added_to (text_of (added l)) s
after_line (removed l) s = removed_from (text_of (removed l)) s
after_line marker s = s

abbrev pub after_body : List BodyLine → Walk → Walk
after_body [] s = s
after_body (b ∷ body) s = after_body body (after_line b s)

-- The hunk still owes what the line takes.
abbrev pub Fits : BodyLine → Walk → Type 0
Fits (kept l) s = (1 ≤ s.remaining_old) × (1 ≤ s.remaining_new)
Fits (added l) s = 1 ≤ s.remaining_new
Fits (removed l) s = 1 ≤ s.remaining_old
Fits marker s = Unit

first_char :
    (c : Char) (line : String)
    → starts_with line (String.◌∷◌ c String.[]) ≡ true
    → (l : String) × (line ≡ String.◌∷◌ c l)
unfolding starts_with
first_char c String.[] h = cc
first_char c (String.◌∷◌ d l) h = (l, ap (λ e. String.◌∷◌ e l) (Char-path d c (ground arith)))

unrefused :
    (b : Bool) (r : Refusal) (m t : Walk)
    → (if b then refused r else ok m) ≡ ok t
    → (b ≡ false) × (t ≡ m)
unrefused true r m t h = cc
unrefused false r m t h = (refl, cc)

unrefused_else :
    (b : Bool) (r : Refusal) (m t : Walk)
    → (if b then ok m else refused r) ≡ ok t
    → (b ≡ true) × (t ≡ m)
unrefused_else true r m t h = (refl, cc)
unrefused_else false r m t h = cc

abbrev IsLineOf : String → Walk → Walk → Type 0
IsLineOf line s t = (b : BodyLine) × (line ≡ text_of b) × (t ≡ after_line b s) × Fits b s

as_added :
    (line : String) (s t : Walk)
    → starts_with line "+" ≡ true
    → (if nat_eq s.remaining_new 0 then refused too_many_added else ok (added_to line s)) ≡ ok t
    → IsLineOf line s t
as_added line s t p h =
    let (l, e) = first_char "+" line p in
    let (g, f) = unrefused (nat_eq s.remaining_new 0) _ (added_to line s) t h in
    (added l, e, f ∙ ap (λ x. added_to x s) e, ground arith)

as_removed :
    (line : String) (s t : Walk)
    → starts_with line "-" ≡ true
    → (if nat_eq s.remaining_old 0 then refused too_many_removed else ok (removed_from line s))
      ≡ ok t
    → IsLineOf line s t
as_removed line s t p h =
    let (l, e) = first_char "-" line p in
    let (g, f) = unrefused (nat_eq s.remaining_old 0) _ (removed_from line s) t h in
    (removed l, e, f ∙ ap (λ x. removed_from x s) e, ground arith)

as_marker :
    (line : String) (s t : Walk)
    → (if line == no_newline then ok s else refused bad_marker) ≡ ok t
    → IsLineOf line s t
as_marker line s t h =
    let (g, f) = unrefused_else (line == no_newline) _ s t h in
    (marker, (eq_iff line no_newline).0 g, f, tt)

as_kept :
    (line : String) (s t : Walk)
    → starts_with line " " ≡ true
    → (if nat_eq s.remaining_old 0 || nat_eq s.remaining_new 0
        then refused too_many_context
        else ok (context_of s))
      ≡ ok t
    → IsLineOf line s t
as_kept line s t p h =
    let (l, e) = first_char " " line p in
    let (g, f) =
      unrefused (nat_eq s.remaining_old 0 || nat_eq s.remaining_new 0) _ (context_of s) t h in
    (kept l, e, f, (ground arith, ground arith))

-- A line that the walk takes inside a hunk is one of the four, and does what it stands for.
pub body_line-cases : (line : String) (s t : Walk) → body_line line s ≡ ok t → IsLineOf line s t
unfolding body_line
body_line-cases line s t h = elim (Bool-cases (starts_with line "+")) [
  | inl plus ↦ as_added line s t plus (rw plus at h)
  | inr no_plus ↦
      let h = rw no_plus at h in
      elim (Bool-cases (starts_with line "-")) [
        | inl minus ↦ as_removed line s t minus (rw minus at h)
        | inr no_minus ↦
            let h = rw no_minus at h in
            elim (Bool-cases (starts_with line "\\")) [
              | inl back ↦ as_marker line s t (rw back at h)
              | inr no_back ↦
                  let h = rw no_back at h in
                  elim (Bool-cases (starts_with line " ")) [
                    | inl blank ↦ as_kept line s t blank (rw blank at h)
                    | inr no_blank ↦ let h = rw no_blank at h in absurd cc
                  ]
            ]
      ]
]

Fits-sizes :
    (b : BodyLine) (body : List BodyLine) (s : Walk)
    → Fits b s
    → length (old_side body) ≡ (after_line b s).remaining_old
    → length (new_side body) ≡ (after_line b s).remaining_new
    → (length (old_side (b ∷ body)) ≡ s.remaining_old)
      × (length (new_side (b ∷ body)) ≡ s.remaining_new)
unfolding added_to removed_from context_of record_line
Fits-sizes (kept l) body s f e h = omega arith
Fits-sizes (added l) body s f e h = omega arith
Fits-sizes (removed l) body s f e h = omega arith
Fits-sizes marker body s f e h = omega arith

module _ (utf8 : List ℕ → Option String) where
  -- The rest of the diff begins with a body of the sizes that the hunk owes, and the walk goes on
  -- behind it from what the body does, outside of all hunks.
  abbrev pub IsBodyAhead : Walk → List String → Walk → List BodyLine → List String → Type 0
  IsBodyAhead s ls w body rest =
      (ls ≡ map text_of body ++ rest)
      × (length (old_side body) ≡ s.remaining_old)
      × (length (new_side body) ≡ s.remaining_new)
      × (walk_lines utf8 rest (after_body body s) ≡ ok w)
      × (owes (after_body body s) ≡ false)

  paid : (s : Walk) → owes s ≡ false → (0 ≡ s.remaining_old) × (0 ≡ s.remaining_new)
  paid s h = ground arith

  pub body_ahead :
      (ls : List String) (s w : Walk)
      → walk_lines utf8 ls s ≡ ok w
      → (body : List BodyLine) × (rest : List String) × IsBodyAhead s ls w body rest
  unfolding walk_lines
  body_ahead [] s w h = elim (Bool-cases (owes s)) [
    | inl e ↦ let h = rw e at h in absurd cc
    | inr e ↦ ([], [], (refl, (paid s e).0, (paid s e).1, h, e))
  ]
  body_ahead (line ∷ ls) s w h = elim (Bool-cases (owes s)) [
    | inr e ↦ ([], line ∷ ls, (refl, (paid s e).0, (paid s e).1, h, e))
    | inl e ↦
        let h = rw e at h in
        let (t, taken, later) = answer_of_parts (body_line line s) (walk_lines utf8 ls) h in
        let (b, is, f, fits) = body_line-cases line s t taken in
        let (body, rest, (split, old, new, end, done)) = body_ahead ls t w later in
        let (o, n) = Fits-sizes b body s fits (rw (← f) old) (rw (← f) new) in
        (
          b ∷ body,
          rest,
          (
            ap (λ l. l ∷ ls) is ∙ ap (λ (k : List String). text_of b ∷ k) split,
            o,
            n,
            subst (λ x. walk_lines utf8 rest (after_body body x) ≡ ok w) f end,
            subst (λ x. owes (after_body body x) ≡ false) f done,
          ),
        )
  ]
