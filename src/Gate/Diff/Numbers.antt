-- ===== src/Gate/Diff/Numbers.antt =====
-- The line numbers that the walk records are those of the lines that the hunks add to the new file.
use autodev_harness.Common.{
  ℕ, zero, suc, ◌-◌, length, String, Bool, true, false, ◌&&◌, ◌||◌, Option, none, some, List, [],
  ◌∷◌, ◌++◌, ◌≡◌, refl, inl, inr, ◌==◌, eq_iff, nat_eq, leb, map, any, if◌then◌else◌, arith,
  Bool-cases, le-cases,
}
use autodev_harness.Util.Text.{starts_with}
use autodev_harness.Gate.Diff.Refusal.{ok}
use autodev_harness.Gate.Diff.Headers.{then_read, HunkHeader, hunk_header, expect}
use autodev_harness.Gate.Diff.Walk.{
  Walk, Added, added_to, removed_from, context_of, add_line, add_number, add_to_current, owes,
  record_line, open_hunk,
}
use autodev_harness.Gate.Diff.Lines.{walk_lines, header_line}
use autodev_harness.Gate.Diff.Bodies.{
  BodyLine, kept, added, removed, marker, text_of, old_side, new_side, after_body, body_ahead,
}

-- The number is in the set of the path.
abbrev pub has_number : String → ℕ → Added → Bool
has_number p n [] = false
has_number p n ((q, ns) ∷ rest) = if q == p then any (nat_eq n) ns else has_number p n rest

abbrev pub is_current : String → Option String → Bool
is_current p none = false
is_current p (some q) = q == p

abbrev pub adds : List (Bool × String) → ℕ → Bool
adds [] i = false
adds ((b, l) ∷ ls) zero = b
adds ((b, l) ∷ ls) (suc i) = adds ls i

-- Line `n` of the new file is one that the hunk adds, whose lines begin at `start` there.
abbrev pub is_added_at : ℕ → List BodyLine → ℕ → Bool
is_added_at start body n = leb start n && adds (new_side body) (n - start)

any-append :
    (n m : ℕ) (ns : List ℕ) → any (nat_eq n) (ns ++ m ∷ []) ≡ (any (nat_eq n) ns || nat_eq n m)
any-append n m [] = ground arith
any-append n m (k ∷ ns) = ground (arith, any-append n m ns)

held :
    (n m : ℕ) (ns : List ℕ)
    → any (nat_eq m) ns ≡ true
    → any (nat_eq n) ns ≡ (any (nat_eq n) ns || nat_eq n m)
held n m [] h = cc
held n m (k ∷ ns) h = ground (arith, held n m ns)

add_number_lem :
    (n m : ℕ) (ns : List ℕ) → any (nat_eq n) (add_number m ns) ≡ (any (nat_eq n) ns || nat_eq n m)
add_number_lem n m ns = elim (Bool-cases (any (nat_eq m) ns)) [
  | inl old ↦ rw old (held n m ns old)
  | inr new ↦ rw new (any-append n m ns)
]

has_number-add_line :
    (p q : String) (n m : ℕ) (a : Added)
    → has_number p n (add_line q m a) ≡ (has_number p n a || ((q == p) && nat_eq n m))
unfolding add_line
has_number-add_line p q n m [] = ground arith
has_number-add_line p q n m ((r, ns) ∷ rest) = ground (
  arith,
  has_number-add_line p q n m rest,
  add_number_lem n m ns,
  eq_iff r q,
  eq_iff r p,
  eq_iff q p,
)

has_number-add_to_current :
    (p : String) (o : Option String) (n m : ℕ) (a : Added)
    → has_number p n (add_to_current o m a) ≡ (has_number p n a || (is_current p o && nat_eq n m))
has_number-add_to_current p none n m a = ground arith
has_number-add_to_current p (some q) n m a = has_number-add_line p q n m a

adds_at :
    (start n : ℕ) (b : Bool) (l : String) (ls : List (Bool × String))
    → (leb start n && adds ((b, l) ∷ ls) (n - start))
      ≡ ((b && nat_eq n start) || (leb (suc start) n && adds ls (n - suc start)))
adds_at start n b l ls = elim (Bool-cases (leb start n)) [
  | inr below ↦ ground arith
  | inl le ↦ elim (le-cases start n (ground arith)) [
    | inl e ↦ let z : n - start ≡ 0 = omega arith in rw z (ground arith)
    | inr above ↦ let z : n - start ≡ suc (n - suc start) = omega arith in rw z (ground arith)
  ]
]

-- A body adds its numbers to the current path, and to no other.
has_number-after_body :
    (p : String) (n : ℕ) (body : List BodyLine) (s : Walk)
    → has_number p n (after_body body s).added
      ≡ (has_number p n s.added || (is_current p s.current_path && is_added_at s.cursor body n))
unfolding added_to removed_from context_of record_line
has_number-after_body p n [] s = ground arith
has_number-after_body p n (kept l ∷ body) s = ground (
  arith,
  has_number-after_body p n body (context_of s),
  adds_at s.cursor n false l (new_side body),
)
has_number-after_body p n (added l ∷ body) s = ground (
  arith,
  has_number-after_body p n body (added_to (text_of (added l)) s),
  adds_at s.cursor n true l (new_side body),
  has_number-add_to_current p s.current_path n s.cursor s.added,
)
has_number-after_body p n (removed l ∷ body) s =
    has_number-after_body p n body (removed_from (text_of (removed l)) s)
has_number-after_body p n (marker ∷ body) s = has_number-after_body p n body s

expected {ℓ} :
    {A : Type ℓ} (p line : String) (f : String → Option A) {a : A}
    → then_read (expect p line) f ≡ some a
    → starts_with line p ≡ true
unfolding expect
expected p line f h = elim (Bool-cases (starts_with line p)) [
  | inl e ↦ e
  | inr e ↦ let h = rw e at h in absurd cc
]

at_signs :
    (line : String) {h : HunkHeader} → hunk_header line ≡ some h → starts_with line "@@ -" ≡ true
unfolding hunk_header
at_signs line h = expected "@@ -" line _ h

not_header :
    (line : String)
    → starts_with line "@@ -" ≡ true
    → (starts_with line "--- " ≡ false) × (starts_with line "+++ " ≡ false)
unfolding starts_with
not_header String.[] h = (cc, cc)
not_header (String.◌∷◌ c l) h = ground arith

current_path-after_body :
    (body : List BodyLine) (s : Walk) → (after_body body s).current_path ≡ s.current_path
unfolding added_to removed_from context_of record_line
current_path-after_body [] s = refl
current_path-after_body (kept l ∷ body) s = current_path-after_body body (context_of s)
current_path-after_body (added l ∷ body) s =
    current_path-after_body body (added_to (text_of (added l)) s)
current_path-after_body (removed l ∷ body) s =
    current_path-after_body body (removed_from (text_of (removed l)) s)
current_path-after_body (marker ∷ body) s = current_path-after_body body s

module _ (utf8 : List ℕ → Option String) where
  -- A body of the sizes of the header follows, and behind it the walk goes on outside of all hunks
  -- from `t`, under the same path, with the numbers of the body added to that path and to no other.
  pub HunkIsRead : Walk → HunkHeader → List String → Walk → Type 0
  HunkIsRead s h ls w =
      (body : List BodyLine) × (rest : List String) × (t : Walk) × (ls ≡ map text_of body ++ rest)
      × (length (old_side body) ≡ h.old_count)
      × (length (new_side body) ≡ h.new_count)
      × (walk_lines utf8 rest t ≡ ok w)
      × (owes t ≡ false)
      × (t.current_path ≡ s.current_path)
      × ((p : String) (n : ℕ)
          → has_number p n t.added ≡ (
              has_number p n s.added
              || (is_current p s.current_path && is_added_at h.new_start body n)))

  -- If a walk answers, then behind each hunk header that it meets outside of a hunk there stand
  -- exactly as many lines of the old and of the new file as the header says, whatever they look
  -- like, and what the hunk records are the numbers, counted from the header's start, of those lines
  -- of the new file that it adds.
  pub hunk-HunkIsRead :
      (line : String) (ls : List String) (s w : Walk) (h : HunkHeader)
      → owes s ≡ false
      → hunk_header line ≡ some h
      → walk_lines utf8 (line ∷ ls) s ≡ ok w
      → HunkIsRead s h ls w
  unfolding walk_lines header_line open_hunk HunkIsRead
  hunk-HunkIsRead line ls s w h free is_hunk e =
      let (no_old, no_new) = not_header line (at_signs line is_hunk) in
      let opened : walk_lines utf8 ls (open_hunk h s) ≡ ok w =
        rw (free, no_old, no_new, is_hunk) at e in
      let (body, rest, (split, old, new, end, done)) =
        body_ahead utf8 ls (open_hunk h s) w opened in
      (
        body,
        rest,
        after_body body (open_hunk h s),
        split,
        old,
        new,
        end,
        done,
        current_path-after_body body (open_hunk h s),
        λ p n. has_number-after_body p n body (open_hunk h s),
      )
