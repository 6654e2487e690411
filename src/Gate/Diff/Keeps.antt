-- ===== src/Gate/Diff/Keeps.antt =====
-- The walk of a diff keeps every line that the flat reader keeps, as often.
use autodev_harness.Common.{
  ℕ, suc, ◌+◌, ◌-◌, ◌≤◌, String, Bool, Option, none, some, List, [], ◌∷◌, ◌++◌, ◌≡◌, ◌==◌, eq_iff,
  put, lookup-put, occurrences, if◌then◌else◌, arith,
}
use autodev_harness.Gate.Zones.{
  DiffFileContent, diff_added_removed_lines, flat_lines, attribute_diff_lines,
}
use autodev_harness.Gate.Diff.Refusal.{Parsed, ok, refused, ◌>>=◌}
use autodev_harness.Gate.Diff.Walk.{Walk, Sections, walk_start, push_line, record_unattributed}
use autodev_harness.Gate.Diff.Lines.{walk_lines}
use autodev_harness.Gate.Diff.Readers.{
  Counts, count_in, count_lines, count_content, missing_lines, record_missing, with_missing, values,
  diff_lines_of, walk_diff, diff_content_lines_by_file,
}

occurrences-append :
    (k : String) (xs ys : List String)
    → occurrences k (xs ++ ys) ≡ occurrences k xs + occurrences k ys
occurrences-append k [] ys = omega arith
occurrences-append k (x ∷ xs) ys = ground (arith, occurrences-append k xs ys)

abbrev one_if : Bool → ℕ
one_if b = if b then 1 else 0

occurrences-push_line :
    (k key : String) (files : List String) (line : String) (c : Sections)
    → occurrences k (flat_lines (values (push_line key files line c)))
      ≡ occurrences k (flat_lines (values c)) + one_if (line == k)
unfolding push_line
occurrences-push_line k key files line [] = ground arith
occurrences-push_line k key files line ((j, b) ∷ rest) = ground (
  arith,
  occurrences-push_line k key files line rest,
  occurrences-append k b.lines (flat_lines (values rest)),
  occurrences-append k (b.lines ++ line ∷ []) (flat_lines (values rest)),
  occurrences-append k b.lines (line ∷ []),
  occurrences-append k b.lines (flat_lines (values (push_line key files line rest))),
)

count_in-put :
    (k l : String) (n : ℕ) (m : Counts)
    → count_in k (put l n m) ≡ (if l == k then n else count_in k m)
count_in-put k l n m = ground (arith, lookup-put l k n m)

count_in-count_lines :
    (k : String) (ls : List String) (m : Counts)
    → count_in k (count_lines ls m) ≡ count_in k m + occurrences k ls
unfolding count_lines
count_in-count_lines k [] m = omega arith
count_in-count_lines k (l ∷ ls) m = ground (
  arith,
  count_in-count_lines k ls (put l (suc (count_in l m)) m),
  count_in-put k l (suc (count_in l m)) m,
  eq_iff l k,
)

count_in-count_content :
    (k : String) (c : Sections) (m : Counts)
    → count_in k (count_content c m) ≡ count_in k m + occurrences k (flat_lines (values c))
unfolding count_content
count_in-count_content k [] m = omega arith
count_in-count_content k ((j, b) ∷ rest) m = omega (
  arith,
  count_in-count_content k rest (count_lines b.lines m),
  count_in-count_lines k b.lines m,
  occurrences-append k b.lines (flat_lines (values rest)),
)

occurrences-missing_lines :
    (k : String) (m : Counts) (ls : List String)
    → occurrences k ls ≤ count_in k m + occurrences k (missing_lines m ls)
unfolding missing_lines
occurrences-missing_lines k m [] = omega arith
occurrences-missing_lines k m (l ∷ ls) = ground (
  arith,
  occurrences-missing_lines k (put l (count_in l m - 1) m) ls,
  occurrences-missing_lines k m ls,
  count_in-put k l (count_in l m - 1) m,
  eq_iff l k,
)

occurrences-record_missing :
    (k : String) (ls : List String) (s : Walk)
    → occurrences k (flat_lines (values (record_missing ls s).content))
      ≡ occurrences k (flat_lines (values s.content)) + occurrences k ls
unfolding record_missing record_unattributed
occurrences-record_missing k [] s = omega arith
occurrences-record_missing k (l ∷ ls) s = ground (
  arith,
  occurrences-record_missing k ls (record_unattributed l s),
  occurrences-push_line k "" [] l s.content,
)

occurrences-with_missing :
    (k text : String) (s : Walk)
    → occurrences k (diff_added_removed_lines text)
      ≤ occurrences k (flat_lines (values (with_missing text s).content))
unfolding with_missing
occurrences-with_missing k text s =
    let flat = diff_added_removed_lines text in
    let counts = count_content s.content [] in
    omega (
      arith,
      occurrences-missing_lines k counts flat,
      count_in-count_content k s.content [],
      occurrences-record_missing k (missing_lines counts flat) s,
    )

-- What a `try` with a fallback makes of a refusal.
abbrev pub answer {ℓ} : {A : Type ℓ} → Parsed A → Option A
answer (ok a) = some a
answer (refused r) = none

module _ (utf8 : List ℕ → Option String) (text : String) where
  -- The gate's sections of a diff: those of the walk, or the flat reading if the walk refuses.
  abbrev pub sections_of_diff : List DiffFileContent
  sections_of_diff =
      attribute_diff_lines (answer (diff_content_lines_by_file utf8 text))
        (diff_added_removed_lines text)

  of_walk :
      (k : String) (m : Parsed Walk)
      → occurrences k (diff_added_removed_lines text)
        ≤ occurrences k (
            flat_lines (
              attribute_diff_lines
                (answer (m >>= (λ s. ok (with_missing text s)) >>= λ w. ok (values w.content)))
                (diff_added_removed_lines text)))
  unfolding attribute_diff_lines
  of_walk k (ok s) = occurrences-with_missing k text s
  of_walk k (refused r) = omega (arith, occurrences-append k (diff_added_removed_lines text) [])

  -- Whatever the diff, the sections that the gate attributes its lines to hold every line that the
  -- flat reader keeps, at least as often: those of the walk, or the one section of the fallback
  -- where the walk refuses the diff.
  pub sections_of_diff-occurrences :
      (k : String)
      → occurrences k (diff_added_removed_lines text) ≤ occurrences k (flat_lines sections_of_diff)
  unfolding diff_content_lines_by_file walk_diff
  sections_of_diff-occurrences k = of_walk k (walk_lines utf8 (diff_lines_of text) walk_start)
