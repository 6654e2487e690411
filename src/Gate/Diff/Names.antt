-- ===== src/Gate/Diff/Names.antt =====
-- What the walk of a diff records belongs to paths that it names.
use autodev_harness.Common.{
  ℕ, String, Bool, true, false, not, ◌||◌, Option, none, some, List, [], ◌∷◌, ◌++◌, ◌≡◌, refl, All,
  All-append, All-imp, ◌==◌, eq_refl, elem, elem-append, is_nil, is_some, if◌then◌else◌, arith,
  nat_eq,
}
use autodev_harness.Util.Text.{starts_with, join}
use autodev_harness.Gate.Zones.{DiffFileContent, unique_from}
use autodev_harness.Gate.Diff.Refusal.{Parsed, Holds, Holds-if}
use autodev_harness.Gate.Diff.Walk.{
  no_newline, Walk, Added, Sections, add_text, note_path, add_line, add_to_current, push_line,
  present, nul_text, record_line, body_line, added_to, removed_from, context_of,
}

abbrev pub In : List String → String → Type 0
In names p = elem p names ≡ true

pub add_text-In : (p q : String) (names : List String) → In names p → In (add_text q names) p
add_text-In p q names h = ground (arith, elem-append p names (q ∷ []))

pub add_text-In_self : (q : String) (names : List String) → In (add_text q names) q
add_text-In_self q names = ground (arith, elem-append q names (q ∷ []), eq_refl q)

pub note_path-In :
    (p : String) (o : Option String) (names : List String) → In names p → In (note_path o names) p
note_path-In p none names h = h
note_path-In p (some q) names h = add_text-In p q names h

pub note_path-In_self :
    (o : Option String) (names : List String) → All (In (note_path o names)) (present o [])
note_path-In_self none names = tt
note_path-In_self (some q) names = (add_text-In_self q names, tt)

pub either {ℓ κ} :
    {A : Type ℓ} (Q : A → Type κ) (b : Bool) (x y : A) → Q x → Q y → Q (if b then x else y)
either Q true x y p q = p
either Q false x y p q = q

module _ {κ} (P : String → Type κ) where
  pub add_text-All : (q : String) (xs : List String) → All P xs → P q → All P (add_text q xs)
  add_text-All q xs h p =
      either (All P) (elem q xs) xs (xs ++ q ∷ []) h (All-append P xs (q ∷ []) h (p, tt))

  pub note_path-All :
      (o : Option String) (xs : List String)
      → All P xs
      → All P (present o [])
      → All P (note_path o xs)
  note_path-All none xs h k = h
  note_path-All (some q) xs h (p, k) = add_text-All q xs h p

  present-All :
      (o : Option String) (xs : List String)
      → All P (present o [])
      → All P xs
      → All P (present o xs)
  present-All none xs k h = h
  present-All (some q) xs (p, k) h = (p, h)

  add_line-All :
      (p : String) (n : ℕ) (m : Added)
      → All (λ e. P e.0) m
      → P p
      → All (λ e. P e.0) (add_line p n m)
  unfolding add_line
  add_line-All p n [] h k = (k, tt)
  add_line-All p n ((q, ns) ∷ rest) (hq, h) k =
      either (All (λ (e : String × List ℕ). P e.0)) (q == p) _ _ (hq, h)
        (hq, add_line-All p n rest h k)

  add_to_current-All :
      (o : Option String) (n : ℕ) (m : Added)
      → All (λ e. P e.0) m
      → All P (present o [])
      → All (λ e. P e.0) (add_to_current o n m)
  add_to_current-All none n m h k = h
  add_to_current-All (some p) n m h (k, _) = add_line-All p n m h k

  unique_from-All : (seen xs : List String) → All P xs → All P (unique_from seen xs)
  unfolding unique_from
  unique_from-All seen [] h = tt
  unique_from-All seen (x ∷ xs) (p, h) =
      either (All P) (elem x seen) _ _ (unique_from-All seen xs h)
        (p, unique_from-All (x ∷ seen) xs h)

pub push_line-All {κ} :
    (P : List String → Type κ) (key : String) (files : List String) (line : String) (c : Sections)
    → All (λ e. P e.1.files) c
    → P files
    → All (λ e. P e.1.files) (push_line key files line c)
unfolding push_line
push_line-All P key files line [] h p = (p, tt)
push_line-All P key files line ((k, b) ∷ rest) (q, h) p =
    either (All (λ (e : String × DiffFileContent). P e.1.files)) (k == key) _ _ (q, h)
      (q, push_line-All P key files line rest h p)

unique_from-nil : (xs : List String) → is_nil xs ≡ false → is_nil (unique_from [] xs) ≡ false
unfolding unique_from
unique_from-nil [] h = cc
unique_from-nil (x ∷ xs) h = refl

-- All that the walk has recorded belongs to paths that it has named, and while every line has a
-- place, every section names a file.
pub record IsAccounted (s : Walk) : Type 0 where
  pub old : All (In s.named_paths) (present s.current_old_path [])
  pub new : All (In s.named_paths) (present s.current_path [])
  pub created : All (In s.named_paths) s.new_files
  pub counted : All (λ e. In s.named_paths e.0) s.added
  pub sections : All (λ e. All (In s.named_paths) e.1.files) s.content
  pub placed : s.unattributed_content ≡ false → All (λ e. is_nil e.1.files ≡ false) s.content

module _ (names more : List String) (grows : (p : String) → In names p → In more p) where
  pub In-All : (xs : List String) → All (In names) xs → All (In more) xs
  In-All xs h = All-imp (In names) (In more) xs grows h

  pub In-counted : (m : Added) → All (λ e. In names e.0) m → All (λ e. In more e.0) m
  In-counted m h = All-imp (λ e. In names e.0) (λ e. In more e.0) m (λ e p. grows e.0 p) h

  pub In-sections :
      (c : Sections) → All (λ e. All (In names) e.1.files) c → All (λ e. All (In more) e.1.files) c
  In-sections c h =
      All-imp (λ e. All (In names) e.1.files) (λ e. All (In more) e.1.files) c
        (λ e p. In-All e.1.files p) h

pub some_present :
    (u : Bool) (o p : Option String)
    → (u || not (is_some o || is_some p)) ≡ false
    → (u ≡ false) × (is_nil (present o (present p [])) ≡ false)
some_present u none none h = ground arith
some_present u none (some p) h = ground arith
some_present u (some o) p h = ground arith

record_line-IsAccounted :
    (line : String) (s : Walk) → IsAccounted s → IsAccounted (record_line line s)
unfolding record_line
record_line-IsAccounted line s a =
    let files = present s.current_old_path (present s.current_path []) in
    record {
      old = a.old;
      new = a.new;
      created = a.created;
      counted = a.counted;
      sections =
          push_line-All (All (In s.named_paths)) (join nul_text files) (unique_from [] files) line
            s.content a.sections
            (unique_from-All (In s.named_paths) [] files (
              present-All (In s.named_paths) s.current_old_path (present s.current_path []) a.old
                a.new));
      placed = λ e.
          let (before, named) =
            some_present s.unattributed_content s.current_old_path s.current_path e in
          push_line-All (λ fs. is_nil fs ≡ false) (join nul_text files) (unique_from [] files) line
            s.content (a.placed before) (unique_from-nil files named);
    }

added_to-IsAccounted : (line : String) (s : Walk) → IsAccounted s → IsAccounted (added_to line s)
unfolding added_to
added_to-IsAccounted line s a =
    let r = record_line-IsAccounted line s a in
    record {
      old = r.old;
      new = r.new;
      created = r.created;
      counted =
          add_to_current-All (In s.named_paths) s.current_path s.cursor s.added a.counted a.new;
      sections = r.sections;
      placed = r.placed;
    }

removed_from-IsAccounted :
    (line : String) (s : Walk) → IsAccounted s → IsAccounted (removed_from line s)
unfolding removed_from
removed_from-IsAccounted line s a =
    let r = record_line-IsAccounted line s a in
    record {
      old = r.old;
      new = r.new;
      created = r.created;
      counted = r.counted;
      sections = r.sections;
      placed = r.placed;
    }

-- A refusal or a state that is accounted for.
abbrev pub StaysAccounted : Parsed Walk → Type 0
StaysAccounted = Holds IsAccounted

context_of-IsAccounted : (s : Walk) → IsAccounted s → IsAccounted (context_of s)
unfolding context_of
context_of-IsAccounted s a = record {
  old = a.old;
  new = a.new;
  created = a.created;
  counted = a.counted;
  sections = a.sections;
  placed = a.placed;
}

pub body_line-IsAccounted :
    (line : String) (s : Walk) → IsAccounted s → StaysAccounted (body_line line s)
unfolding body_line
body_line-IsAccounted line s a =
    Holds-if IsAccounted (starts_with line "+") _ _
      (Holds-if IsAccounted (nat_eq s.remaining_new 0) _ _ tt (added_to-IsAccounted line s a))
      (Holds-if IsAccounted (starts_with line "-") _ _
        (Holds-if IsAccounted (nat_eq s.remaining_old 0) _ _ tt (removed_from-IsAccounted line s a))
        (Holds-if IsAccounted (starts_with line "\\") _ _
          (Holds-if IsAccounted (line == no_newline) _ _ a tt)
          (Holds-if IsAccounted (not (starts_with line " ")) _ _ tt (
            Holds-if IsAccounted (nat_eq s.remaining_old 0 || nat_eq s.remaining_new 0) _ _ tt
              (context_of-IsAccounted s a)))))
