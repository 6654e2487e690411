-- ===== src/Util/Glob.antt =====
-- src/util/glob.ts: how a path is normalised before two paths are compared.
use Prim.Native.String.{[], ◌∷◌}
use autodev_harness.Common.{
  Char, code, String, Bool, false, ◌||◌, ◌≡◌, ◌≢◌, refl, ap, ◌∙◌, arith, nat_eq, Bool-cases, inl,
  inr, if◌then◌else◌,
}

-- `p.replace(/\\/g, "/")`
abbrev pub to_slash : Char → Char
to_slash c = if nat_eq (code c) b'\\' then "/" else c

unfoldable pub to_slashes : String → String
to_slashes [] = []
to_slashes (c ∷ s) = to_slash c ∷ to_slashes s

abbrev is_dot_or_slash : Char → Bool
is_dot_or_slash c = nat_eq (code c) b'.' || nat_eq (code c) b'/'

-- `.replace(/^[./]+/, "")`
strip_leading : String → String
strip_leading [] = []
strip_leading (c ∷ s) = let rest = strip_leading s in if is_dot_or_slash c then rest else c ∷ s

-- `normalizePath`
unfoldable pub normalize_path : String → String
unfolding to_slashes strip_leading
normalize_path p = strip_leading (to_slashes p)

-- A normal path holds no backslash and starts with neither `.` nor `/`.
abbrev pub NoBackslash : String → Type 0
NoBackslash [] = Unit
NoBackslash (c ∷ s) = (code c ≢ b'\\') × NoBackslash s

abbrev pub StartsPlain : String → Type 0
StartsPlain [] = Unit
StartsPlain (c ∷ s) = is_dot_or_slash c ≡ false

to_slash_ne : (c : Char) → code (to_slash c) ≢ b'\\'
to_slash_ne c = elim (Bool-cases (nat_eq (code c) b'\\')) [
  | inl same ↦ rw same (omega arith)
  | inr other ↦ rw other (ground arith)
]

to_slashes-NoBackslash : (s : String) → NoBackslash (to_slashes s)
unfolding to_slashes
to_slashes-NoBackslash [] = tt
to_slashes-NoBackslash (c ∷ s) = (to_slash_ne c, to_slashes-NoBackslash s)

strip_leading-NoBackslash : (s : String) → NoBackslash s → NoBackslash (strip_leading s)
unfolding strip_leading
strip_leading-NoBackslash [] h = tt
strip_leading-NoBackslash (c ∷ s) (p, h) = ground (arith, strip_leading-NoBackslash s h)

strip_leading-StartsPlain : (s : String) → StartsPlain (strip_leading s)
unfolding strip_leading
strip_leading-StartsPlain [] = tt
strip_leading-StartsPlain (c ∷ s) = ground (arith, strip_leading-StartsPlain s)

to_slashes_id : (s : String) → NoBackslash s → to_slashes s ≡ s
unfolding to_slashes
to_slashes_id [] h = refl
to_slashes_id (c ∷ s) (p, h) = ground (arith, to_slashes_id s h)

strip_leading_id : (s : String) → StartsPlain s → strip_leading s ≡ s
unfolding strip_leading
strip_leading_id [] h = refl
strip_leading_id (c ∷ s) h = ground arith

-- Whatever the path, its normal form holds no backslash and starts with neither `.` nor `/`, and
-- normalising it again changes nothing.
pub normalize_path_normal :
    (p : String)
    → NoBackslash (normalize_path p)
      × StartsPlain (normalize_path p)
      × (normalize_path (normalize_path p) ≡ normalize_path p)
unfolding normalize_path
normalize_path_normal p =
    let clean = strip_leading-NoBackslash (to_slashes p) (to_slashes-NoBackslash p) in
    let plain = strip_leading-StartsPlain (to_slashes p) in
    (clean, plain, ap strip_leading (to_slashes_id _ clean) ∙ strip_leading_id _ plain)
