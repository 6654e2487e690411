-- ===== src/Gate/Zones/Scoped.antt =====
-- src/gate/zone-scope.ts: which changed lines a contract zone sees.
use mathlib.Core.List.{Memᴰ}
use autodev_harness.Common.{
  String, Bool, true, false, List, [], ◌∷◌, ◌≡◌, ◌⊎◌, ◌↔◌, inl, inr, refl, arith, any, filter,
  is_nil, Bool-cases, Memᴰ-left, Memᴰ-right, Memᴰ-append, any→Memᴰ, Memᴰ→any,
}
use autodev_harness.Util.Match.{glob_match}
use autodev_harness.Gate.Zones.{
  ContractZone, DiffFileContent, flat_lines, in_scope, zone_scoped_lines,
}

nil_of : {A : Type 0} (xs : List A) → is_nil xs ≡ true → xs ≡ []
nil_of [] e = refl
nil_of (x ∷ xs) e = cc

-- The zone reaches a section of the diff: it has no globs, or the section names no file, or one of
-- the section's files matches one of the zone's globs.
abbrev pub Reaches : ContractZone → DiffFileContent → Type 0
Reaches zone e =
    (zone.path_globs ≡ [])
    ⊎ ((e.files ≡ [])
        ⊎ ((f : String) × (g : String) × Memᴰ f e.files
            × Memᴰ g zone.path_globs
            × (glob_match g f ≡ true)))

-- The line stands in a section that the zone reaches.
abbrev pub IsVisible : ContractZone → String → List DiffFileContent → Type 0
IsVisible zone k es = (e : DiffFileContent) × Memᴰ e es × Memᴰ k e.lines × Reaches zone e

in_scope-Reaches :
    (zone : ContractZone) (e : DiffFileContent) → in_scope zone e ≡ true → Reaches zone e
in_scope-Reaches zone e h = elim (Bool-cases (is_nil e.files)) [
  | inl bare ↦ inr (inl (nil_of e.files bare))
  | inr named ↦
      let (f, m, q) =
        any→Memᴰ (λ f. any (λ g. glob_match g f) zone.path_globs) e.files (ground arith) in
      let (g, n, matched) = any→Memᴰ (λ g. glob_match g f) zone.path_globs q in
      inr (inr (f, g, m, n, matched))
]

Reaches-in_scope :
    (zone : ContractZone) (e : DiffFileContent)
    → is_nil zone.path_globs ≡ false
    → Reaches zone e
    → in_scope zone e ≡ true
Reaches-in_scope zone e some_globs (inl none) = let clash = rw none at some_globs in cc
Reaches-in_scope zone e some_globs (inr (inl bare)) = rw bare refl
Reaches-in_scope zone e some_globs (inr (inr (f, g, m, n, matched))) =
    let hit =
      Memᴰ→any (λ f. any (λ g. glob_match g f) zone.path_globs) f e.files m
        (Memᴰ→any (λ g. glob_match g f) g zone.path_globs n matched) in
    ground arith

-- A line of the sections that pass a test stands in one of them.
module _ (p : DiffFileContent → Bool) (k : String) where
  Memᴰ-lines :
      (es : List DiffFileContent)
      → Memᴰ k (flat_lines (filter p es))
      → (e : DiffFileContent) × Memᴰ e es × Memᴰ k e.lines × (p e ≡ true)
  Memᴰ-lines [] m = elim m [ ]
  Memᴰ-lines (e ∷ es) m = elim (Bool-cases (p e)) [
    | inl on ↦ elim (Memᴰ-append k e.lines (flat_lines (filter p es)) (rw on at m)) [
      | inl here ↦ (e, Memᴰ.head refl, here, on)
      | inr later ↦ let (d, n, l, q) = Memᴰ-lines es later in (d, Memᴰ.tail n, l, q)
    ]
    | inr off ↦ let (d, n, l, q) = Memᴰ-lines es (rw off at m) in (d, Memᴰ.tail n, l, q)
  ]

  lines-Memᴰ :
      (es : List DiffFileContent) (e : DiffFileContent)
      → Memᴰ e es
      → Memᴰ k e.lines
      → p e ≡ true
      → Memᴰ k (flat_lines (filter p es))
  lines-Memᴰ [] e m l q = elim m [ ]
  lines-Memᴰ (d ∷ es) e (Memᴰ.head h) l q =
      rw (← h, q) (Memᴰ-left k e.lines (flat_lines (filter p es)) l)
  lines-Memᴰ (d ∷ es) e (Memᴰ.tail m) l q =
      let later = lines-Memᴰ es e m l q in
      elim (Bool-cases (p d)) [
        | inl on ↦ rw on (Memᴰ-right k d.lines (flat_lines (filter p es)) later)
        | inr off ↦ rw off later
      ]

filter_all : (es : List DiffFileContent) → filter (λ e. true) es ≡ es
filter_all [] = refl
filter_all (e ∷ es) = ground (arith, filter_all es)

-- A contract zone sees a line exactly when the line stands in a section of the diff that it reaches:
-- any section for a zone without globs; for a zone with globs one that names no file, or one of
-- whose files matches one of the globs.
pub zone_scoped_lines-Memᴰ_iff :
    (zone : ContractZone) (k : String) (es : List DiffFileContent)
    → Memᴰ k (zone_scoped_lines zone es) ↔ IsVisible zone k es
unfolding zone_scoped_lines
zone_scoped_lines-Memᴰ_iff zone k es = elim (Bool-cases (is_nil zone.path_globs)) [
  | inl bare ↦ rw bare (
    λ m.
        let (e, n, l, _) = Memᴰ-lines (λ e. true) k es (rw (← filter_all es) at m) in
        (e, n, l, inl (nil_of zone.path_globs bare)),
    λ (e, n, l, _). rw (← filter_all es) (lines-Memᴰ (λ e. true) k es e n l refl),
  )
  | inr globs ↦ rw globs (
    λ m.
        let (e, n, l, q) = Memᴰ-lines (in_scope zone) k es m in
        (e, n, l, in_scope-Reaches zone e q),
    λ (e, n, l, r). lines-Memᴰ (in_scope zone) k es e n l (Reaches-in_scope zone e globs r),
  )
]
