-- ===== src/Gate/Steps/Coverage.antt =====
-- When the loop over the contract zones passes a zone.
use mathlib.Core.Path.{subst}
use autodev_harness.Common.{
  String, Bool, true, ◌&&◌, some, List, [], ◌∷◌, if◌then◌else◌, every, All, is_nil, ◌≡◌, ◌↔◌, refl,
  arith, Bool-cases, Option-cases, inl, inr,
}
use autodev_harness.Gate.Zones.{ContractZone, zone_touched_strings, zone_scoped_lines}
use autodev_harness.Gate.Guards.{
  GuardRow, GuardRecipePair, is_blessed, select_guard_for_value, select_guard_for_zone,
}
use autodev_harness.Gate.Monad.{
  noted, ok, ZoneResult, GateDeps, Log, and_then-eq-ok, Result-cases, value_uncovered,
  guard_not_blessed, guard_not_red,
}
use autodev_harness.Gate.Steps.{
  Scope, Covers, cover_values, judge_guards, judge_values, judge_zone, judge_touched, zone_step,
  touches, zones_step, zone_passes,
}

module _ (deps : GateDeps) where
  -- A guard that the operator blessed and that still goes red under mutation.
  abbrev pub Protects : GuardRow → Type 0
  Protects g = (is_blessed g ≡ true) × (deps.guard_still_red g ≡ ok true)

  -- The guard selected for a contract value protects it; so for a zone.
  abbrev pub ValueGuarded : List GuardRecipePair → String → Type 0
  ValueGuarded pairs v = (g : GuardRow) × (select_guard_for_value pairs v ≡ some g) × Protects g

  abbrev pub ZoneGuarded : List GuardRecipePair → ContractZone → Type 0
  ZoneGuarded pairs zone =
      (g : GuardRow) × (select_guard_for_zone pairs zone.id ≡ some g) × Protects g

  cover_values_iff :
      (zone : ContractZone) (pairs : List GuardRecipePair) (vs : List String) (s : Log) (c : Covers)
      → (cover_values deps zone pairs vs s).0 ≡ ok c
      → ((c.1 ≡ []) × All Protects c.0) ↔ All (ValueGuarded pairs) vs
  unfolding cover_values
  cover_values_iff zone pairs [] s c e =
      let none_left : c ≡ ([], []) = ground arith in rw none_left (λ _. tt, λ _. (refl, tt))
  cover_values_iff zone pairs (v ∷ vs) s c e =
      elim (Option-cases (select_guard_for_value pairs v)) [
        | inl missing ↦
            let (later, _, e') =
              and_then-eq-ok (cover_values deps zone pairs vs (noted (value_uncovered zone.id v) s))
                _ (rw (missing, cover_values) at e) in
            (λ h. absurd (ground arith), λ h. absurd (ground arith))
        | inr (g, found) ↦
            let (later, first, e') =
              and_then-eq-ok (cover_values deps zone pairs vs s) _
                (rw (found, cover_values) at e) in
            let same : c ≡ (g ∷ later.0, later.1) = ground arith in
            let ih = cover_values_iff zone pairs vs s later first in
            rw same (
              λ h. ((g, found, h.1.0), ih.0 (h.0, h.1.1)),
              λ h. ((ih.1 h.1).0, (subst Protects (ground arith) h.0.2, (ih.1 h.1).1)),
            )
      ]

  judge_guards_iff :
      (zone : ContractZone) (gs : List GuardRow) (s : Log) (r : Bool × Bool)
      → (judge_guards deps zone gs s).0 ≡ ok r
      → ((r.1 && r.0) ≡ true) ↔ All Protects gs
  unfolding judge_guards
  judge_guards_iff zone [] s r e = (λ _. tt, λ _. ground arith)
  judge_guards_iff zone (g ∷ gs) s r e = elim (Result-cases (deps.guard_still_red g)) [
    | inl (now, answered) ↦
        let s1 : Log =
          if is_blessed g then s else noted (guard_not_blessed zone.id g.contract_id) s in
        let s2 : Log = if now then s1 else noted (guard_not_red zone.id g.contract_id) s1 in
        let (later, first, e') =
          and_then-eq-ok (judge_guards deps zone gs s2) _ (rw (answered, judge_guards) at e) in
        let ih = judge_guards_iff zone gs s2 later first in
        (λ h. ((ground arith, ground arith), ih.0 (ground arith)), λ h. ground (arith, ih.1 h.1))
    | inr (x, threw) ↦ absurd (ground arith)
  ]

  judge_values_iff :
      (zone : ContractZone) (pairs : List GuardRecipePair) (vs : List String) (s : Log)
      (z : ZoneResult)
      → zone.auto_guardable ≡ true
      → (judge_values deps zone pairs vs s).0 ≡ ok z
      → (zone_passes z ≡ true) ↔ All (ValueGuarded pairs) vs
  unfolding judge_values
  judge_values_iff zone pairs vs s z auto e =
      let (c, covered, e') = and_then-eq-ok (cover_values deps zone pairs vs s) _ e in
      let cover = cover_values_iff zone pairs vs s c covered in
      let log = (cover_values deps zone pairs vs s).1 in
      elim (Bool-cases (is_nil c.1)) [
        | inl all_covered ↦
            let (r, judged, e'') =
              and_then-eq-ok (judge_guards deps zone c.0 log) _ (rw all_covered at e') in
            let guards = judge_guards_iff zone c.0 log r judged in
            let bare : c.1 ≡ [] = ground arith in
            (
              λ h. cover.0 (bare, guards.0 (ground arith)),
              λ h. ground (arith, guards.1 (cover.1 h).1),
            )
        | inr uncovered ↦
            (λ h. absurd (ground arith), λ h. let bare = (cover.1 h).0 in absurd (ground arith))
      ]

  judge_zone_iff :
      (zone : ContractZone) (pairs : List GuardRecipePair) (s : Log) (z : ZoneResult)
      → zone.auto_guardable ≡ true
      → (judge_zone deps zone pairs s).0 ≡ ok z
      → (zone_passes z ≡ true) ↔ ZoneGuarded pairs zone
  unfolding judge_zone
  judge_zone_iff zone pairs s z auto e = ground arith

  -- What a touched zone needs: a guard for each touched value, or else for the zone.
  abbrev pub Guarded : List GuardRecipePair → ContractZone → List String → Type 0
  Guarded pairs zone [] = ZoneGuarded pairs zone
  Guarded pairs zone (v ∷ vs) = All (ValueGuarded pairs) (v ∷ vs)

  judge_touched_iff :
      (zone : ContractZone) (pairs : List GuardRecipePair) (vs : List String) (s : Log)
      (z : ZoneResult)
      → zone.auto_guardable ≡ true
      → (judge_touched deps zone pairs vs s).0 ≡ ok z
      → (zone_passes z ≡ true) ↔ Guarded pairs zone vs
  unfolding judge_touched
  judge_touched_iff zone pairs [] s z auto e = judge_zone_iff zone pairs s z auto e
  judge_touched_iff zone pairs (v ∷ vs) s z auto e = judge_values_iff zone pairs (v ∷ vs) s z auto e

  -- A zone may be committed if it is left untouched, or is guarded by machine and by a guard that
  -- protects what was touched.
  abbrev pub Covered : Scope → List GuardRecipePair → ContractZone → Type 0
  Covered scope pairs zone =
      touches deps scope zone ≡ true
      → (zone.auto_guardable ≡ true)
        × Guarded pairs zone
            (zone_touched_strings zone (zone_scoped_lines zone scope.lines_by_file))

  zone_step_iff :
      (zone : ContractZone) (pairs : List GuardRecipePair) (lines : List String) (s : Log)
      (z : ZoneResult)
      → (zone_step deps zone pairs lines s).0 ≡ ok z
      → (zone_passes z ≡ true)
        ↔ ((zone.auto_guardable ≡ true) × Guarded pairs zone (zone_touched_strings zone lines))
  unfolding zone_step
  zone_step_iff zone pairs lines s z e = elim (Bool-cases zone.auto_guardable) [
    | inl auto ↦
        let touched =
          judge_touched_iff zone pairs (zone_touched_strings zone lines) s z auto (ground arith) in
        (λ h. (auto, touched.0 h), λ h. touched.1 h.1)
    | inr manual ↦ (λ h. absurd (ground arith), λ h. absurd (ground arith))
  ]

  pub zones_step_iff :
      (scope : Scope) (pairs : List GuardRecipePair) (zones : List ContractZone) (s : Log)
      (zs : List ZoneResult)
      → (zones_step deps scope pairs zones s).0 ≡ ok zs
      → (every zone_passes zs ≡ true) ↔ All (Covered scope pairs) zones
  unfolding zones_step
  zones_step_iff scope pairs [] s zs e =
      let bare : zs ≡ [] = ground arith in rw bare (λ _. tt, λ _. refl)
  zones_step_iff scope pairs (zone ∷ zones) s zs e = elim (Bool-cases (touches deps scope zone)) [
    | inl touched ↦
        let lines = zone_scoped_lines zone scope.lines_by_file in
        let (z, first, e') =
          and_then-eq-ok (zone_step deps zone pairs lines s) _ (rw touched at e) in
        let log = (zone_step deps zone pairs lines s).1 in
        let (later, second, e'') = and_then-eq-ok (zones_step deps scope pairs zones log) _ e' in
        let here = zone_step_iff zone pairs lines s z first in
        let ih = zones_step_iff scope pairs zones log later second in
        (
          λ h. (λ _. here.0 (ground arith), ih.0 (ground arith)),
          λ h. ground (arith, here.1 (h.0 touched), ih.1 h.1),
        )
    | inr untouched ↦
        let ih = zones_step_iff scope pairs zones s zs (rw untouched at e) in
        (λ h. (λ t. absurd (ground arith), ih.0 h), λ h. ih.1 h.1)
  ]
