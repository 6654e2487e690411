-- ===== src/Router/Laws.antt =====
-- A task steps down the configured ladder only, from its own tier.
use mathlib.Core.List.{Memᴰ}
use autodev_harness.Common.{
  String, true, false, Option, none, some, List, [], ◌∷◌, ◌++◌, ◌==◌, ◌≡◌, refl, sym, ap, ◌∙◌,
  arith, eq_iff, inl, inr, Bool-cases, ◌⊎◌, ◌↔◌,
}
use autodev_harness.Blackboard.{Task}
use autodev_harness.Router.{
  from_tier, by_model, resolve_ladder, tiers_or_all, mismatch, LadderResolution,
}

eq_self : (a : String) → (a == a) ≡ true
eq_self a = (eq_iff a a).1 refl

not_in_tail :
    (model tier : String) (more : List String)
    → (tier == model) ≡ false
    → ¬ Memᴰ model more
    → ¬ Memᴰ model (tier ∷ more)
not_in_tail model tier more other n (Memᴰ.head e) =
    let same : (tier == model) ≡ true = (eq_iff tier model).1 (sym e) in cc
not_in_tail model tier more other n (Memᴰ.tail m) = n m

-- The tiers from the first one that is the model.
from_tier-some :
    (model : String) (full : List String) {tiers : List String}
    → from_tier model full ≡ some tiers
    → (before rest : List String) × (¬ Memᴰ model before)
      × (full ≡ before ++ model ∷ rest)
      × (tiers ≡ model ∷ rest)
unfolding from_tier
from_tier-some model [] e = absurd cc
from_tier-some model (tier ∷ more) {tiers} e = elim (Bool-cases (tier == model)) [
  | inl same ↦
      let is : tier ≡ model = (eq_iff tier model).0 same in
      ([], more, (λ m. elim m [ ]), ap (λ t. t ∷ more) is, ground (arith, eq_iff tier model))
  | inr other ↦
      let (before, rest, n, split, head) = from_tier-some model more (rw other at e) in
      (tier ∷ before, rest, not_in_tail model tier before other n, ap (λ xs. tier ∷ xs) split, head)
]

from_tier-none :
    (model : String) (full : List String) → from_tier model full ≡ none → ¬ Memᴰ model full
unfolding from_tier
from_tier-none model [] e m = elim m [ ]
from_tier-none model (tier ∷ more) e m = elim (Bool-cases (tier == model)) [
  | inl same ↦ let e = rw same at e in cc
  | inr other ↦ not_in_tail model tier more other (from_tier-none model more (rw other at e)) m
]

-- The whole ladder for a task that declares no model or one that is no tier; otherwise the end of
-- the ladder from the first tier on that is the declared model.
abbrev pub IsEnd : List String → Option String → List String → Type 0
IsEnd full none ladder = ladder ≡ full
IsEnd full (some model) ladder =
    ((¬ Memᴰ model full) × (ladder ≡ full))
    ⊎ ((before : List String) × (later : List String) × (¬ Memᴰ model before)
        × (full ≡ before ++ model ∷ later)
        × (ladder ≡ model ∷ later))

-- Nothing is warned about exactly when a declared model is one of the tiers.
abbrev pub WarnsUnless : List String → Option String → LadderResolution → Type 0
WarnsUnless tiers declared r =
    (r.warnings ≡ []) ↔ ((model : String) → declared ≡ some model → Memᴰ model tiers)

some_eq : {a b : String} → some a ≡ some b → a ≡ b
some_eq e = cc

in_middle : (model : String) (before later : List String) → Memᴰ model (before ++ model ∷ later)
in_middle model [] later = Memᴰ.head refl
in_middle model (x ∷ before) later = Memᴰ.tail (in_middle model before later)

module _ (full : List String) (model : String) where
  tiers_or_all-IsEnd :
      (o : Option (List String))
      → from_tier model full ≡ o
      → IsEnd full (some model) (tiers_or_all full model o).ladder
        × WarnsUnless full (some model) (tiers_or_all full model o)
  tiers_or_all-IsEnd none e =
      let missing = from_tier-none model full e in
      (inl (missing, refl), (λ w. absurd cc, λ h. absurd (missing (h model refl))))
  tiers_or_all-IsEnd (some tiers) e =
      let (before, later, n, split, head) = from_tier-some model full e in
      (
        inr (before, later, n, split, head),
        (λ _ m is. rw (sym (some_eq is)) (rw split (in_middle model before later)), λ _. refl),
      )

by_model-IsEnd :
    (full : List String) (declared : Option String)
    → IsEnd full declared (by_model full declared).ladder
      × WarnsUnless full declared (by_model full declared)
unfolding by_model
by_model-IsEnd full none = (refl, (λ _ m e. absurd cc, λ _. refl))
by_model-IsEnd full (some model) = tiers_or_all-IsEnd full model (from_tier model full) refl

mismatch-nil :
    (top : String) (declared : Option String)
    → (mismatch top declared ≡ [])
      ↔ ((model : String) → declared ≡ some model → Memᴰ model (top ∷ []))
mismatch-nil top none = (λ _ m e. absurd cc, λ _. refl)
mismatch-nil top (some model) = elim (Bool-cases (model == top)) [
  | inl same ↦ (λ _ m e. Memᴰ.head (sym (some_eq e) ∙ (eq_iff model top).0 same), λ _. rw same refl)
  | inr other ↦ (
    λ w. let w = rw other at w in absurd cc,
    λ h. elim (h model refl) [
      | Memᴰ.head e ↦ let same : (model == top) ≡ true = (eq_iff model top).1 e in absurd cc
      | Memᴰ.tail m ↦ elim m [ ]
    ],
  )
]

-- A contract-zone task gets the top tier alone, and a warning exactly when it declares another
-- model. Any other task gets the end of the configured ladder that starts at the first tier that is
-- its model, or the whole ladder if it declares no model or one that is no tier, and a warning
-- exactly in that last case.
pub resolve_ladder-IsEnd :
    (top : String) (rest : List String) (task : Task)
    → ((task.touches_contract_zone ≡ true)
        × ((resolve_ladder top rest task).ladder ≡ top ∷ [])
        × WarnsUnless (top ∷ []) task.model (resolve_ladder top rest task))
      ⊎ ((task.touches_contract_zone ≡ false)
          × IsEnd (top ∷ rest) task.model (resolve_ladder top rest task).ladder
          × WarnsUnless (top ∷ rest) task.model (resolve_ladder top rest task))
unfolding resolve_ladder
resolve_ladder-IsEnd top rest task = elim (Bool-cases task.touches_contract_zone) [
  | inl zone ↦ inl (zone, rw zone refl, rw zone (mismatch-nil top task.model))
  | inr free ↦
      let (ends, warns) = by_model-IsEnd (top ∷ rest) task.model in
      inr (free, rw free ends, rw free warns)
]
