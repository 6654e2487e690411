-- ===== src/Router.antt =====
-- src/router/router.ts: which models a task's worker may use.
pub mod Laws
use autodev_harness.Common.{
  String, Bool, true, false, Option, none, some, List, [], ◌∷◌, ◌==◌, if◌then◌else◌,
}
use autodev_harness.Blackboard.{Task}

pub data Warning : Type 0 where
  pinned unknown_model : String → Warning

pub record LadderResolution : Type 0 where
  pub ladder : List String
  pub warnings : List Warning

-- `fullLadder.slice(fullLadder.indexOf(model))`, `none` where the index is -1.
from_tier : String → List String → Option (List String)
from_tier model [] = none
from_tier model (tier ∷ tiers) =
    let later = from_tier model tiers in if tier == model then some (tier ∷ tiers) else later

-- The warning of a contract-zone task that declares another model.
abbrev mismatch : String → Option String → List Warning
mismatch top none = []
mismatch top (some model) = if model == top then [] else pinned model ∷ []

-- The tiers from a known model on, or the whole ladder with a warning.
abbrev tiers_or_all : List String → String → Option (List String) → LadderResolution
tiers_or_all full model (some tiers) = record { ladder = tiers; warnings = [] }
tiers_or_all full model none = record { ladder = full; warnings = unknown_model model ∷ [] }

-- A task outside the contract zones, on the full ladder.
by_model : List String → Option String → LadderResolution
unfolding from_tier
by_model full none = record { ladder = full; warnings = [] }
by_model full (some model) = tiers_or_all full model (from_tier model full)

-- `resolveLadder`; `createRouter` throws on an empty ladder, so there is a top tier.
unfoldable pub resolve_ladder : (top : String) (rest : List String) → Task → LadderResolution
unfolding by_model
resolve_ladder top rest task =
    if task.touches_contract_zone
    then record { ladder = top ∷ []; warnings = mismatch top task.model }
    else by_model (top ∷ rest) task.model
