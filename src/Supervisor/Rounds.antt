-- ===== src/Supervisor/Rounds.antt =====
-- One round: the actions it finds.
use mathlib.Core.Path.{subst}
use autodev_harness.Common.{
  suc, lookup, ℕ, String, Bool, true, false, Option, none, some, List, [], ◌∷◌, ◌≡◌, refl, ◌≤◌, ◌<◌,
  arith, leb, if◌then◌else◌, max,
}
use autodev_harness.Util.Fallible.{pure, Result, ok, err, and_then, lift, ◌>>=◌}
use autodev_harness.Conductor.State.{EscalationType}
use autodev_harness.Supervisor.Effects.{
  Night, NightEnv, M, Action, seen_of, with_max, effective_count,
}
use autodev_harness.Supervisor.{is_retryable, picked, consider, actionable, Ended, loop, act}

pub ok_injective : {A : Type 0} {x y : A} → ok x ≡ ok y → x ≡ y
ok_injective e = cc

module _ (env : NightEnv) (r : ℕ) (w : Night) where
  -- The actions are those of some listed ids, in order: each count is at least the tally and is
  -- below the budget.
  pub data Picked : List String → List Action → Type 0 where
    nothing : Picked [] []
    skipped :
        {id : String} {ids : List String} {acts : List Action}
        → Picked ids acts
        → Picked (id ∷ ids) acts
    taken :
        {ids : List String} {acts : List Action} (a : Action)
        → seen_of a.id w ≤ a.count
        → a.count < env.max_auto_reworks
        → Picked ids acts
        → Picked (a.id ∷ ids) (a ∷ acts)

  -- A part of the loop that changes nothing and answers actions of the ids.
  abbrev pub Picks : List String → M (List Action) → Type 0
  Picks ids m = ((m w).1 ≡ w) × ((acts : List Action) → (m w).0 ≡ ok acts → Picked ids acts)

  choose-Picks :
      (ids : List String) (b : Bool) (m n : M (List Action))
      → (b ≡ true → Picks ids m)
      → (b ≡ false → Picks ids n)
      → Picks ids (if b then m else n)
  choose-Picks ids true m n h k = h refl
  choose-Picks ids false m n h k = k refl

  skipped-Picks :
      (id : String) (ids : List String) (m : M (List Action)) → Picks ids m → Picks (id ∷ ids) m
  skipped-Picks id ids m (s, h) = (s, λ acts e. skipped (h acts e))

  after_push :
      (id : String) (t : EscalationType) (c : ℕ) (ids : List String)
      (x : Result (List Action) × Night)
      → seen_of id w ≤ c
      → c < env.max_auto_reworks
      → x.1 ≡ w
      → ((acts : List Action) → x.0 ≡ ok acts → Picked ids acts)
      → Picks
          (id ∷ ids)
          (λ v. and_then x λ later. pure (record { id = id; type = t; count = c } ∷ later))
  after_push id t c ids (ok later, v) l k s h = (
    s,
    λ acts e.
        subst (Picked (id ∷ ids)) (ok_injective e)
          (taken (record { id = id; type = t; count = c }) l k (h later refl)),
  )
  after_push id t c ids (err x, v) l k s h = (s, λ acts e. cc)

  picked-Picks :
      (id : String) (t : EscalationType) (c : ℕ) (ids : List String) (m : M (List Action))
      → seen_of id w ≤ c
      → c < env.max_auto_reworks
      → Picks ids m
      → Picks (id ∷ ids) (picked id t m c)
  picked-Picks id t c ids m l k (s, h) = after_push id t c ids (m w) l k s h

  counted-Picks :
      (id : String) (t : EscalationType) (ids : List String) (m : M (List Action)) (c : Result ℕ)
      → Picks ids m
      → Picks (id ∷ ids) (λ v.
        and_then
          (with_max (seen_of id w) c, v)
          (λ count. if leb env.max_auto_reworks count then m else picked id t m count))
  counted-Picks id t ids m (ok c) h =
      choose-Picks (id ∷ ids) (leb env.max_auto_reworks (max c (seen_of id w))) m
        (picked id t m (max c (seen_of id w))) (λ e. skipped-Picks id ids m h)
        (λ e. picked-Picks id t (max c (seen_of id w)) ids m (omega arith) (ground arith) h)
  counted-Picks id t ids m (err e) h = (refl, λ acts e. cc)

  consider-Picks :
      (id : String) (ids : List String) (t : Option EscalationType) (m : M (List Action))
      → Picks ids m
      → Picks (id ∷ ids) (consider env r id t m)
  consider-Picks id ids none m h = skipped-Picks id ids m h
  consider-Picks id ids (some t) m h =
      choose-Picks (id ∷ ids) (is_retryable t)
        (effective_count env r id
          >>= (λ count. if leb env.max_auto_reworks count then m else picked id t m count))
        m (λ e. counted-Picks id t ids m (env.get_rework_count r id (lookup id w.counts)) h)
        (λ e. skipped-Picks id ids m h)

  read-Picks :
      (id : String) (ids : List String) (t : Result (Option EscalationType))
      → Picks ids (actionable env r ids)
      → Picks (id ∷ ids) (lift t >>= (λ type. consider env r id type (actionable env r ids)))
  read-Picks id ids (ok t) h = consider-Picks id ids t (actionable env r ids) h
  read-Picks id ids (err e) h = (refl, λ acts x. cc)

  pub actionable-Picks : (ids : List String) → Picks ids (actionable env r ids)
  unfolding actionable
  actionable-Picks [] = (refl, λ acts e. subst (Picked []) (ok_injective e) nothing)
  actionable-Picks (id ∷ ids) = read-Picks id ids (env.read_type r id) (actionable-Picks ids)

-- What a round does with the list of escalations.
abbrev pub listed_then : NightEnv → (fuel r : ℕ) → List String → M Ended
listed_then env fuel r ids = actionable env r ids >>= act env r (loop env fuel (suc r))
