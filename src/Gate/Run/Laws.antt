-- ===== src/Gate/Run/Laws.antt =====
-- What the gate's answer means, and what it leaves behind.
use autodev_harness.Common.{
  String, Bool, true, false, ◌&&◌, List, [], every, All, ◌≡◌, ◌↔◌, refl, sym, ◌∙◌, arith,
  Bool-cases, Option-cases, inl, inr, some, ◌==◌, ◌≢◌, ◌⊎◌,
}
use autodev_harness.Gate.Zones.{Invariants}
use autodev_harness.Gate.Guards.{GuardRecipePair}
use autodev_harness.Gate.Monad.{
  ok, ZoneResult, commit, retry, escalate, GateVerdict, GateInput, GateDeps, Log, answers, lift,
}
use autodev_harness.Gate.Steps.{
  check_step, success_step, agent_ci_step, profile_step, constitution_touched, constitution_step,
  zones_step, zone_passes, decide,
}
use autodev_harness.Gate.Steps.Tools.{
  Passes, AllSucceed, ProfilePasses, check_step_iff, success_step_iff, agent_ci_step_iff,
  profile_step_iff, constitution_step_val,
}
use autodev_harness.Gate.Steps.Coverage.{Covered, zones_step_iff}
use autodev_harness.Gate.Run.{
  scope_of, judge, judge_loaded, persist, has_no_scope, judged, run_gate,
}

four_iff :
    {P Q R S : Type 0} (a b c d : Bool)
    → (a ≡ true) ↔ P
    → (b ≡ true) ↔ Q
    → (c ≡ true) ↔ R
    → (d ≡ true) ↔ S
    → ((a && b && c && d) ≡ true) ↔ (P × Q × R × S)
four_iff a b c d p q r s = (
  λ h. (p.0 (ground arith), q.0 (ground arith), r.0 (ground arith), s.0 (ground arith)),
  λ h. ground (arith, p.1 h.0, q.1 h.1, r.1 h.2, s.1 h.3),
)

off_and_on : {b : Bool} → b ≡ false → b ≡ true → ⊥
off_and_on off on = cc

off_of_not : (b : Bool) → ¬ (b ≡ true) → b ≡ false
off_of_not true n = absurd (n refl)
off_of_not false n = refl

module _ (deps : GateDeps) (input : GateInput) where
  -- Every tool that is on answered green.
  abbrev pub ToolsPass : List String → Type 0
  ToolsPass changed =
      Passes deps.run_check
      × AllSucceed deps input.success_commands
      × Passes deps.run_agent_ci
      × ProfilePasses deps changed

  -- No changed file is human-only, and every contract zone is covered.
  abbrev pub ContractHolds : Invariants → List GuardRecipePair → List String → String → Type 0
  ContractHolds inv pairs changed text =
      (constitution_touched deps inv changed ≡ [])
      × All (Covered deps (scope_of deps changed text) pairs) inv.contract_zones

  -- A verdict that follows from what was loaded.
  pub record IsJudged (v : GateVerdict) : Type 0 where
    pub inv : Invariants
    pub pairs : List GuardRecipePair
    pub changed : List String
    pub text : String
    pub invariants_loaded : deps.load_invariants ≡ ok inv
    pub guards_loaded : deps.load_guard_pairs ≡ ok pairs
    pub scope_resolved : deps.resolve_scope ≡ ok (changed, text)
    pub commit_iff :
        (v.decision ≡ commit) ↔ (ToolsPass changed × ContractHolds inv pairs changed text)
    pub retry_iff : (v.decision ≡ retry) ↔ ¬ (ToolsPass changed)

  decide-commit_iff :
      (green : Bool) (cs : List String) (zs : List ZoneResult)
      → (decide green cs zs ≡ commit) ↔ ((green ≡ true) × (cs ≡ []) × (every zone_passes zs ≡ true))
  unfolding decide
  decide-commit_iff green cs zs = ground arith

  decide-retry_iff :
      (green : Bool) (cs : List String) (zs : List ZoneResult)
      → (decide green cs zs ≡ retry) ↔ (green ≡ false)
  unfolding decide
  decide-retry_iff green cs zs = ground arith

  judge_loaded-IsJudged :
      (inv : Invariants) (pairs : List GuardRecipePair) (changed : List String) (text : String)
      → deps.load_invariants ≡ ok inv
      → deps.load_guard_pairs ≡ ok pairs
      → deps.resolve_scope ≡ ok (changed, text)
      → (s : Log) (v : GateVerdict) → (judge_loaded deps input inv pairs (changed, text) s).0 ≡ ok v
      → IsJudged v
  unfolding judge_loaded
  judge_loaded-IsJudged inv pairs changed text hi hg hs s v e0 =
      answers (check_step deps s) _ e0 λ composer h1 e1.
        answers (success_step deps input.success_commands _) _ e1 λ success h2 e2.
          answers (agent_ci_step deps _) _ e2 λ ci h3 e3.
            answers (profile_step deps changed _) _ e3 λ profile h4 e4.
              answers (constitution_step deps inv changed _) _ e4 λ cs h5 e5.
                answers (zones_step deps (scope_of deps changed text) pairs inv.contract_zones _) _
                  e5
                  λ zs h6 e6.
                    let t1 = check_step_iff deps _ composer h1 in
                    let t2 = success_step_iff deps input.success_commands _ success h2 in
                    let t3 = agent_ci_step_iff deps _ ci h3 in
                    let t4 = profile_step_iff deps changed _ profile h4 in
                    let c5 = constitution_step_val deps inv changed _ cs h5 in
                    let z6 =
                      zones_step_iff deps (scope_of deps changed text) pairs inv.contract_zones _ zs
                        h6 in
                    let green : Bool = composer && success && ci && profile.0 in
                    let decided : v.decision ≡ decide green cs zs = ground arith in
                    let tools : (green ≡ true) ↔ ToolsPass changed =
                      four_iff composer success ci profile.0 t1 t2 t3 t4 in
                    record {
                      inv = inv;
                      pairs = pairs;
                      changed = changed;
                      text = text;
                      invariants_loaded = hi;
                      guards_loaded = hg;
                      scope_resolved = hs;
                      commit_iff = (
                        λ h.
                            let (g, c, z) = (decide-commit_iff green cs zs).0 (sym decided ∙ h) in
                            (tools.0 g, (sym c5 ∙ c, z6.0 z)),
                        λ (t, (c, z)).
                            decided ∙ (decide-commit_iff green cs zs).1 (tools.1 t, c5 ∙ c, z6.1 z),
                      );
                      retry_iff = (
                        λ h t. absurd (
                            off_and_on ((decide-retry_iff green cs zs).0 (sym decided ∙ h))
                              (tools.1 t)),
                        λ n.
                            decided
                            ∙ (decide-retry_iff green cs zs).1
                                (off_of_not green (λ on. n (tools.0 on))),
                      );
                    }

  judge-IsJudged : (s : Log) (v : GateVerdict) → (judge deps input s).0 ≡ ok v → IsJudged v
  unfolding judge
  judge-IsJudged s v e0 = answers (lift deps.load_invariants s) _ e0 λ inv h1 e1.
      answers (lift deps.load_guard_pairs s) _ e1 λ pairs h2 e2.
        answers (lift deps.resolve_scope s) _ e2
          λ resolved h3 e3. judge_loaded-IsJudged inv pairs resolved.0 resolved.1 h1 h2 h3 s v e3

  judged_of_outcome :
      (v : GateVerdict)
      → has_no_scope input ≡ false
      → (run_gate deps input).outcome ≡ ok v
      → (judged deps input).0 ≡ ok v
  unfolding run_gate persist
  judged_of_outcome v scoped e = ground arith

  -- Whenever the gate answers on a task with a scope, its verdict follows from the invariants, the
  -- guards and the diff that were loaded: it commits exactly when every tool that is on is green, no
  -- changed file is human-only, and every touched contract zone is machine-guardable with a blessed
  -- guard, still red under mutation, for each touched value (or for the zone, where no value is
  -- touched); and it retries exactly when some tool is not green.
  pub run_gate-IsJudged :
      (v : GateVerdict)
      → has_no_scope input ≡ false
      → (run_gate deps input).outcome ≡ ok v
      → IsJudged v
  run_gate-IsJudged v scoped e = judge-IsJudged _ v (judged_of_outcome v scoped e)

  -- A task without a scope is never committed: whatever the environment, a gate that answers on it
  -- escalates.
  run_gate_unscoped :
      (v : GateVerdict)
      → has_no_scope input ≡ true
      → (run_gate deps input).outcome ≡ ok v
      → v.decision ≡ escalate
  unfolding run_gate persist
  run_gate_unscoped v bare e = ground arith

  -- The task names files, or a range that is not empty.
  abbrev pub HasScope : Type 0
  HasScope = ((r : String) × (input.range ≡ some r) × ((r == "") ≡ false)) ⊎ (input.file_set ≢ [])

  scope_holds : has_no_scope input ≡ false → HasScope
  scope_holds h = elim (Option-cases input.range) [
    | inl none ↦ inr (λ e. let h = rw (none, e) at h in cc)
    | inr (r, given) ↦ elim (Bool-cases (r == "")) [
      | inl blank ↦ inr (λ e. let h = rw (given, blank, e) at h in cc)
      | inr named ↦ inl (r, given, named)
    ]
  ]

  -- A gate that answers with a commit had a scope (files, or a range that is not empty), loaded its contract, its guards and its diff,
  -- found every tool that is on green, no changed file human-only, and every touched zone covered.
  pub run_gate-commit :
      (v : GateVerdict)
      → (run_gate deps input).outcome ≡ ok v
      → v.decision ≡ commit
      → HasScope
        × ((j : IsJudged v) × ToolsPass j.changed × ContractHolds j.inv j.pairs j.changed j.text)
  run_gate-commit v e c = elim (Bool-cases (has_no_scope input)) [
    | inl bare ↦ let stops = run_gate_unscoped v bare e in absurd (ground arith)
    | inr scoped ↦
        let j = run_gate-IsJudged v scoped e in
        let (tools, holds) = j.commit_iff.0 c in (scope_holds scoped, (j, tools, holds))
  ]
