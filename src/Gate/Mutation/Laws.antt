-- ===== src/Gate/Mutation/Laws.antt =====
-- The target file is restored on every path, and what a pass shows.
use autodev_harness.Common.{
  ℕ, suc, String, Bool, true, false, not, ◌==◌, ◌≡◌, refl, ap, ◌∙◌, arith, inl, inr, Bool-cases,
  if◌then◌else◌,
}
use autodev_harness.Util.Fallible.{answers, Error, Result, ok, err, and_then}
use autodev_harness.Util.Text.{includes}
use autodev_harness.Gate.Mutation.{
  MutationRecipe, MutationCheckResult, passed, Target, MutationEnv, M, lacks_field, write_file,
  mutated_line, mutated_bytes, mutate, check_body, restore_unless, mutation_check, run_test,
  confirm, set_restored, after_write,
}

-- A target that is marked as restored holds the original.
abbrev IsHonest : String → Target → Type 0
IsHonest original w = w.restored ≡ true → w.content ≡ original

fresh-IsHonest : (original : String) (w : Target) → w.restored ≡ false → IsHonest original w
fresh-IsHonest original w fresh marked = absurd cc

follow :
    {A B : Type 0} (Q : Target → Type 0) (r : Result A × Target) (f : A → M B)
    → ((e : Error) → r.0 ≡ err e → Q r.1)
    → ((a : A) → r.0 ≡ ok a → Q (f a r.1).1)
    → Q (and_then r f).1
follow Q (ok a, w) f h k = k a refl
follow Q (err e, w) f h k = h e refl

choose :
    {A : Type 0} (Q : A → Type 0) (b : Bool) (x y : A)
    → (b ≡ true → Q x)
    → (b ≡ false → Q y)
    → Q (if b then x else y)
choose Q true x y h k = h refl
choose Q false x y h k = k refl

module _ (env : MutationEnv) where
  write_file-restored : (c : String) (w : Target) → (write_file env c w).1.restored ≡ w.restored
  unfolding write_file
  write_file-restored c w = ground arith

  write_file-ok :
      (c : String) (w : Target) (a : Unit {0})
      → (write_file env c w).0 ≡ ok a
      → (write_file env c w).1.content ≡ c
  unfolding write_file
  write_file-ok c w a e = ground arith

  confirm-content : (green : Bool) (w : Target) → (confirm env green w).1.content ≡ w.content
  confirm-content true w = refl
  confirm-content false w =
      follow (λ v. v.content ≡ w.content) (run_test env w) _ (λ _ _. refl) (λ _ _. refl)

  write_file_sound :
      (c : String) (w : Target)
      → ((n : ℕ) → env.write_fault n ≡ false)
      → write_file env c w ≡ (ok tt, record w { content = c; writes = suc w.writes })
  unfolding write_file
  write_file_sound c w sound = rw (sound w.writes) refl

  restore_unless-content :
      (original : String) (r : Result MutationCheckResult × Target)
      → ((n : ℕ) → env.write_fault n ≡ false)
      → IsHonest original r.1
      → (restore_unless env original r).1.content ≡ original
  unfolding restore_unless
  restore_unless-content original (r, w) sound h =
      choose (λ q. q.1.content ≡ original) w.restored (r, w)
        (after_write r (write_file env original w)) h
        (λ _. rw (write_file_sound original w sound) refl)

  module _ (recipe : MutationRecipe) where
    mutate-IsHonest :
        (original : String) (w : Target)
        → w.restored ≡ false
        → IsHonest original (mutate env recipe original w).1
    unfolding mutate
    mutate-IsHonest original w fresh =
        let w1 = (write_file env (mutated_bytes env recipe original) w).1 in
        let f1 : w1.restored ≡ false = write_file-restored _ w ∙ fresh in
        let w2 : Target = record w1 { runs = suc w1.runs } in
        follow (IsHonest original) (write_file env (mutated_bytes env recipe original) w) _
          (λ _ _. fresh-IsHonest original w1 f1)
          (λ _ _.
            follow (IsHonest original) (run_test env w1) _ (λ _ _. fresh-IsHonest original w2 f1)
              (λ green _.
                follow (IsHonest original) (write_file env original w2)
                  (λ _ v. confirm env green (set_restored v).1)
                  (λ _ _.
                    fresh-IsHonest original (write_file env original w2).1
                      (write_file-restored original w2 ∙ f1))
                  (λ a e _. confirm-content green _ ∙ write_file-ok original w2 a e)))

    check_body-IsHonest :
        (original : String) (w : Target)
        → w.restored ≡ false
        → IsHonest original (check_body env recipe original w).1
    unfolding check_body
    check_body-IsHonest original w fresh =
        let w1 : Target = record w { runs = suc w.runs } in
        follow (IsHonest original) (run_test env w) _ (λ _ _. fresh-IsHonest original w1 fresh)
          (λ baseline _. elim (Bool-cases baseline) [
            | inl green ↦ elim (Bool-cases (includes (env.decode original) recipe.locator)) [
              | inl found ↦ rw (green, found) (mutate-IsHonest original w1 fresh)
              | inr stale ↦ rw (green, stale) (fresh-IsHonest original w1 fresh)
            ]
            | inr red ↦ rw red (fresh-IsHonest original w1 fresh)
          ])

    -- When every write succeeds, the target file ends as it began, whatever the recipe says and
    -- whatever the test runs answer or throw.
    pub mutation_check-content :
        (w : Target)
        → ((n : ℕ) → env.write_fault n ≡ false)
        → (mutation_check env recipe w).1.content ≡ w.content
    unfolding mutation_check
    mutation_check-content w sound =
        let begun : Target = record w { restored = false } in
        let Q : Result MutationCheckResult × Target → Type 0 = λ q. q.1.content ≡ w.content in
        choose Q (lacks_field recipe) _ _ (λ _. refl)
          (λ _.
            choose Q (not env.exists) _ _ (λ _. refl)
              (λ _.
                choose Q (mutated_line env recipe == recipe.locator) _ _ (λ _. refl)
                  (λ _.
                    restore_unless-content w.content (check_body env recipe w.content begun) sound
                      (check_body-IsHonest w.content begun refl))))

after_write-ok :
    (r : Result MutationCheckResult) (x : Result (Unit {0}) × Target) (a : MutationCheckResult)
    → (after_write r x).0 ≡ ok a
    → r ≡ ok a
after_write-ok r (ok _, w) a e = e
after_write-ok r (err x, w) a e = absurd cc

module _ (env : MutationEnv) (recipe : MutationRecipe) where
  restore_unless-ok :
      (original : String) (r : Result MutationCheckResult × Target) (a : MutationCheckResult)
      → (restore_unless env original r).0 ≡ ok a
      → r.0 ≡ ok a
  unfolding restore_unless
  restore_unless-ok original (r, w) a =
      choose (λ q. q.0 ≡ ok a → r ≡ ok a) w.restored (r, w)
        (after_write r (write_file env original w)) (λ _ e. e)
        (λ _ e. after_write-ok r (write_file env original w) a e)

  -- The two runs behind a green baseline that pass.
  abbrev pub Flips : String → ℕ → Type 0
  Flips original n =
      (env.run_guard_test n (mutated_bytes env recipe original) ≡ ok false)
      × (env.run_guard_test (suc n) original ≡ ok true)

  confirm-passed :
      (green : Bool) (w : Target)
      → (confirm env green w).0 ≡ ok passed
      → (green ≡ false) × (env.run_guard_test w.runs w.content ≡ ok true)
  confirm-passed true w e = absurd cc
  confirm-passed false w e = answers (run_test env w) _ e λ after h e1. (refl, ground arith)

  write_file-val :
      (c : String) (w : Target) (a : Unit {0})
      → (write_file env c w).0 ≡ ok a
      → write_file env c w ≡ (ok tt, record w { content = c; writes = suc w.writes })
  unfolding write_file
  write_file-val c w a e = elim (Bool-cases (env.write_fault w.writes)) [
    | inl faulty ↦ absurd (ground arith)
    | inr fine ↦ rw fine refl
  ]

  mutate-passed :
      (original : String) (w : Target)
      → (mutate env recipe original w).0 ≡ ok passed
      → Flips original w.runs
  unfolding mutate
  mutate-passed original w e =
      let mutated = mutated_bytes env recipe original in
      let w1 : Target = record w { content = mutated; writes = suc w.writes } in
      let w2 : Target = record w1 { runs = suc w.runs } in
      answers (write_file env mutated w) _ e λ a h1 e1.
        let f1 = rw (write_file-val mutated w a h1) at e1 in
        answers (run_test env w1) _ f1 λ green h2 e2.
          answers (write_file env original w2) _ e2 λ b h3 e3.
            let f3 = rw (write_file-val original w2 b h3) at e3 in
            let (red, after) = confirm-passed green _ f3 in (h2 ∙ ap ok red, after)

  -- A baseline that is green on a recipe that is not stale.
  abbrev pub Baseline : Target → Type 0
  Baseline w =
      (env.run_guard_test w.runs w.content ≡ ok true)
      × (includes (env.decode w.content) recipe.locator ≡ true)
      × Flips w.content (suc w.runs)

  check_body-passed : (w : Target) → (check_body env recipe w.content w).0 ≡ ok passed → Baseline w
  unfolding check_body
  check_body-passed w e = answers (run_test env w) _ e λ baseline h e1. elim (Bool-cases baseline) [
    | inl green ↦ elim (Bool-cases (includes (env.decode w.content) recipe.locator)) [
      | inl found ↦ (h ∙ ap ok green, found, mutate-passed w.content _ (rw (green, found) at e1))
      | inr stale ↦ let no = rw (green, stale) at e1 in absurd cc
    ]
    | inr red ↦ let no = rw red at e1 in absurd cc
  ]

  -- A mutation check that passes had a whole recipe on an existing file whose locator the mutation
  -- changes, and the guard was green on the original file, whose text has the locator, red on the
  -- mutated file, and green again on the original.
  pub mutation_check-passed :
      (w : Target)
      → (mutation_check env recipe w).0 ≡ ok passed
      → (lacks_field recipe ≡ false)
        × (env.exists ≡ true)
        × ((mutated_line env recipe == recipe.locator) ≡ false)
        × Baseline w
  unfolding mutation_check
  mutation_check-passed w =
      let begun : Target = record w { restored = false } in
      let Q : Result MutationCheckResult × Target → Type 0 = λ q.
        q.0 ≡ ok passed
        → (lacks_field recipe ≡ false)
          × (env.exists ≡ true)
          × ((mutated_line env recipe == recipe.locator) ≡ false)
          × Baseline w in
      choose Q (lacks_field recipe) _ _ (λ _ e. absurd cc)
        (λ whole.
          choose Q (not env.exists) _ _ (λ _ e. absurd cc)
            (λ there.
              choose Q (mutated_line env recipe == recipe.locator) _ _ (λ _ e. absurd cc)
                (λ changed e. (
                  whole,
                  ground arith,
                  changed,
                  check_body-passed begun (
                      restore_unless-ok w.content (check_body env recipe w.content begun) passed e),
                ))))
