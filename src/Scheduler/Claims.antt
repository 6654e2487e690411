-- ===== src/Scheduler/Claims.antt =====
-- What a claim guarantees, and when there is none.
use mathlib.Core.List.{Memᴰ}
use autodev_harness.Common.{
  String, Bool, true, false, ◌&&◌, none, some, List, [], ◌∷◌, ◌≡◌, refl, ◌↔◌, inl, inr, arith, All,
  All-map, map-All, Option-cases, Bool-cases, elem, every→All,
}
use autodev_harness.Blackboard.{
  Task, Board, QueueState, pending, active, queue_dir, move_task, list_tasks, queue_path,
}
use autodev_harness.Blackboard.Moves.{sort_tasks-All, All-sort_tasks}
use autodev_harness.Scheduler.{
  file_sets_disjoint, deps_met, unlocked, claim_from, pending_sorted, locked_tasks, done_ids,
  claim_next_task,
}

abbrev pub Apart : Task → Task → Type 0
Apart t u = file_sets_disjoint t.file_set u.file_set ≡ true

module _ (ids : List String) (locked : List Task) where
  abbrev pub may_claim : Task → Bool
  may_claim t = deps_met ids t && unlocked locked t

  abbrev Sound : Board → List Task → Task → Board → Type 0
  Sound now ts t now' =
      Memᴰ t ts
      × (deps_met ids t ≡ true)
      × (unlocked locked t ≡ true)
      × (move_task t.id pending active now ≡ some now')

  Sound-cons :
      (now : Board) (x : Task) (ts : List Task) {t : Task} {now' : Board}
      → Sound now ts t now'
      → Sound now (x ∷ ts) t now'
  Sound-cons now x ts (m, d, u, mv) = (Memᴰ.tail m, d, u, mv)

  claim_from-Sound :
      (now : Board) (ts : List Task) {t : Task} {now' : Board}
      → claim_from ids locked now ts ≡ (some t, now')
      → Sound now ts t now'
  unfolding claim_from
  claim_from-Sound now [] e = absurd (ground arith)
  claim_from-Sound now (x ∷ ts) {t} {now'} e = elim (Bool-cases (may_claim x)) [
    | inl fits ↦ elim (Option-cases (move_task x.id pending active now)) [
      | inl lost ↦ Sound-cons now x ts (claim_from-Sound now ts (ground arith))
      | inr (moved, won) ↦
          let same : t ≡ x = ground arith in
          (Memᴰ.head same, rw same (ground arith), rw same (ground arith), rw same (ground arith))
    ]
    | inr unfit ↦ Sound-cons now x ts (claim_from-Sound now ts (ground arith))
  ]

  abbrev Loses : Board → Task → Type 0
  Loses now t = may_claim t ≡ true → move_task t.id pending active now ≡ none

  claim_from-none :
      (now : Board) (ts : List Task) {now' : Board}
      → claim_from ids locked now ts ≡ (none, now')
      → (now' ≡ now) × All (Loses now) ts
  unfolding claim_from
  claim_from-none now [] e = (ground arith, tt)
  claim_from-none now (x ∷ ts) {now'} e = elim (Option-cases (move_task x.id pending active now)) [
    | inl lost ↦
        let (same, rest) = claim_from-none now ts {now' = now'} (ground arith) in
        (same, (λ _. lost, rest))
    | inr (moved, won) ↦
        let unfit : may_claim x ≡ false = ground arith in
        let (same, rest) = claim_from-none now ts {now' = now'} (ground arith) in
        (same, (λ fits. absurd (ground arith), rest))
  ]

  claim_from-All_lose :
      (now : Board) (ts : List Task) → All (Loses now) ts → (claim_from ids locked now ts).0 ≡ none
  unfolding claim_from
  claim_from-All_lose now [] h = refl
  claim_from-All_lose now (x ∷ ts) (loses, h) = ground (arith, loses, claim_from-All_lose now ts h)

module _ (before : String → String → Bool) where
  -- A claimed task was listed as pending, has every dependency among the done ids, shares no
  -- normalised path with any task listed as active or escalated, and is the one that is renamed
  -- from pending to active, whatever other processes did since the lists were read.
  pub claim_next_task_sound :
      (seen now : Board) (t : Task) (now' : Board)
      → claim_next_task before seen now ≡ (some t, now')
      → Memᴰ t (pending_sorted before seen)
        × All (λ d. elem d (done_ids before seen) ≡ true) t.depends_on
        × All (Apart t) (locked_tasks before seen)
        × (move_task t.id pending active now ≡ some now')
  unfolding claim_next_task
  claim_next_task_sound seen now t now' e =
      let (m, d, u, mv) =
        claim_from-Sound (done_ids before seen) (locked_tasks before seen) now _ e in
      (m, every→All _ _ d, every→All _ _ u, mv)

  -- No task is claimed exactly when every listed pending task misses a dependency, shares a path
  -- with a locked task, or loses its rename.
  pub claim_next_task-none_iff :
      (seen now : Board)
      → ((claim_next_task before seen now).0 ≡ none)
        ↔ All
            (λ t.
              may_claim (done_ids before seen) (locked_tasks before seen) t ≡ true
              → move_task t.id pending active now ≡ none)
            (pending_sorted before seen)
  unfolding claim_next_task
  claim_next_task-none_iff seen now = (
    λ e. (claim_from-none _ _ now _ {now' = (claim_next_task before seen now).1} (ground arith)).1,
    claim_from-All_lose _ _ now _,
  )

  -- What holds of every listed task holds of every file, read under its path.
  pub All-list_tasks :
      (P : Task → Type 0) (s : QueueState) (b : Board)
      → All P (list_tasks before s b)
      → All (λ e. P (record (e.1) { path = queue_path s e.0 })) (queue_dir s b)
  unfolding list_tasks
  All-list_tasks P s b h = All-map P _ (queue_dir s b) (All-sort_tasks before P _ h)

  pub list_tasks-All :
      (P : Task → Type 0) (s : QueueState) (b : Board)
      → All (λ e. P (record (e.1) { path = queue_path s e.0 })) (queue_dir s b)
      → All P (list_tasks before s b)
  unfolding list_tasks
  list_tasks-All P s b h = sort_tasks-All before P _ (map-All P _ (queue_dir s b) h)
