-- ===== src/Supervisor/Room.antt =====
-- The budget that is left to a set of tasks.
use autodev_harness.Common.{
  ℕ, ◌+◌, ◌-◌, ◌*◌, String, true, List, [], ◌∷◌, ◌≡◌, ◌≤◌, ◌<◌, arith, elem, eq_iff, length,
}
use autodev_harness.Supervisor.Effects.{Night, seen_of}

-- The budget that the tally leaves to some tasks.
abbrev pub room : ℕ → List String → Night → ℕ
room n [] w = 0
room n (id ∷ ids) w = (n - seen_of id w) + room n ids w

pub room_bound : (n : ℕ) (ids : List String) (w : Night) → room n ids w ≤ length ids * n
room_bound n [] w = omega arith
room_bound n (id ∷ ids) w = let h = room_bound n ids w in omega arith

-- No tally has fallen.
abbrev pub Keeps : Night → Night → Type 0
Keeps w v = (id : String) → seen_of id w ≤ seen_of id v

pub room-Keeps : (n : ℕ) (ids : List String) (w v : Night) → Keeps w v → room n ids v ≤ room n ids w
room-Keeps n [] w v h = omega arith
room-Keeps n (id ∷ ids) w v h = let here = h id in let later = room-Keeps n ids w v h in omega arith

pub room-rises :
    (n : ℕ) (id : String) (ids : List String) (w v : Night)
    → elem id ids ≡ true
    → seen_of id w < n
    → Keeps w v
    → seen_of id w < seen_of id v
    → room n ids v < room n ids w
room-rises n id [] w v m l h k = cc
room-rises n id (j ∷ ids) w v m l h k = ground (
  arith,
  eq_iff j id,
  h j,
  room-Keeps n ids w v h,
  λ (e : elem id ids ≡ true). room-rises n id ids w v e l h k,
)
