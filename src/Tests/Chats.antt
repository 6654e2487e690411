-- ===== src/Tests/Chats.antt =====
-- A chat that is opened while another project's call times out.
use autodev_harness.Common.{lookup, ℕ, String, true, none, some, List, [], ◌∷◌, ◌≡◌, refl}
use autodev_harness.Chat.{Manager, Handle, start_call, start_ready, start_failed, late_ready}
use autodev_harness.Chat.History.{new_manager, here, next, starts, is_ready, fails}
use autodev_harness.Chat.Slots.{IsSound}
use autodev_harness.Chat.Laws.{Reach-IsSound}

abbrev handle : Handle
handle = record { session_id = "s1"; process = 7 }

abbrev two_starts : Manager
two_starts = (start_call "c2" "shop" (some 3) (start_call "c1" "site" none new_manager).1).1

abbrev opened_one : Manager
opened_one = start_ready "c1" handle 100 two_starts

abbrev timed_out : Manager
timed_out = start_failed "c2" true opened_one

slots_left : ◌≡◌ {A = List String} timed_out.projects_in_flight ("site" ∷ [])
unfolding start_call start_ready start_failed
slots_left = refl

processes_closed :
    ◌≡◌ {A = List ℕ}
      (late_ready "c2" (record { session_id = "s2"; process = 8 }) timed_out).closings
      (8 ∷ [])
unfolding start_call start_ready start_failed late_ready
processes_closed = refl

free : lookup "s1" two_starts.sessions ≡ none
unfolding start_call
free = refl

Reach-IsSound_example : IsSound timed_out
Reach-IsSound_example = Reach-IsSound (
    next
      (next (next (next here (starts "c1" "site" none _)) (starts "c2" "shop" (some 3) _))
        (is_ready "c1" handle 100 two_starts free))
      (fails "c2" true opened_one))
