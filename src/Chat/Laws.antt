-- ===== src/Chat/Laws.antt =====
-- Closing and reaping, and every history of a manager.
use mathlib.Core.Path.{subst}
use autodev_harness.Common.{
  eq_refl, sym, ◌∙◌, ap, ℕ, ◌-◌, String, Bool, true, false, List, [], ◌∷◌, ◌≡◌, refl, lookup, arith,
  Option-cases, inl, inr,
}
use autodev_harness.Chat.{
  Manager, Session, release, force_close, is_idle, reap_from, reap_once, close_each, close_all,
}
use autodev_harness.Chat.History.{
  new_manager, Step, starts, is_ready, is_refused, fails, is_late, sends, is_sent, attaches,
  detaches, cancels, reaps, closes, Reach, here, next,
}
use autodev_harness.Chat.Slots.{
  IsSound, start_call-IsSound, start_ready-IsSound, start_refused-IsSound, start_failed-IsSound,
  late_ready-IsSound, force_close-IsSound, cancel-IsSound, send_call-IsSound, send_done-IsSound,
  attach_stream-IsSound, detach_stream-IsSound, either,
}

reap_from-IsSound :
    (cutoff : ℕ) (snapshot : List (String × Session)) (m : Manager)
    → IsSound m
    → IsSound (reap_from cutoff snapshot m)
unfolding reap_from
reap_from-IsSound cutoff [] m v = v
reap_from-IsSound cutoff ((id, s) ∷ rest) m v =
    reap_from-IsSound cutoff rest _
      (either IsSound (is_idle cutoff s) (force_close id m) m (force_close-IsSound id m v) v)

-- The first session is the one that is closed.
force_close_first :
    (id : String) (s : Session) (rest : List (String × Session)) (m : Manager)
    → m.sessions ≡ (id, s) ∷ rest
    → (force_close id m).sessions ≡ rest
unfolding force_close release
force_close_first id s rest m e = rw (e, force_close) (ground (arith, eq_refl id))

close_each-sessions :
    (ks : List (String × Session)) (m : Manager) → m.sessions ≡ ks → (close_each ks m).sessions ≡ []
unfolding close_each
close_each-sessions [] m e = e
close_each-sessions ((id, s) ∷ rest) m e =
    close_each-sessions rest (force_close id m) (force_close_first id s rest m e)

force_close-closed :
    (id : String) (m : Manager) (b : Bool)
    → force_close id (record m { closed = b }) ≡ record (force_close id m) { closed = b }
unfolding force_close release
force_close-closed id m b = elim (Option-cases (lookup id m.sessions)) [
  | inl e ↦ rw (e, force_close) refl
  | inr (s, e) ↦ rw (e, force_close) refl
]

close_each-closed :
    (ks : List (String × Session)) (m : Manager) (b : Bool)
    → close_each ks (record m { closed = b }) ≡ record (close_each ks m) { closed = b }
unfolding close_each
close_each-closed [] m b = refl
close_each-closed ((id, s) ∷ rest) m b =
    ap (close_each rest) (force_close-closed id m b) ∙ close_each-closed rest (force_close id m) b

close_each-IsSound :
    (ks : List (String × Session)) (m : Manager) → IsSound m → IsSound (close_each ks m)
unfolding close_each
close_each-IsSound [] m v = v
close_each-IsSound ((id, s) ∷ rest) m v =
    close_each-IsSound rest (force_close id m) (force_close-IsSound id m v)

close_all-IsSound : (m : Manager) → IsSound m → IsSound (close_all m)
unfolding close_all
close_all-IsSound m v =
    let w =
      close_each-IsSound m.sessions (record m { closed = false })
        (record { slots = v.slots; owned = v.owned; shut = λ closed. cc }) in
    let u = subst IsSound (close_each-closed m.sessions m false) w in
    subst IsSound (sym (close_each-closed m.sessions m true)) (record {
      slots = u.slots;
      owned = u.owned;
      shut = λ _. close_each-sessions m.sessions m refl;
    })

Step-IsSound : {m u : Manager} → Step m u → IsSound m → IsSound u
unfolding reap_once
Step-IsSound (starts call project sink m) v = start_call-IsSound call project sink m v
Step-IsSound (is_ready call handle now m new) v = start_ready-IsSound call handle now m new v
Step-IsSound (is_refused call timed_out m) v = start_refused-IsSound call timed_out m v
Step-IsSound (fails call timed_out m) v = start_failed-IsSound call timed_out m v
Step-IsSound (is_late call handle m) v = late_ready-IsSound call handle m v
Step-IsSound (sends id now m) v = send_call-IsSound id now m v
Step-IsSound (is_sent handle now m) v = send_done-IsSound handle now m v
Step-IsSound (attaches id sink m) v = attach_stream-IsSound id sink m v
Step-IsSound (detaches id sink m) v = detach_stream-IsSound id sink m v
Step-IsSound (cancels id m) v = cancel-IsSound id m v
Step-IsSound (reaps now idle_timeout m) v = reap_from-IsSound (now - idle_timeout) m.sessions m v
Step-IsSound (closes m) v = close_all-IsSound m v

-- In every history from a new manager, whatever order its calls, the adapter's answers and the
-- timers come in, if the adapter gives no id that an open session has: each project that counts as
-- open has exactly one holder, a call that waits or a session, and no other project has one; every
-- process that the adapter started is that of a session or its `close` was called; and a manager that
-- was closed has no session.
pub Reach-IsSound : {m : Manager} → Reach new_manager m → IsSound m
Reach-IsSound here = record { slots = λ p. refl; owned = λ h. omega arith; shut = λ closed. refl }
Reach-IsSound (next r step) = Step-IsSound step (Reach-IsSound r)
