-- ===== src/Chat/Slots.antt =====
-- What holds in every history of a manager.
use autodev_harness.Common.{
  ap, ℕ, ◌+◌, ◌≤◌, String, Bool, true, false, not, ◌&&◌, Option, none, some, List, [], ◌∷◌, ◌≡◌,
  refl, lookup, elem, nat_eq, ◌==◌, eq_iff, if◌then◌else◌, arith, Bool-cases, Option-cases, inl,
  inr,
}
use autodev_harness.Chat.{
  opened, Manager, Handle, Session, Start, Refused, change_key, delete_text, end_sink,
  has_open_session, start_call, start_ready, start_refused, start_failed, late_ready, send_call,
  turn_ended, send_done, attach_stream, is_sink, detach_stream, release, force_close, cancel,
}
use autodev_harness.Chat.Totals.{total, total-delete_key, total-set_key, total-change_key}

abbrev one_if : Bool → ℕ
one_if b = if b then 1 else 0

abbrev count : ℕ → List ℕ → ℕ
count p [] = 0
count p (q ∷ ps) = one_if (nat_eq q p) + count p ps

abbrev starts_for : String → Start → ℕ
starts_for p w = one_if (w.project == p)

abbrev refused_for : String → Refused → ℕ
refused_for p w = one_if (w.project == p)

abbrev open_for : String → Session → ℕ
open_for p s = one_if (s.project == p)

abbrev runs : ℕ → Session → ℕ
runs h s = one_if (nat_eq s.handle.process h)

-- How many calls and sessions hold the slot of a project.
abbrev pub holders : String → Manager → ℕ
holders p m =
    total (starts_for p) m.starting
    + total (refused_for p) m.refusing
    + total (open_for p) m.sessions

pub record IsSound (m : Manager) : Type 0 where
  -- A project has one holder if it counts as open, and none otherwise.
  pub slots : (p : String) → holders p m ≡ one_if (has_open_session m p)
  -- A process that was started is that of a session, or its `close` was called.
  pub owned : (h : ℕ) → count h m.started ≤ total (runs h) m.sessions + count h m.closings
  -- A manager that was closed has no session.
  pub shut : m.closed ≡ true → m.sessions ≡ []

pub either {ℓ κ} :
    {A : Type ℓ} (Q : A → Type κ) (b : Bool) (x y : A) → Q x → Q y → Q (if b then x else y)
either Q true x y p q = p
either Q false x y p q = q

elem-delete_text :
    (p q : String) (xs : List String) → elem p (delete_text q xs) ≡ (elem p xs && not (q == p))
elem-delete_text p q [] = ground arith
elem-delete_text p q (x ∷ xs) =
    ground (arith, elem-delete_text p q xs, eq_iff x q, eq_iff x p, eq_iff q p)

pub start_call-IsSound :
    (call project : String) (sink : Option ℕ) (m : Manager)
    → IsSound m
    → IsSound (start_call call project sink m).1
unfolding start_call
start_call-IsSound call project sink m v = elim (Bool-cases (has_open_session m project)) [
  | inl e ↦ rw e v
  | inr e ↦ rw e (record {
    slots = λ p. ground (arith, v.slots p, eq_iff project p);
    owned = v.owned;
    shut = v.shut;
  })
]

pub start_ready-IsSound :
    (call : String) (handle : Handle) (now : ℕ) (m : Manager)
    → lookup handle.session_id m.sessions ≡ none
    → IsSound m
    → IsSound (start_ready call handle now m)
unfolding start_ready
start_ready-IsSound call handle now m new v = elim (Option-cases (lookup call m.starting)) [
  | inl e ↦ rw (e, start_ready) v
  | inr (w, e) ↦ elim (Bool-cases m.closed) [
    | inl c ↦
        rw (e, c, start_ready)
          (record {
            slots =
                λ p. omega (arith, v.slots p, total-delete_key (starts_for p) call w m.starting e);
            owned = λ h. omega (arith, v.owned h);
            shut = λ _. v.shut c;
          })
    | inr c ↦
        rw (e, c, start_ready)
          (record {
            slots = λ p. omega (
              arith,
              v.slots p,
              total-delete_key (starts_for p) call w m.starting e,
              total-set_key (open_for p) handle.session_id (opened w handle now) m.sessions new,
            );
            owned = λ h. omega (
              arith,
              v.owned h,
              total-set_key (runs h) handle.session_id (opened w handle now) m.sessions new,
            );
            shut = λ closed. cc;
          })
  ]
]

pub start_refused-IsSound :
    (call : String) (timed_out : Bool) (m : Manager)
    → IsSound m
    → IsSound (start_refused call timed_out m)
unfolding start_refused
start_refused-IsSound call timed_out m v = elim (Option-cases (lookup call m.refusing)) [
  | inl e ↦ rw (e, start_refused) v
  | inr (w, e) ↦
      rw (e, start_refused)
        (record {
          slots = λ p. ground (
            arith,
            v.slots p,
            total-delete_key (refused_for p) call w m.refusing e,
            elem-delete_text p w.project m.projects_in_flight,
          );
          owned = λ h. ground (arith, v.owned h);
          shut = v.shut;
        })
]

pub start_failed-IsSound :
    (call : String) (timed_out : Bool) (m : Manager)
    → IsSound m
    → IsSound (start_failed call timed_out m)
unfolding start_failed
start_failed-IsSound call timed_out m v = elim (Option-cases (lookup call m.starting)) [
  | inl e ↦ rw (e, start_failed) v
  | inr (w, e) ↦
      rw (e, start_failed)
        (record {
          slots = λ p. ground (
            arith,
            v.slots p,
            total-delete_key (starts_for p) call w m.starting e,
            elem-delete_text p w.project m.projects_in_flight,
          );
          owned = v.owned;
          shut = v.shut;
        })
]

pub late_ready-IsSound :
    (call : String) (handle : Handle) (m : Manager) → IsSound m → IsSound (late_ready call handle m)
unfolding late_ready
late_ready-IsSound call handle m v = elim (Option-cases (lookup call m.late)) [
  | inl e ↦ rw (e, late_ready) v
  | inr (w, e) ↦
      rw (e, late_ready)
        (record { slots = v.slots; owned = λ h. omega (arith, v.owned h); shut = v.shut })
]

closed_session-IsSound :
    (id : String) (s : Session) (m : Manager)
    → lookup id m.sessions ≡ some s
    → IsSound m
    → IsSound (record (release id s m) { closings = s.handle.process ∷ m.closings })
unfolding release
closed_session-IsSound id s m e v = record {
  slots = λ p. ground (
    arith,
    v.slots p,
    total-delete_key (open_for p) id s m.sessions e,
    elem-delete_text p s.project m.projects_in_flight,
  );
  owned = λ h. omega (arith, v.owned h, total-delete_key (runs h) id s m.sessions e);
  shut = λ closed. rw (v.shut closed);
}

pub force_close-IsSound : (id : String) (m : Manager) → IsSound m → IsSound (force_close id m)
unfolding force_close
force_close-IsSound id m v = elim (Option-cases (lookup id m.sessions)) [
  | inl e ↦ rw (e, force_close) v
  | inr (s, e) ↦ rw (e, force_close) (closed_session-IsSound id s m e v)
]

pub cancel-IsSound : (id : String) (m : Manager) → IsSound m → IsSound (cancel id m).1
unfolding cancel
cancel-IsSound id m v = elim (Option-cases (lookup id m.sessions)) [
  | inl e ↦ rw (e, cancel) v
  | inr (s, e) ↦ rw (e, cancel) (closed_session-IsSound id s m e v)
]

-- A change of a session that keeps its project and its process.
changed_session-IsSound :
    (id : String) (f : Session → Session) (m : Manager) (ended : List ℕ)
    → ((s : Session) → ((f s).project ≡ s.project) × ((f s).handle ≡ s.handle))
    → IsSound m
    → IsSound (record m { sessions = change_key id f m.sessions; ended = ended })
changed_session-IsSound id f m ended same v = record {
  slots = λ p. omega (
    arith,
    v.slots p,
    total-change_key (open_for p) id f m.sessions λ s. ap (λ q. one_if (q == p)) (same s).0,
  );
  owned = λ h. omega (
    arith,
    v.owned h,
    total-change_key (runs h) id f m.sessions
        λ s. ap (λ (k : Handle). one_if (nat_eq k.process h)) (same s).1,
  );
  shut = λ closed. rw (v.shut closed);
}

pub send_call-IsSound :
    (id : String) (now : ℕ) (m : Manager) → IsSound m → IsSound (send_call id now m).1
unfolding send_call
send_call-IsSound id now m v = elim (Option-cases (lookup id m.sessions)) [
  | inl e ↦ rw (e, send_call) v
  | inr (s, e) ↦ elim (Bool-cases s.turn_in_flight) [
    | inl t ↦ rw (e, t, send_call) v
    | inr t ↦
        rw (e, t, send_call)
          (changed_session-IsSound id (λ u. record u { last_activity = now; turn_in_flight = true })
            m m.ended (λ u. (refl, refl)) v)
  ]
]

pub send_done-IsSound :
    (handle : Handle) (now : ℕ) (m : Manager) → IsSound m → IsSound (send_done handle now m)
unfolding send_done
send_done-IsSound handle now m v =
    changed_session-IsSound handle.session_id (turn_ended handle now) m m.ended
      (λ u. (ground arith, ground arith)) v

pub attach_stream-IsSound :
    (id : String) (sink : ℕ) (m : Manager) → IsSound m → IsSound (attach_stream id sink m).1
unfolding attach_stream
attach_stream-IsSound id sink m v = elim (Option-cases (lookup id m.sessions)) [
  | inl e ↦ rw (e, attach_stream) v
  | inr (s, e) ↦
      rw (e, attach_stream)
        (changed_session-IsSound id (λ u. record u { sink = some sink }) m (end_sink s.sink m.ended)
          (λ u. (refl, refl)) v)
]

pub detach_stream-IsSound :
    (id : String) (sink : ℕ) (m : Manager) → IsSound m → IsSound (detach_stream id sink m).1
unfolding detach_stream
detach_stream-IsSound id sink m v = elim (Option-cases (lookup id m.sessions)) [
  | inl e ↦ rw (e, detach_stream) v
  | inr (s, e) ↦ elim (Bool-cases (is_sink sink s.sink)) [
    | inl t ↦
        rw (e, t, detach_stream)
          (changed_session-IsSound id (λ u. record u { sink = none }) m m.ended (λ u. (refl, refl))
            v)
    | inr t ↦ rw (e, t, detach_stream) v
  ]
]
