-- ===== src/Escalate/Delivered.antt =====
-- What an escalation leaves behind.
use mathlib.Core.Path.{subst}
use autodev_harness.Common.{
  Bool, true, false, Option, none, some, List, [], ◌∷◌, ◌++◌, ◌≡◌, refl, arith, ◌⊎◌, inl, inr, ◌∙◌,
}
use autodev_harness.Util.Chars.{Text, same}
use autodev_harness.Escalate.Body.{EscalationInput, build_body, parse_escalation}
use autodev_harness.Escalate.RoundTrip.{IsWritable, parse_escalation-build_body}
use autodev_harness.Escalate.Delivery.{
  Delivery, telegram, outbox, EscalateDeps, Channel, read_file, or_empty, artifact_path,
  outbox_path, build_summary, outbox_line, truthy, chat_of, write_artifact, append_outbox,
  send_summary, escalate,
}

same_refl : (t : Text) → same t t ≡ true
same_refl [] = refl
same_refl (c ∷ t) = ground (arith, same_refl t)

module _ (deps : EscalateDeps) (i : EscalationInput) where
  written_file :
      (c : Channel)
      → deps.write_fault ≡ false
      → read_file (artifact_path deps i) (write_artifact deps i c).files ≡ some (build_body i)
  written_file c h = ground (arith, same_refl (artifact_path deps i))

  written-pushed : (c : Channel) → (write_artifact deps i c).pushed ≡ c.pushed
  written-pushed c = ground arith

  -- The delivery leaves the artifact.
  send_summary-files :
      (p : Text) (token chat : Option Text) (post : Option Bool) (c : Channel)
      → same (outbox_path deps) p ≡ false
      → read_file p (send_summary deps i token chat post c).1.files ≡ read_file p c.files
  send_summary-files p none chat post c n = ground arith
  send_summary-files p (some t) none post c n = ground arith
  send_summary-files p (some t) (some u) none c n = ground arith
  send_summary-files p (some t) (some u) (some true) c n = ground arith
  send_summary-files p (some t) (some u) (some false) c n = refl

  -- The escalation was pushed, or it is the last line of the outbox.
  abbrev pub IsDelivered : List (Text × Text × Text) → Delivery × Channel → Type 0
  IsDelivered before (d, e) =
      ((d ≡ telegram)
        × (token : Text) × (chat : Text) × (e.pushed ≡ (token, chat, build_summary i) ∷ before))
      ⊎ ((d ≡ outbox)
          × (e.pushed ≡ before)
          × (old : Text) × (read_file (outbox_path deps) e.files ≡ some (old ++ outbox_line i)))

  queued :
      (c : Channel)
      → deps.append_fault ≡ false
      → IsDelivered c.pushed (outbox, append_outbox deps i c)
  queued c h = inr (
    refl,
    ground arith,
    or_empty (read_file (outbox_path deps) c.files),
    ground (arith, same_refl (outbox_path deps)),
  )

  send_summary-IsDelivered :
      (token chat : Option Text) (post : Option Bool) (c : Channel)
      → deps.append_fault ≡ false
      → IsDelivered c.pushed (send_summary deps i token chat post c)
  send_summary-IsDelivered none chat post c h = queued c h
  send_summary-IsDelivered (some t) none post c h = queued c h
  send_summary-IsDelivered (some t) (some u) none c h = queued c h
  send_summary-IsDelivered (some t) (some u) (some true) c h = queued c h
  send_summary-IsDelivered (some t) (some u) (some false) c h = inl (refl, t, u, refl)

module _ (deps : EscalateDeps) (i : EscalationInput) (c : Channel) where
  -- When the outbox can be appended to, an escalation ends delivered, whatever else throws: it
  -- answers `telegram` and its summary was pushed, or it answers `outbox`, nothing was pushed and its
  -- line ends the outbox file.
  pub escalate-IsDelivered :
      deps.append_fault ≡ false
      → IsDelivered deps i c.pushed ((escalate deps i c).0.delivery, (escalate deps i c).1)
  unfolding escalate
  escalate-IsDelivered h =
      subst
        (λ ps. IsDelivered deps i ps (
          send_summary deps i (truthy deps.token) (chat_of deps (truthy deps.token))
            deps.telegram_post (write_artifact deps i c)))
        (written-pushed deps i c)
        (send_summary-IsDelivered deps i (truthy deps.token) (chat_of deps (truthy deps.token))
          deps.telegram_post (write_artifact deps i c) h)

  -- When the artifact was written, the escalation can be written and its path is not the outbox's,
  -- then the file at the path that is answered parses to the escalation.
  escalate-parse_escalation :
      IsWritable i
      → same (outbox_path deps) (artifact_path deps i) ≡ false
      → (escalate deps i c).0.artifact_written ≡ true
      → (t : Text) × (read_file (escalate deps i c).0.path (escalate deps i c).1.files ≡ some t)
        × (parse_escalation t ≡ some i)
  unfolding escalate
  escalate-parse_escalation w n h = (
    build_body i,
    send_summary-files deps i (artifact_path deps i) (truthy deps.token)
          (chat_of deps (truthy deps.token)) deps.telegram_post (write_artifact deps i c) n
        ∙ written_file deps i c (ground arith),
    parse_escalation-build_body i w,
  )
