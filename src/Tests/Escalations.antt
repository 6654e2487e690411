-- ===== src/Tests/Escalations.antt =====
-- An escalation whose evidence looks like an escalation, and a disk that takes it.
use autodev_harness.Common.{true, false, some, [], ◌≡◌, refl}
use autodev_harness.Util.Fallible.{ok}
use autodev_harness.Util.Chars.{chars}
use autodev_harness.Conductor.State.{uncertain}
use autodev_harness.Escalate.Body.{EscalationInput, build_body, parse_escalation}
use autodev_harness.Escalate.RoundTrip.{IsWritable, parse_escalation-build_body}
use autodev_harness.Escalate.Delivery.{EscalateDeps, Channel, outbox, escalate}
use autodev_harness.Escalate.Delivered.{IsDelivered, escalate-IsDelivered}

abbrev input : EscalationInput
input = record {
  id = chars "esc-1";
  reason = chars "uncertain -- again";
  type = uncertain;
  task_id = chars "t1";
  title = chars "a task";
  what = chars "the critic is unsure";
  decision = chars "retry?";
  option_a = chars "retry";
  option_b = chars "drop";
  cost_of_wrong = chars "a round";
  evidence = chars "**Evidence:**\n```\n**Type:** drift\n```\n\n";
}

writable : IsWritable input
writable = record {
  id_line = refl;
  id_plain = refl;
  reason_line = refl;
  task_line = refl;
  task_plain = refl;
  title_line = refl;
  what_line = refl;
  decision_line = refl;
  option_a_line = refl;
  option_b_line = refl;
  cost_line = refl;
  evidence_plain = refl;
}

parse_escalation-build_body_example : parse_escalation (build_body input) ≡ some input
parse_escalation-build_body_example = parse_escalation-build_body input writable

-- The push throws.
abbrev deps : EscalateDeps
deps = record {
  escalations_dir = chars "/repo/.autodev/escalations";
  write_fault = false;
  append_fault = false;
  token = ok (some (chars "token"));
  chat = ok (some (chars "chat"));
  telegram_post = some true;
}

abbrev quiet : Channel
quiet = record { files = []; pushed = [] }

queued : (escalate deps input quiet).0.delivery ≡ outbox
unfolding escalate
queued = refl

escalate-IsDelivered_example :
    IsDelivered deps input []
      ((escalate deps input quiet).0.delivery, (escalate deps input quiet).1)
escalate-IsDelivered_example = escalate-IsDelivered deps input quiet refl

written : (escalate deps input quiet).0.artifact_written ≡ true
unfolding escalate
written = refl
