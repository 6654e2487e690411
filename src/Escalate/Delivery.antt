-- ===== src/Escalate/Delivery.antt =====
-- `escalate`: the artifact, and the push or the outbox. Nothing in it throws out of it.
use autodev_harness.Common.{
  Bool, false, not, Option, none, some, List, [], ◌∷◌, ◌++◌, if◌then◌else◌,
}
use autodev_harness.Util.Fallible.{Result, ok, err}
use autodev_harness.Util.Chars.{Text, chars, same}
use autodev_harness.Escalate.Body.{EscalationInput, type_name, build_body}

pub data Delivery : Type 0 where
  telegram outbox : Delivery

pub record EscalateResult : Type 0 where
  pub path : Text
  pub artifact_written : Bool
  pub delivery : Delivery

-- What the file system and the transport answer; `telegram_post` is absent, or says if it throws.
pub record EscalateDeps : Type 0 where
  pub escalations_dir : Text
  pub write_fault : Bool
  pub append_fault : Bool
  pub token : Result (Option Text)
  pub chat : Result (Option Text)
  pub telegram_post : Option Bool

-- The files, by path, and the texts that were pushed with their token and chat.
pub record Channel : Type 0 where
  pub files : List (Text × Text)
  pub pushed : List (Text × Text × Text)

abbrev pub read_file : Text → List (Text × Text) → Option Text
read_file p [] = none
read_file p ((q, t) ∷ fs) = if same q p then some t else read_file p fs

abbrev pub or_empty : Option Text → Text
or_empty none = []
or_empty (some t) = t

abbrev pub append_file : Text → Text → List (Text × Text) → List (Text × Text)
append_file p t fs = (p, or_empty (read_file p fs) ++ t) ∷ fs

abbrev pub artifact_path : EscalateDeps → EscalationInput → Text
artifact_path deps i = deps.escalations_dir ++ (chars "/" ++ (i.id ++ chars ".md"))

abbrev pub outbox_path : EscalateDeps → Text
outbox_path deps = deps.escalations_dir ++ chars "/_outbox.md"

-- `buildSummary`
unfoldable pub build_summary : EscalationInput → Text
build_summary i =
    chars "[autodev escalation "
    ++ (i.id
        ++ (chars "] "
            ++ (type_name i.type
                ++ (chars " :: "
                    ++ (i.title
                        ++ (chars " -- "
                            ++ (i.decision
                                ++ (chars " (A: "
                                    ++ (i.option_a
                                        ++ (chars " | B: "
                                            ++ (i.option_b
                                                ++ (chars "). Cost if wrong: "
                                                    ++ i.cost_of_wrong))))))))))))

unfoldable pub outbox_line : EscalationInput → Text
outbox_line i =
    chars "- [ ] "
    ++ (build_summary i ++ (chars "  (file: escalations/" ++ (i.id ++ chars ".md)\n")))

-- A value that is set and not empty.
abbrev pub truthy : Result (Option Text) → Option Text
truthy (ok (some [])) = none
truthy (ok (some (c ∷ t))) = some (c ∷ t)
truthy (ok none) = none
truthy (err e) = none

-- The chat is not read when the read of the token threw.
abbrev pub chat_of : EscalateDeps → Option Text → Option Text
chat_of deps none = none
chat_of deps (some token) = truthy deps.chat

abbrev pub write_artifact : EscalateDeps → EscalationInput → Channel → Channel
write_artifact deps i c =
    if deps.write_fault
    then c
    else record c { files = (artifact_path deps i, build_body i) ∷ c.files }

abbrev pub append_outbox : EscalateDeps → EscalationInput → Channel → Channel
append_outbox deps i c =
    if deps.append_fault
    then c
    else record c { files = append_file (outbox_path deps) (outbox_line i) c.files }

-- The delivery that is tried, and what it leaves.
abbrev pub send_summary :
    EscalateDeps
    → EscalationInput
    → Option Text
    → Option Text
    → Option Bool
    → Channel
    → Delivery × Channel
send_summary deps i (some token) (some chat) (some false) c =
    (telegram, record c { pushed = (token, chat, build_summary i) ∷ c.pushed })
send_summary deps i _ _ _ c = (outbox, append_outbox deps i c)

unfoldable pub escalate : EscalateDeps → EscalationInput → Channel → EscalateResult × Channel
escalate deps i c =
    let token = truthy deps.token in
    let sent =
      send_summary deps i token (chat_of deps token) deps.telegram_post (write_artifact deps i c) in
    (
      record {
        path = artifact_path deps i;
        artifact_written = not deps.write_fault;
        delivery = sent.0;
      },
      sent.1,
    )
