-- ===== src/Escalate/Body.antt =====
-- `buildBody` and `parseEscalation`.
use autodev_harness.Common.{Char, Option, none, some, List, [], ◌∷◌, ◌++◌, if◌then◌else◌}
use autodev_harness.Util.Chars.{Text, chars, same, begins, behind, lines, unlines}
use autodev_harness.Conductor.State.{
  EscalationType, needs_guard, disagreement, constitution, uncertain, poison, blocked, dirty_file,
  drift, critic_unavailable,
}

pub record EscalationInput : Type 0 where
  pub id : Text
  pub reason : Text
  pub type : EscalationType
  pub task_id : Text
  pub title : Text
  pub what : Text
  pub decision : Text
  pub option_a : Text
  pub option_b : Text
  pub cost_of_wrong : Text
  pub evidence : Text

abbrev pub type_name : EscalationType → Text
type_name needs_guard = chars "needs-guard"
type_name disagreement = chars "disagreement"
type_name constitution = chars "constitution"
type_name uncertain = chars "uncertain"
type_name poison = chars "poison"
type_name blocked = chars "blocked"
type_name dirty_file = chars "dirty-file"
type_name drift = chars "drift"
type_name critic_unavailable = chars "critic-unavailable"

-- ` -- `
abbrev pub dashes : Text
dashes = chars " -- "

abbrev pub fence : Text
fence = chars "```"

abbrev pub evidence_header : Text
evidence_header = chars "**Evidence:**"

-- The lines behind the evidence.
abbrev pub trailer : List Text
trailer =
    []
    ∷ chars "**Reply:** `A` / `B` -- structured choice only. Free-form text is recorded for"
    ∷ chars "context but is NEVER executed as a worker instruction (Telegram is an injection"
    ∷ chars "surface). Until you reply, this task is parked; other tasks continue."
    ∷ []

-- The lines before the evidence.
abbrev pub fields_of : EscalationInput → List Text → List Text
fields_of i rest =
    (chars "# ESCALATION " ++ (i.id ++ (dashes ++ i.reason)))
    ∷ []
    ∷ (chars "**Task:** " ++ (i.task_id ++ (dashes ++ i.title)))
    ∷ (chars "**Type:** " ++ type_name i.type)
    ∷ (chars "**What happened:** " ++ i.what)
    ∷ (chars "**Decision you need to make:** " ++ i.decision)
    ∷ (chars "**Option A:** " ++ i.option_a)
    ∷ (chars "**Option B:** " ++ i.option_b)
    ∷ (chars "**Cost of being wrong:** " ++ i.cost_of_wrong)
    ∷ []
    ∷ rest

-- `buildBody`
unfoldable pub build_body : EscalationInput → Text
build_body i = unlines (fields_of i (evidence_header ∷ fence ∷ i.evidence ∷ fence ∷ trailer))

-- `isEscalationType`, and the value that it lets through.
abbrev first_named : Text → List EscalationType → Option EscalationType
first_named t [] = none
first_named t (e ∷ es) = if same (type_name e) t then some e else first_named t es

abbrev pub escalation_type : Text → Option EscalationType
escalation_type t = first_named t (
    needs_guard ∷ disagreement ∷ constitution ∷ uncertain ∷ poison ∷ blocked ∷ dirty_file ∷ drift
    ∷ critic_unavailable ∷ [])

abbrev pub put_before : Char → Option (Text × Text) → Option (Text × Text)
put_before c none = none
put_before c (some (a, b)) = some (c ∷ a, b)

-- `splitFirst`, for a separator that is not empty.
unfoldable pub split_first : Text → Text → Option (Text × Text)
split_first sep [] = none
split_first sep (c ∷ s) =
    let later = split_first sep s in
    if begins (c ∷ s) sep then some ([], behind sep (c ∷ s)) else put_before c later

-- `findFieldLine`
unfoldable pub find_field_line : Text → List Text → Option Text
find_field_line prefix [] = none
find_field_line prefix (l ∷ ls) =
    let later = find_field_line prefix ls in
    if begins l prefix then some (behind prefix l) else later

abbrev pub also_before : Text → Option (List Text × List Text) → Option (List Text × List Text)
also_before l none = none
also_before l (some (a, b)) = some (l ∷ a, b)

-- The lines before and behind the first that is `mark`.
unfoldable pub split_at : Text → List Text → Option (List Text × List Text)
split_at mark [] = none
split_at mark (l ∷ ls) =
    let later = split_at mark ls in if same l mark then some ([], ls) else also_before l later

abbrev pub last_or_here : Text → Option (List Text) → Option (List Text)
last_or_here l (some before) = some (l ∷ before)
last_or_here l none = if same l fence then some [] else none

-- The lines before the last that is the fence: the loop that runs down from the last line.
unfoldable pub before_last_fence : List Text → Option (List Text)
before_last_fence [] = none
before_last_fence (l ∷ ls) = last_or_here l (before_last_fence ls)

abbrev pub first_line : List Text → Text
first_line [] = []
first_line (l ∷ _) = l

infixl 5 ◌>>=◌
abbrev pub ◌>>=◌ {ℓ κ} : {A : Type ℓ} {B : Type κ} → Option A → (A → Option B) → Option B
none >>= f = none
some a >>= f = f a

-- The header line, its prefix cut off.
abbrev pub header_of : List Text → Option Text
header_of ls =
    if begins (first_line ls) (chars "# ESCALATION ")
    then some (behind (chars "# ESCALATION ") (first_line ls))
    else none

-- The fence behind the evidence's header, and the lines up to the last fence.
abbrev pub fenced_lines : List Text → Option (List Text)
fenced_lines [] = none
fenced_lines (l ∷ ls) = if same l fence then before_last_fence ls else none

-- `parseEscalation`
unfoldable pub parse_lines : List Text → Option EscalationInput
parse_lines ls = do
  (fields, after) ← split_at evidence_header ls
  header ← header_of fields
  (id, reason) ← split_first dashes header
  task ← find_field_line (chars "**Task:** ") fields
  (task_id, title) ← split_first dashes task
  type_text ← find_field_line (chars "**Type:** ") fields
  type ← escalation_type type_text
  what ← find_field_line (chars "**What happened:** ") fields
  decision ← find_field_line (chars "**Decision you need to make:** ") fields
  option_a ← find_field_line (chars "**Option A:** ") fields
  option_b ← find_field_line (chars "**Option B:** ") fields
  cost ← find_field_line (chars "**Cost of being wrong:** ") fields
  evidence ← fenced_lines after
  some record {
    id = id;
    reason = reason;
    type = type;
    task_id = task_id;
    title = title;
    what = what;
    decision = decision;
    option_a = option_a;
    option_b = option_b;
    cost_of_wrong = cost;
    evidence = unlines evidence;
  }

unfoldable pub parse_escalation : Text → Option EscalationInput
parse_escalation markdown = parse_lines (lines markdown)
