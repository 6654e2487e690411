-- ===== src/Escalate/RoundTrip.antt =====
-- An escalation that is written and read again.
use autodev_harness.Common.{
  code, true, not, some, List, [], ◌∷◌, ◌++◌, ◌≡◌, refl, ap, ◌∙◌, nat_eq, arith, every, All,
}
use autodev_harness.Util.Chars.{Text, lines, unlines}
use autodev_harness.Util.Chars.Lines.{
  NoReturn, IsLine, IsLine-append, lines-append, unlines-lines, lines-unlines,
}
use autodev_harness.Conductor.State.{
  EscalationType, needs_guard, disagreement, constitution, uncertain, poison, blocked, dirty_file,
  drift, critic_unavailable,
}
use autodev_harness.Escalate.Body.{
  EscalationInput, type_name, dashes, fence, evidence_header, trailer, fields_of, build_body,
  escalation_type, split_first, find_field_line, split_at, before_last_fence, parse_lines,
  parse_escalation, last_or_here,
}

abbrev pub HasNoSpace : Text → Type 0
HasNoSpace s = every (λ c. not (nat_eq (code c) 32)) s ≡ true

-- What the format can carry: ids without spaces, one-line fields, and any evidence whose lines do not
-- end with a carriage return.
pub record IsWritable (i : EscalationInput) : Type 0 where
  pub id_line : IsLine i.id
  pub id_plain : HasNoSpace i.id
  pub reason_line : IsLine i.reason
  pub task_line : IsLine i.task_id
  pub task_plain : HasNoSpace i.task_id
  pub title_line : IsLine i.title
  pub what_line : IsLine i.what
  pub decision_line : IsLine i.decision
  pub option_a_line : IsLine i.option_a
  pub option_b_line : IsLine i.option_b
  pub cost_line : IsLine i.cost_of_wrong
  pub evidence_plain : NoReturn i.evidence

split_first-dashes :
    (s t : Text) → HasNoSpace s → split_first dashes (s ++ (dashes ++ t)) ≡ some (s, t)
unfolding split_first
split_first-dashes [] t h = refl
split_first-dashes (c ∷ s) t h = ground (arith, split_first-dashes s t)

before_last_fence-fence : (ls : List Text) → before_last_fence (ls ++ fence ∷ trailer) ≡ some ls
unfolding before_last_fence
before_last_fence-fence [] = refl
before_last_fence-fence (l ∷ ls) = ap (last_or_here l) (before_last_fence-fence ls)

escalation_type-type_name : (t : EscalationType) → escalation_type (type_name t) ≡ some t
escalation_type-type_name needs_guard = refl
escalation_type-type_name disagreement = refl
escalation_type-type_name constitution = refl
escalation_type-type_name uncertain = refl
escalation_type-type_name poison = refl
escalation_type-type_name blocked = refl
escalation_type-type_name dirty_file = refl
escalation_type-type_name drift = refl
escalation_type-type_name critic_unavailable = refl

type_name-IsLine : (t : EscalationType) → IsLine (type_name t)
type_name-IsLine needs_guard = refl
type_name-IsLine disagreement = refl
type_name-IsLine constitution = refl
type_name-IsLine uncertain = refl
type_name-IsLine poison = refl
type_name-IsLine blocked = refl
type_name-IsLine dirty_file = refl
type_name-IsLine drift = refl
type_name-IsLine critic_unavailable = refl

trailer_lines : lines (unlines (fence ∷ trailer)) ≡ fence ∷ trailer
unfolding lines
trailer_lines = refl

module _ (i : EscalationInput) (w : IsWritable i) where
  fields_of-IsLine : All IsLine (fields_of i (evidence_header ∷ fence ∷ []))
  fields_of-IsLine = (
    IsLine-append i.id (dashes ++ i.reason) w.id_line w.reason_line,
    (
      refl,
      (
        IsLine-append i.task_id (dashes ++ i.title) w.task_line w.title_line,
        (
          type_name-IsLine i.type,
          (
            w.what_line,
            (
              w.decision_line,
              (w.option_a_line, (w.option_b_line, (w.cost_line, (refl, (refl, (refl, tt)))))),
            ),
          ),
        ),
      ),
    ),
  )

  written_lines :
      lines (build_body i)
      ≡ fields_of i (evidence_header ∷ fence ∷ (lines i.evidence ++ fence ∷ trailer))
  unfolding build_body
  written_lines =
      lines-unlines (fields_of i (evidence_header ∷ fence ∷ [])) i.evidence (fence ∷ trailer)
        fields_of-IsLine
      ∙ ap (λ ls. fields_of i (evidence_header ∷ fence ∷ ls))
          (lines-append i.evidence (unlines (fence ∷ trailer)) w.evidence_plain
            ∙ ap (λ ls. lines i.evidence ++ ls) trailer_lines)

  parse_fields :
      (ls : List Text)
      → parse_lines (fields_of i (evidence_header ∷ fence ∷ (ls ++ fence ∷ trailer)))
        ≡ some (record i { evidence = unlines ls })
  unfolding parse_lines split_at find_field_line
  parse_fields ls = rw (split_first-dashes i.id i.reason w.id_plain) (
      rw (split_first-dashes i.task_id i.title w.task_plain)
        (rw (escalation_type-type_name i.type) (rw (before_last_fence-fence ls) refl)))

  -- An escalation that the format can carry (ids without spaces, fields of one line, evidence
  -- without carriage returns) is read back from its artifact as it was written.
  pub parse_escalation-build_body : parse_escalation (build_body i) ≡ some i
  unfolding parse_escalation
  parse_escalation-build_body =
      ap parse_lines written_lines
      ∙ (parse_fields (lines i.evidence)
          ∙ ap (λ e. some (record i { evidence = e })) (unlines-lines i.evidence w.evidence_plain))
