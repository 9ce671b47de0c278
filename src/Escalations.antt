-- ===== src/Escalations.antt =====
-- Escalations: questions of an agent that a person answers. internal/service/escalations.go with
-- the statements of internal/store/escalations.go and InsertTaskMessage. A call that is refused
-- leaves the board as it was, since its transaction is rolled back.
pub mod Request
pub mod Create
pub mod Answer
pub mod Guards
pub mod Answered
pub mod Steps
pub mod Once
mod Samples
use taskboard.Access.{can_mutate, producer_may_read}
use taskboard.Access.Principals.{Capability, Permission, Principal, can, has_capability}
use taskboard.Board.Queries.{TaskView, found, str_before}
use taskboard.Board.Settings.{Call, Settings}
use taskboard.Claim.{get_for}
use taskboard.Common.{
  Bool, List, Option, Result, String, [], any, err, failed, false, find, forbidden, if◌then◌else◌,
  is_nil, ltb, map, nat_eq, none, not, ok, order_by, refuse_if, select, some, string_eq, ◌&&◌, ◌++◌,
  ◌==◌, ◌>>=◌, ◌>>◌, ◌||◌, ◌∷◌,
}
use taskboard.Model.{
  Board, Escalation, EscalationStatus, Message, control_kind_eq, control_status_eq, escalation_eq,
  item_eq, message_eq, status_eq, visibility_eq,
}
use taskboard.Stamp.{Time}
use taskboard.Text.{contains}

-- InsertTaskMessage; an empty text is stored as NULL
unfoldable pub insert_message : Board → Message → Result Board
insert_message b message =
    if any (λ (m : Message). m.id == message.id) b.messages
    then err failed
    else ok (record b { messages = b.messages ++ message ∷ [] })

-- InsertTaskEscalation
unfoldable pub insert_escalation : Board → Escalation → Result Board
insert_escalation b escalation =
    if any (λ (e : Escalation). e.id == escalation.id) b.escalations
    then err failed
    else ok (record b { escalations = b.escalations ++ escalation ∷ [] })

abbrev pub has_passed : Time → Option Time → Bool
has_passed now none = false
has_passed now (some expires) = not (ltb now expires)

-- scanEscalationValues: an open escalation past its time reads as expired.
unfoldable pub shown_escalation : Time → Escalation → Escalation
shown_escalation now e =
    if e.status == EscalationStatus.open_status && has_passed now e.expires_at
    then record e { status = EscalationStatus.expired }
    else e

-- LoadTaskEscalation
unfoldable pub load_escalation : Call → Board → String → Result Escalation
unfolding shown_escalation
load_escalation call b id = found (find (λ (e : Escalation). e.id == id) b.escalations) >>= λ e.
    ok (shown_escalation call.now e)

-- ListTaskEscalations, latest identifier first
list_task_escalations : Call → Board → String → List Escalation
list_task_escalations call b task_id = map (shown_escalation call.now) (
    order_by (λ (d e : Escalation). str_before e.id d.id)
      (select (λ (e : Escalation). e.task_id == task_id) b.escalations))

-- ListEscalationsFor
pub list_escalations_for : Settings → Call → Board → String → Principal → Result (List Escalation)
unfolding list_task_escalations
list_escalations_for settings call b task_id principal = do
  task ← get_for settings call b task_id principal
  refuse_if
      (principal.agent
        && not (producer_may_read task.row principal)
        && (not (has_capability principal.identity Capability.task_escalate)
            || not (can_mutate task.row principal)))
      forbidden
  ok (list_task_escalations call b task.row.id)

-- An open escalation of the task that the person may answer.
awaits : Call → Board → Principal → String → Bool
awaits call b principal task_id =
    any
      (λ (e : Escalation).
        e.task_id == task_id
        && (shown_escalation call.now e).status == EscalationStatus.open_status
        && (is_nil e.answerers || contains principal.id e.answerers))
      b.escalations

pub record DecisionTask : Type 0 where
  pub task : TaskView
  pub decision_requested : Bool

-- MarkDecisionsFor
pub mark_decisions_for : Call → Board → List DecisionTask → Principal → List DecisionTask
unfolding awaits
mark_decisions_for call b tasks principal =
    if principal.agent || not (can principal.identity Permission.task_write)
    then tasks
    else map
        (λ (d : DecisionTask). record d {
          decision_requested = awaits call b principal d.task.row.id;
        })
        tasks
