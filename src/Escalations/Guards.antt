-- ===== src/Escalations/Guards.antt =====
-- The guards of an answer that is not refused.
use taskboard.Access.Principals.{Principal}
use taskboard.Board.Settings.{Call}
use taskboard.Common.{
  Bool-cases, Option-cases, String, [], any, ap, arith, conflict, eq_iff, false, find, forbidden,
  inl, inr, is_nil, nat_eq, not, not_found, ok, ok_injective, refl, refuse_if-eq-ok,
  refuse_if-false, some, string_eq, sym, true, validation, ◌&&◌, ◌++◌, ◌==◌, ◌∷◌, ◌≡◌, ◌⊎◌,
}
use taskboard.Escalations.{has_passed, insert_message, load_escalation, shown_escalation}
use taskboard.Escalations.Answer.{check_answer}
use taskboard.Model.{
  Board, Escalation, EscalationStatus, Message, ResolveEscalationRequest, Task, TaskStatus,
  control_kind_eq, control_status_eq, escalation_beq_iff, escalation_eq, item_eq, message_eq,
  status_beq_iff, status_eq, visibility_eq,
}
use taskboard.Stamp.{Time}
use taskboard.Text.{contains}

pub load_escalation-eq-ok :
    (call : Call) (b : Board) (id : String) (e : Escalation)
    → load_escalation call b id ≡ ok e
    → (stored : Escalation) × (find (λ (x : Escalation). x.id == id) b.escalations ≡ some stored)
      × (e ≡ shown_escalation call.now stored)
unfolding load_escalation
load_escalation-eq-ok call b id e h =
    elim (Option-cases (find (λ (x : Escalation). x.id == id) b.escalations)) [
      | inl absent ↦ let go = rw absent at h in cc
      | inr (stored, there) ↦ let go = rw there at h in (stored, there, sym (ok_injective go))
    ]

pub shown_escalation-open :
    (now : Time) (e : Escalation)
    → (shown_escalation now e).status ≡ EscalationStatus.open_status
    → (e.status ≡ EscalationStatus.open_status)
      × (has_passed now e.expires_at ≡ false)
      × (shown_escalation now e ≡ e)
unfolding shown_escalation
shown_escalation-open now e h =
    elim (Bool-cases (e.status == EscalationStatus.open_status && has_passed now e.expires_at)) [
      | inl passed ↦ let go = rw passed at h in cc
      | inr current ↦
          let go = rw current at h in
          (
            go,
            ground (arith, go, escalation_beq_iff e.status EscalationStatus.open_status),
            rw current refl,
          )
    ]

-- The answerer and the option that an escalation allows.
pub record Allows (e : Escalation) (request : ResolveEscalationRequest) (principal : Principal)
    (current : Task) : Type 0 where
  pub answerer : (is_nil e.answerers ≡ true) ⊎ (contains principal.id e.answerers ≡ true)
  pub option : (request.selected_option ≡ "") ⊎ (contains request.selected_option e.options ≡ true)
  pub waits : e.blocking ≡ true → current.status ≡ TaskStatus.waiting

pub check_answer-eq-ok :
    (task_id : String) (current : Task) (e : Escalation) (request : ResolveEscalationRequest)
    (principal : Principal) (u : Unit {0})
    → check_answer task_id current e request principal ≡ ok u
    → (e.task_id ≡ task_id)
      × (e.status ≡ EscalationStatus.open_status)
      × Allows e request principal current
unfolding check_answer
check_answer-eq-ok task_id current e request principal u h =
    let (c0, h1) = refuse_if-eq-ok (not (e.task_id == task_id)) not_found _ h in
    let (c1, h2) = refuse_if-eq-ok (e.status == EscalationStatus.expired) validation _ h1 in
    let (c2, h3) = refuse_if-eq-ok (not (e.status == EscalationStatus.open_status)) conflict _ h2 in
    let (c3, h4) =
      refuse_if-eq-ok (not (is_nil e.answerers) && not (contains principal.id e.answerers))
        forbidden _ h3 in
    let (c4, h5) =
      refuse_if-eq-ok
        (not (request.selected_option == "") && not (contains request.selected_option e.options))
        validation _ h4 in
    let c5 =
      refuse_if-false (e.blocking && not (current.status == TaskStatus.waiting)) validation u h5 in
    (
      ground (arith, c0, eq_iff e.task_id task_id),
      ground (arith, c2, escalation_beq_iff e.status EscalationStatus.open_status),
      record {
        answerer = elim (Bool-cases (is_nil e.answerers)) [
          | inl anyone ↦ inl anyone
          | inr named ↦ inr (ground (arith, c3, named))
        ];
        option = elim (Bool-cases (request.selected_option == "")) [
          | inl blank ↦ inl (ground (arith, blank, eq_iff request.selected_option ""))
          | inr chosen ↦ inr (ground (arith, c4, chosen))
        ];
        waits =
            λ blocks. ground (arith, c5, blocks, status_beq_iff current.status TaskStatus.waiting);
      },
    )

pub insert_message-eq-ok :
    (b b' : Board) (message : Message)
    → insert_message b message ≡ ok b'
    → b' ≡ record b { messages = b.messages ++ message ∷ [] }
unfolding insert_message
insert_message-eq-ok b b' message h =
    elim (Bool-cases (any (λ (m : Message). m.id == message.id) b.messages)) [
      | inl taken ↦ let go = rw taken at h in cc
      | inr free ↦ let go = rw free at h in sym (ok_injective go)
    ]

pub insert_message-escalations :
    (b b' : Board) (message : Message)
    → insert_message b message ≡ ok b'
    → b'.escalations ≡ b.escalations
insert_message-escalations b b' message h =
    ap (λ (x : Board). x.escalations) (insert_message-eq-ok b b' message h)
