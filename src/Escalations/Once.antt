-- ===== src/Escalations/Once.antt =====
-- Answers to an escalation that has left the open status.
use taskboard.Access.Principals.{Principal}
use taskboard.Board.Settings.{Call}
use taskboard.Common.{
  Error, Result-cases, String, ap, arith, err, find, find-holds, find-update, inl, inr, nat_eq, ok,
  refl, some, string_eq, subst, sym, true, ◌==◌, ◌∙◌, ◌≡◌,
}
use taskboard.Escalations.Answer.{resolved_row, unanswered, write_answer}
use taskboard.Escalations.Answered.{write_answer-Answers}
use taskboard.Escalations.Steps.{EscalationCall-step, EscalationCalls, EscalationStep-find}
use taskboard.Model.{
  Board, Escalation, EscalationStatus, ResolveEscalationRequest, control_kind_eq, control_status_eq,
  escalation_eq, item_eq, message_eq, status_eq, visibility_eq,
}

EscalationCalls-find :
    {b c : Board} (id : String) (row : Escalation)
    → EscalationCalls b c
    → row.status ≡ EscalationStatus.answered
    → find (λ (e : Escalation). e.id == id) b.escalations ≡ some row
    → find (λ (e : Escalation). e.id == id) c.escalations ≡ some row
EscalationCalls-find id row EscalationCalls.no_calls answered there = there
EscalationCalls-find id row (EscalationCalls.and_then calls one) answered there =
    EscalationStep-find id row (EscalationCall-step one) answered
      (EscalationCalls-find id row calls answered there)

-- The answer `row` stands, and every further answer is refused.
pub record IsFinal (b : Board) (id : String) (row : Escalation) : Type 0 where
  pub there : find (λ (e : Escalation). e.id == id) b.escalations ≡ some row
  pub refused :
      (call : Call) (task_id : String) (request : ResolveEscalationRequest) (principal : Principal)
      (delegated_by : String)
      → (error : Error) × (write_answer call b task_id id request principal delegated_by
          ≡ err error)

find-IsFinal :
    (b : Board) (id : String) (row : Escalation)
    → row.status ≡ EscalationStatus.answered
    → find (λ (e : Escalation). e.id == id) b.escalations ≡ some row
    → IsFinal b id row
find-IsFinal b id row answered there = record {
  there = there;
  refused = λ call task_id request principal delegated_by.
      elim (Result-cases (write_answer call b task_id id request principal delegated_by)) [
        | inl refused ↦ refused
        | inr ((c, shown), success) ↦
            let a =
              write_answer-Answers call b c task_id id request principal delegated_by shown
                success in
            let same : some a.stored ≡ some row = sym a.there ∙ there in
            let stored : a.stored ≡ row = cc in
            let clash : EscalationStatus.answered ≡ EscalationStatus.open_status =
              sym answered ∙ ap (λ (e : Escalation). e.status) (sym stored) ∙ a.unsettled in
            cc
      ];
}

-- An escalation is answered at most once: over any sequence of questions, answers and forwarded
-- answers after an answer, the row keeps that answer and its answerer, and every further answer to
-- it is refused, whoever gives it and whenever.
pub write_answer-IsFinal :
    (call : Call) (b b' c : Board) (task_id id : String) (request : ResolveEscalationRequest)
    (principal : Principal) (delegated_by : String) (shown : Escalation)
    → write_answer call b task_id id request principal delegated_by ≡ ok (b', shown)
    → EscalationCalls b' c
    → (row : Escalation) × (row.resolved_by ≡ principal.id)
      × (row.selected_option ≡ request.selected_option)
      × IsFinal c id row
write_answer-IsFinal call b b' c task_id id request principal delegated_by shown h calls =
    let a = write_answer-Answers call b b' task_id id request principal delegated_by shown h in
    let change = resolved_row call request principal delegated_by in
    let mine = λ (e : Escalation). e.id == id in
    let hit : unanswered id a.stored ≡ true =
      ground (arith, find-holds mine b.escalations a.stored a.there, a.unsettled) in
    let there : find mine b'.escalations ≡ some (change a.stored) =
      subst (λ es. find mine es ≡ some (change a.stored)) (sym a.written)
        (find-update (unanswered id) mine change b.escalations a.stored (λ e k. refl) a.there
          ∙ ap some (rw hit)) in
    (
      change a.stored,
      refl,
      refl,
      find-IsFinal c id (change a.stored) refl
          (EscalationCalls-find id (change a.stored) calls refl there),
    )
