-- ===== src/Escalations/Steps.antt =====
-- The operations on escalations as steps of their table: nothing, one answer, or one new row.
use Prim.Native.String.{len}
use taskboard.Access.{can_mutate}
use taskboard.Access.Principals.{Permission, Principal, can, human_principal}
use taskboard.Board.Queries.{insert_event, load_task}
use taskboard.Board.Settings.{Call, Settings}
use taskboard.Claim.{get_for}
use taskboard.Common.{
  >>=-eq-ok, Bool-cases, List, Option, String, [], any, ap, arith, conflict, false, find,
  find-append_some, find-update, forbidden, inl, inr, is_nil, ltb, nat_eq, none, not, ok,
  ok_injective, refl, refuse_if-eq-ok, some, string_eq, subst, sym, update, validation, ℕ, ◌&&◌,
  ◌++◌, ◌==◌, ◌>>=◌, ◌||◌, ◌∙◌, ◌∷◌, ◌≡◌,
}
use taskboard.Controls.{one_row}
use taskboard.Controls.Complete.{stopped, versioned}
use taskboard.Escalations.{insert_escalation, insert_message, load_escalation}
use taskboard.Escalations.Answer.{
  Delegation, read_answer, resolve_after, resolve_escalation, resolve_escalation_on_behalf_for,
  resolved_row, unanswered, write_answer,
}
use taskboard.Escalations.Answered.{write_answer-Answers}
use taskboard.Escalations.Create.{
  asked_escalation, asking_run, block_task, check_asker, create_escalation_after,
  create_escalation_for, question_message, waiting_row, write_question,
}
use taskboard.Escalations.Guards.{insert_message-escalations}
use taskboard.Escalations.Request.{check_escalation, valid_person_id}
use taskboard.Model.{
  Board, CreateEscalationRequest, Escalation, EscalationStatus, Event, ResolveEscalationRequest,
  Task, TaskStatus, control_kind_eq, control_status_eq, escalation_eq, item_eq, message_eq,
  status_eq, visibility_eq,
}
use taskboard.Replay.{payload_text, replay_idempotency}
use taskboard.Stamp.{Time}
use taskboard.Text.{contains, trim_space}

-- What one operation does to the table of escalations.
pub data EscalationStep (xs : List Escalation) : List Escalation → Type 0 where
  kept : {ys : List Escalation} → ys ≡ xs → EscalationStep xs ys
  settled :
      {ys : List Escalation} (id : String) (change : Escalation → Escalation)
      → ((e : Escalation) → (change e).id ≡ e.id)
      → ys ≡ update (unanswered id) change xs
      → EscalationStep xs ys
  added : {ys : List Escalation} (e : Escalation) → ys ≡ xs ++ e ∷ [] → EscalationStep xs ys

pub EscalationStep-find :
    {xs ys : List Escalation} (id : String) (row : Escalation)
    → EscalationStep xs ys
    → row.status ≡ EscalationStatus.answered
    → find (λ (e : Escalation). e.id == id) xs ≡ some row
    → find (λ (e : Escalation). e.id == id) ys ≡ some row
EscalationStep-find id row (EscalationStep.kept same) answered there =
    subst (λ zs. find (λ (e : Escalation). e.id == id) zs ≡ some row) (sym same) there
EscalationStep-find {xs} id row (EscalationStep.settled other change same_id same) answered there =
    let closed : unanswered other row ≡ false = rw answered (ground arith) in
    subst (λ zs. find (λ (e : Escalation). e.id == id) zs ≡ some row) (sym same)
      (find-update (unanswered other) (λ (e : Escalation). e.id == id) change xs row
          (λ e k. rw (same_id e)) there
        ∙ ap some (rw closed))
EscalationStep-find {xs} id row (EscalationStep.added e same) answered there =
    subst (λ zs. find (λ (x : Escalation). x.id == id) zs ≡ some row) (sym same)
      (find-append_some (λ (x : Escalation). x.id == id) xs (e ∷ []) row there)

insert_escalation-rows :
    (b b' : Board) (e : Escalation)
    → insert_escalation b e ≡ ok b'
    → b'.escalations ≡ b.escalations ++ e ∷ []
unfolding insert_escalation
insert_escalation-rows b b' e h =
    elim (Bool-cases (any (λ (x : Escalation). x.id == e.id) b.escalations)) [
      | inl taken ↦ let go = rw taken at h in cc
      | inr free ↦
          let go = rw free at h in sym (ap (λ (x : Board). x.escalations) (ok_injective go))
    ]

block_task-escalations :
    (now : Time) (b b' : Board) (current : Task) (request : CreateEscalationRequest) (version : ℕ)
    → block_task now b current request ≡ ok (b', version)
    → b'.escalations ≡ b.escalations
unfolding block_task
block_task-escalations now b b' current request version h = elim (Bool-cases request.blocking) [
  | inr going_on ↦
      let go = rw going_on at h in sym (ap (λ (p : Board × ℕ). p.0.escalations) (ok_injective go))
  | inl blocks ↦
      let go = rw blocks at h in
      let (rs, one, h1) =
        >>=-eq-ok
          (one_row (asking_run current.id request.run_id) (stopped TaskStatus.waiting now) b.runs) _
          go in
      let (ts, one', h2) =
        >>=-eq-ok
          (one_row
            (λ (t : Task). versioned current.id current.version t && t.status == TaskStatus.active)
            (waiting_row now request.question) b.tasks)
          _ h1 in
      sym (ap (λ (p : Board × ℕ). p.0.escalations) (ok_injective h2))
]

write_question-step :
    (call : Call) (b b' : Board) (task_id : String) (request : CreateEscalationRequest)
    (principal : Principal) (e : Escalation)
    → write_question call b task_id request principal ≡ ok (b', e)
    → EscalationStep b.escalations b'.escalations
unfolding write_question insert_event
write_question-step call b b' task_id request principal e h =
    let (current, loaded, h1) = >>=-eq-ok (load_task b task_id) _ h in
    let (c0, h2) = refuse_if-eq-ok _ conflict _ h1 in
    let (c1, h3) = refuse_if-eq-ok _ validation _ h2 in
    let (b1, put_in, h4) =
      >>=-eq-ok (insert_message b (question_message call task_id request principal)) _ h3 in
    let new = asked_escalation call task_id request in
    let (b2, stored, h5) = >>=-eq-ok (insert_escalation b1 new) _ h4 in
    let ((b3, version), blocked, h6) = >>=-eq-ok (block_task call.now b2 current request) _ h5 in
    EscalationStep.added new (
      sym (ap (λ (p : Board × Escalation). p.0.escalations) (ok_injective h6))
      ∙ block_task-escalations call.now b2 b3 current request version blocked
      ∙ insert_escalation-rows b1 b2 new stored
      ∙ ap (λ zs. zs ++ new ∷ []) (insert_message-escalations b b1 _ put_in))

write_answer-step :
    (call : Call) (b b' : Board) (task_id id : String) (request : ResolveEscalationRequest)
    (principal : Principal) (delegated_by : String) (e : Escalation)
    → write_answer call b task_id id request principal delegated_by ≡ ok (b', e)
    → EscalationStep b.escalations b'.escalations
write_answer-step call b b' task_id id request principal delegated_by e h =
    EscalationStep.settled id (resolved_row call request principal delegated_by) (λ x. refl)
      (write_answer-Answers call b b' task_id id request principal delegated_by e h).written

-- A replay writes nothing.
replay-step :
    (call : Call) (b b' : Board) (id : String) (e : Escalation)
    → ◌>>=◌ {B = Board × Escalation} (load_escalation call b id) (λ x. ok (b, x)) ≡ ok (b', e)
    → EscalationStep b.escalations b'.escalations
replay-step call b b' id e h =
    let (x, there, last) = >>=-eq-ok (load_escalation call b id) _ h in
    EscalationStep.kept (sym (ap (λ (p : Board × Escalation). p.0.escalations) (ok_injective last)))

-- One operation on escalations: a question, an answer, or an answer that a service forwards.
pub data EscalationCall (b : Board) : Board → Type 0 where
  asked :
      {b' : Board} (settings : Settings) (fold : String → String)
      (hash : String → CreateEscalationRequest → String) (call : Call) (task_id : String)
      (request : CreateEscalationRequest) (principal : Principal) (e : Escalation)
      → create_escalation_for settings fold hash call b task_id request principal ≡ ok (b', e)
      → EscalationCall b b'
  resolved :
      {b' : Board} (settings : Settings)
      (hash : String → String → String → ResolveEscalationRequest → String) (call : Call)
      (task_id id : String) (request : ResolveEscalationRequest) (principal : Principal)
      (delegated_by : String) (e : Escalation)
      → resolve_escalation settings hash call b task_id id request principal delegated_by
        ≡ ok (b', e)
      → EscalationCall b b'
  forwarded :
      {b' : Board} (settings : Settings) (delegation : Delegation)
      (hash : String → String → String → ResolveEscalationRequest → String) (call : Call)
      (task_id id person : String) (request : ResolveEscalationRequest) (delegate : Principal)
      (e : Escalation)
      → resolve_escalation_on_behalf_for settings delegation hash call b task_id id person request
          delegate
        ≡ ok (b', e)
      → EscalationCall b b'

pub data EscalationCalls (b : Board) : Board → Type 0 where
  no_calls : EscalationCalls b b
  and_then : {c d : Board} → EscalationCalls b c → EscalationCall c d → EscalationCalls b d

create_escalation_for-step :
    (settings : Settings) (fold : String → String)
    (hash : String → CreateEscalationRequest → String) (call : Call) (b b' : Board) (id : String)
    (request : CreateEscalationRequest) (principal : Principal) (e : Escalation)
    → create_escalation_for settings fold hash call b id request principal ≡ ok (b', e)
    → EscalationStep b.escalations b'.escalations
unfolding create_escalation_for create_escalation_after
create_escalation_for-step settings fold hash call b b' id request principal e h =
    let task_id = trim_space id in
    let (c0, h1) = refuse_if-eq-ok (not principal.agent) forbidden _ h in
    let (given, checked, h2) = >>=-eq-ok (check_escalation fold task_id request) _ h1 in
    let (task, seen, h3) = >>=-eq-ok (get_for settings call b task_id principal) _ h2 in
    let (u, allowed, h4) = >>=-eq-ok (check_asker call task given principal) _ h3 in
    let (replay, replayed, h5) =
      >>=-eq-ok
        (replay_idempotency b principal "task_escalation_create" given.idempotency_key
          (hash task_id given))
        _ h4 in
    go given replay h5
  where
    go :
        (given : CreateEscalationRequest) (replay : Option Event)
        → create_escalation_after call b
            (trim_space id)
            (record given { idempotency_hash = hash (trim_space id) given })
            principal
            replay
          ≡ ok (b', e)
        → EscalationStep b.escalations b'.escalations
    go given none k = write_question-step call b b' (trim_space id) _ principal e k
    go given (some event) k = replay-step call b b' (payload_text event.payload "escalation_id") e k

resolve_escalation-step :
    (settings : Settings) (hash : String → String → String → ResolveEscalationRequest → String)
    (call : Call) (b b' : Board) (id escalation : String) (request : ResolveEscalationRequest)
    (principal : Principal) (delegated_by : String) (e : Escalation)
    → resolve_escalation settings hash call b id escalation request principal delegated_by
      ≡ ok (b', e)
    → EscalationStep b.escalations b'.escalations
unfolding resolve_escalation resolve_after
resolve_escalation-step settings hash call b b' id escalation request principal delegated_by e h =
    let given = read_answer request in
    let (c0, h1) =
      refuse_if-eq-ok (principal.agent || not (can principal.identity Permission.task_write))
        forbidden _ h in
    let (c1, h2) =
      refuse_if-eq-ok
        (trim_space id == ""
          || trim_space escalation == ""
          || ltb given.expected_version 1
          || given.answer == ""
          || ltb 4000 (len given.answer))
        validation _ h1 in
    let (task, seen, h3) = >>=-eq-ok (get_for settings call b (trim_space id) principal) _ h2 in
    let (c2, h4) = refuse_if-eq-ok (not (can_mutate task.row principal)) forbidden _ h3 in
    let (replay, replayed, h5) =
      >>=-eq-ok
        (replay_idempotency b principal "task_escalation_resolve" given.idempotency_key
          (hash (trim_space id) (trim_space escalation) delegated_by given))
        _ h4 in
    go replay h5
  where
    go :
        (replay : Option Event)
        → resolve_after call b
            (trim_space id)
            (trim_space escalation)
            (record (read_answer request) {
              idempotency_hash =
                  hash (trim_space id) (trim_space escalation) delegated_by (read_answer request);
            })
            principal
            delegated_by
            replay
          ≡ ok (b', e)
        → EscalationStep b.escalations b'.escalations
    go none k =
        write_answer-step call b b' (trim_space id) (trim_space escalation) _ principal delegated_by
          e k
    go (some event) k = replay-step call b b' (payload_text event.payload "escalation_id") e k

forwarded-step :
    (settings : Settings) (delegation : Delegation)
    (hash : String → String → String → ResolveEscalationRequest → String) (call : Call)
    (b b' : Board) (task_id id person : String) (request : ResolveEscalationRequest)
    (delegate : Principal) (e : Escalation)
    → resolve_escalation_on_behalf_for settings delegation hash call b task_id id person request
        delegate
      ≡ ok (b', e)
    → EscalationStep b.escalations b'.escalations
unfolding resolve_escalation_on_behalf_for
forwarded-step settings delegation hash call b b' task_id id person request delegate e h =
    let person_id = trim_space person in
    let (c0, h1) =
      refuse_if-eq-ok (not delegate.agent || not (contains delegate.id delegation.principals))
        forbidden _ h in
    let (c1, h2) = refuse_if-eq-ok (not (valid_person_id person_id)) validation _ h1 in
    let (c2, h3) = refuse_if-eq-ok (contains person_id delegation.revoked) forbidden _ h2 in
    let (x, there, h4) = >>=-eq-ok (load_escalation call b (trim_space id)) _ h3 in
    let (c3, h5) = refuse_if-eq-ok (is_nil x.answerers) forbidden _ h4 in
    resolve_escalation-step settings hash call b b' task_id id request
      (human_principal person_id delegation.role) delegate.id e h5

pub EscalationCall-step :
    {b c : Board} → EscalationCall b c → EscalationStep b.escalations c.escalations
EscalationCall-step {b} {c} (EscalationCall.asked settings fold hash call id request p e h) =
    create_escalation_for-step settings fold hash call b c id request p e h
EscalationCall-step {b} {c} (EscalationCall.resolved settings hash call t i request p d e h) =
    resolve_escalation-step settings hash call b c t i request p d e h
EscalationCall-step {b} {c} (EscalationCall.forwarded settings dg hash call t i q request p e h) =
    forwarded-step settings dg hash call b c t i q request p e h
