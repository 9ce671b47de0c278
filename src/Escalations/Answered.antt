-- ===== src/Escalations/Answered.antt =====
-- An answer taken apart: what held before, and what it writes.
use taskboard.Access.Principals.{Principal}
use taskboard.Board.Queries.{insert_event, load_task}
use taskboard.Board.Settings.{Call}
use taskboard.Board.Writes.{load_task-tasks}
use taskboard.Common.{
  >>=-eq-ok, Bool-cases, String, [], ap, arith, conflict, eq_iff, false, find, if◌then◌else◌, inl,
  inr, nat_beq_iff, nat_eq, not, ok, ok_injective, refl, refuse_if-eq-ok, some, string_eq, subst,
  sym, true, update, ℕ, ◌&&◌, ◌++◌, ◌+◌, ◌==◌, ◌∙◌, ◌∷◌, ◌≡◌,
}
use taskboard.Controls.{one_row, requeued_owner}
use taskboard.Controls.Complete.{versioned}
use taskboard.Controls.Completed.{load_task-named, row_after}
use taskboard.Controls.Frame.{one_row-eq-ok}
use taskboard.Escalations.{has_passed, insert_message, load_escalation}
use taskboard.Escalations.Answer.{
  answer_message, answered_row, check_answer, release_task, resolved_row, unanswered, write_answer,
}
use taskboard.Escalations.Guards.{
  Allows, check_answer-eq-ok, insert_message-eq-ok, insert_message-escalations,
  load_escalation-eq-ok, shown_escalation-open,
}
use taskboard.Model.{
  Board, Escalation, EscalationStatus, Message, ResolveEscalationRequest, Task, TaskStatus,
  Visibility, control_kind_eq, control_status_eq, escalation_eq, item_eq, message_eq, status_eq,
  visibility_eq,
}
use taskboard.Stamp.{Time}

-- The task after an answer: a blocking escalation puts it back into the queue, edited by the
-- answerer, and any other leaves all tasks as they are.
pub record Released (now : Time) (b b' : Board) (current : Task) (e : Escalation)
    (principal : Principal) : Type 0 where
  pub blocked :
      e.blocking ≡ true
      → load_task b' current.id
        ≡ ok (record current {
          status = TaskStatus.queued;
          owner = if current.visibility == Visibility.agent then "" else current.owner;
          waiting_for = "";
          last_edited_by = principal.id;
          version = current.version + 1;
          updated_at = now;
        })
  pub free : e.blocking ≡ false → b'.tasks ≡ b.tasks

release_task-eq-ok :
    (now : Time) (b b' : Board) (current : Task) (e : Escalation) (principal : Principal)
    (version : ℕ)
    → release_task now b current e principal ≡ ok (b', version)
    → load_task b current.id ≡ ok current
    → (e.blocking ≡ true → current.status ≡ TaskStatus.waiting)
    → (b'.escalations ≡ b.escalations)
      × (b'.messages ≡ b.messages)
      × Released now b b' current e principal
unfolding release_task
release_task-eq-ok now b b' current e principal version h loaded waits =
    elim (Bool-cases e.blocking) [
      | inr open_task ↦
          let go = rw open_task at h in
          let same : b ≡ b' = ap (λ (p : Board × ℕ). p.0) (ok_injective go) in
          (
            ap (λ (x : Board). x.escalations) (sym same),
            ap (λ (x : Board). x.messages) (sym same),
            record {
              blocked = λ k. absurd (ground (arith, k, open_task));
              free = λ k. ap (λ (x : Board). x.tasks) (sym same);
            },
          )
      | inl blocks ↦
          let go = rw blocks at h in
          let here = λ (t : Task).
            versioned current.id current.version t && t.status == TaskStatus.waiting in
          let change = answered_row now (requeued_owner current) principal.id in
          let (ts, one, last) = >>=-eq-ok (one_row here change b.tasks) _ go in
          let written : record b { tasks = ts } ≡ b' =
            ap (λ (p : Board × ℕ). p.0) (ok_injective last) in
          let status = waits blocks in
          let hit : here current ≡ true = ground (
            arith,
            status,
            nat_beq_iff current.version current.version,
            eq_iff current.id current.id,
          ) in
          (
            ap (λ (x : Board). x.escalations) (sym written),
            ap (λ (x : Board). x.messages) (sym written),
            record {
              blocked = λ k.
                  row_after b b' current here change loaded hit (λ t. refl)
                    (ap (λ (x : Board). x.tasks) (sym written)
                      ∙ (one_row-eq-ok here change b.tasks ts one).1);
              free = λ k. absurd (ground (arith, k, blocks));
            },
          )
    ]

-- An answer that succeeds.
pub record Answers (call : Call) (b : Board) (task_id id : String)
    (request : ResolveEscalationRequest) (principal : Principal) (delegated_by : String)
    (b' : Board) : Type 0 where
  pub current : Task
  pub loaded : load_task b task_id ≡ ok current
  pub expected : current.version ≡ request.expected_version
  pub stored : Escalation
  pub there : find (λ (x : Escalation). x.id == id) b.escalations ≡ some stored
  pub of_task : stored.task_id ≡ task_id
  pub unsettled : stored.status ≡ EscalationStatus.open_status
  pub in_time : has_passed call.now stored.expires_at ≡ false
  pub allowed : Allows stored request principal current
  pub written :
      b'.escalations
      ≡ update
          (λ (e : Escalation). e.id == id && e.status == EscalationStatus.open_status)
          (λ (e : Escalation). record e {
            status = EscalationStatus.answered;
            answer_message_id = call.new_id 0;
            selected_option = request.selected_option;
            resolved_by = principal.id;
            delegated_by = delegated_by;
            resolved_at = some call.now;
          })
          b.escalations
  pub said : Message
  pub messages : b'.messages ≡ b.messages ++ said ∷ []
  pub said_of : said.task_id ≡ task_id
  pub said_by : said.author ≡ principal.id
  pub said_body : said.body ≡ request.answer
  pub said_to : said.reply_to_id ≡ stored.question_message_id
  pub released : Released call.now b b' current stored principal

Released-board :
    (now : Time) (b c b' c' : Board) (current : Task) (e : Escalation) (principal : Principal)
    → b.tasks ≡ c.tasks
    → c'.tasks ≡ b'.tasks
    → Released now c b' current e principal
    → Released now b c' current e principal
Released-board now b c b' c' current e principal before after r = record {
  blocked = λ k. load_task-tasks c' b' current.id after ∙ r.blocked k;
  free = λ k. after ∙ r.free k ∙ sym before;
}

-- An answer succeeds only for an open escalation of the task that has not expired, at the expected
-- version of the task, by a named answerer where answerers are named, with one of the choices
-- where one is selected, and while the task waits if the escalation is blocking. It marks the open
-- rows with that identifier answered, with the choice, the answerer, the delegate and the time,
-- and adds one message of the answerer with the answer. The task of a blocking escalation gets the
-- status queued, the next version and the answerer as its last editor, waits for nothing, and has
-- no owner if it is in the agent lane; otherwise the tasks stay as they are.
pub write_answer-Answers :
    (call : Call) (b b' : Board) (task_id id : String) (request : ResolveEscalationRequest)
    (principal : Principal) (delegated_by : String) (shown : Escalation)
    → write_answer call b task_id id request principal delegated_by ≡ ok (b', shown)
    → Answers call b task_id id request principal delegated_by b'
unfolding write_answer insert_event
write_answer-Answers call b b' task_id id request principal delegated_by shown h =
    let (current, loaded, h1) = >>=-eq-ok (load_task b task_id) _ h in
    let (same, h2) =
      refuse_if-eq-ok (not (current.version == request.expected_version)) conflict _ h1 in
    let (e, seen, h3) = >>=-eq-ok (load_escalation call b id) _ h2 in
    let (u, checked, h4) = >>=-eq-ok (check_answer task_id current e request principal) _ h3 in
    let (b1, put_in, h5) =
      >>=-eq-ok (insert_message b (answer_message call task_id e request principal)) _ h4 in
    let change = resolved_row call request principal delegated_by in
    let (rows, one, h6) = >>=-eq-ok (one_row (unanswered id) change b1.escalations) _ h5 in
    let ((b2, version), freed, h7) =
      >>=-eq-ok (release_task call.now (record b1 { escalations = rows }) current e principal) _
        h6 in
    let (again, reloaded, h8) = >>=-eq-ok (load_escalation call _ id) _ h7 in
    let (stored, there, as_shown) = load_escalation-eq-ok call b id e seen in
    let (of_task, unsettled, allows) =
      check_answer-eq-ok task_id current e request principal u checked in
    let (status, in_time, plain) =
      shown_escalation-open call.now stored
        (ap (λ (x : Escalation). x.status) (sym as_shown) ∙ unsettled) in
    let same_row : e ≡ stored = as_shown ∙ plain in
    let last : b'.tasks ≡ b2.tasks =
      sym (ap (λ (p : Board × Escalation). p.0.tasks) (ok_injective h8)) in
    let last_rows : b'.escalations ≡ b2.escalations =
      sym (ap (λ (p : Board × Escalation). p.0.escalations) (ok_injective h8)) in
    let same_tasks : b.tasks ≡ b1.tasks =
      sym (ap (λ (x : Board). x.tasks) (insert_message-eq-ok b b1 _ put_in)) in
    let named = load_task-named b task_id current loaded in
    let loaded_here : load_task (record b1 { escalations = rows }) current.id ≡ ok current =
      sym (load_task-tasks b (record b1 { escalations = rows }) current.id same_tasks)
      ∙ subst (λ i. load_task b i ≡ ok current) (sym named) loaded in
    let (kept_rows, kept_messages, freed_task) =
      release_task-eq-ok call.now (record b1 { escalations = rows }) b2 current e principal version
        freed loaded_here allows.waits in
    record {
      current = current;
      loaded = loaded;
      expected = ground (arith, same);
      stored = stored;
      there = there;
      of_task = ap (λ (x : Escalation). x.task_id) (sym same_row) ∙ of_task;
      unsettled = status;
      in_time = in_time;
      allowed = subst (λ x. Allows x request principal current) same_row allows;
      written =
          last_rows
          ∙ kept_rows
          ∙ (one_row-eq-ok (unanswered id) change b1.escalations rows one).1
          ∙ ap (update (unanswered id) change) (insert_message-escalations b b1 _ put_in);
      said = answer_message call task_id e request principal;
      messages =
          sym (ap (λ (p : Board × Escalation). p.0.messages) (ok_injective h8))
          ∙ kept_messages
          ∙ ap (λ (x : Board). x.messages) (insert_message-eq-ok b b1 _ put_in);
      said_of = refl;
      said_by = refl;
      said_body = refl;
      said_to = ap (λ (x : Escalation). x.question_message_id) same_row;
      released =
          subst (λ x. Released call.now b b' current x principal) same_row
            (Released-board call.now b (record b1 { escalations = rows }) b2 b' current e principal
              same_tasks last freed_task);
    }
