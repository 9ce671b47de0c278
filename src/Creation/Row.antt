-- ===== src/Creation/Row.antt =====
-- What a creation stores.
use taskboard.Board.Queries.{TaskView, get_task, insert_event}
use taskboard.Board.Settings.{Call, Settings}
use taskboard.Checklist.{insert_labels}
use taskboard.Checklist.OneActive.{IsSingle, insert_labels-IsSingle}
use taskboard.Common.{
  >>=-eq-ok, Bool-cases, String, [], any, ap, false, inl, inr, map, nat_eq, ok, ok_injective,
  string_eq, subst, sym, ◌++◌, ◌==◌, ◌∙◌, ◌∷◌, ◌≡◌,
}
use taskboard.Creation.{check_labels, check_planned, insert_task, planned_of}
use taskboard.Creation.Queue.{QueuedTask, create_task, insert_queued_task, queued_of, queued_row}
use taskboard.Creation.Requirements.{insert_requirements, normalize_requirements}
use taskboard.Model.{
  Board, CreateRequest, Task, control_kind_eq, control_status_eq, escalation_eq, item_eq, status_eq,
  visibility_eq,
}
use taskboard.Text.{default_actor}
use taskboard.Update.Effects.{requirement_of}

pub insert_task-eq-ok :
    (b b' : Board) (new : Task)
    → insert_task b new ≡ ok b'
    → (any (λ (t : Task). t.id == new.id) b.tasks ≡ false)
      × (b' ≡ record b { tasks = b.tasks ++ new ∷ [] })
unfolding insert_task
insert_task-eq-ok b b' new h = elim (Bool-cases (any (λ (t : Task). t.id == new.id) b.tasks)) [
  | inl taken ↦ let go = rw taken at h in cc
  | inr free ↦ let go = rw free at h in (free, sym (ok_injective go))
]

-- A queued task: one new row under a new identifier, no run, and a single checklist.
pub record Queued (call : Call) (b : Board) (item : QueuedTask) (b' : Board) : Type 0 where
  pub fresh : any (λ (t : Task). t.id == call.new_id 0) b.tasks ≡ false
  pub tasks : b'.tasks ≡ b.tasks ++ queued_row call b.tasks item ∷ []
  pub runs : b'.runs ≡ b.runs
  pub single : IsSingle b.items → IsSingle b'.items
  pub requirements :
      b'.requirements
      ≡ b.requirements
        ++ map (requirement_of (call.new_id 0) item.edited_by call.now) item.requirements

pub insert_queued_task-Queued :
    (call : Call) (b b' : Board) (item : QueuedTask)
    → insert_queued_task call b item ≡ ok b'
    → Queued call b item b'
unfolding insert_queued_task insert_requirements insert_event
insert_queued_task-Queued call b b' item h =
    let (b1, put_in, h1) = >>=-eq-ok (insert_task b (queued_row call b.tasks item)) _ h in
    let (items, listed, h2) =
      >>=-eq-ok (insert_labels call.now call.new_id 1 (call.new_id 0) b1.items 0 item.checklist) _
        h1 in
    let last = ok_injective h2 in
    let (fresh, row) = insert_task-eq-ok b b1 (queued_row call b.tasks item) put_in in
    record {
      fresh = fresh;
      tasks = sym (ap (λ (x : Board). x.tasks) last) ∙ ap (λ (x : Board). x.tasks) row;
      runs = sym (ap (λ (x : Board). x.runs) last) ∙ ap (λ (x : Board). x.runs) row;
      single = λ s. subst IsSingle (ap (λ (x : Board). x.items) last) (
          insert_labels-IsSingle call.now call.new_id 1 (call.new_id 0) b1.items 0 item.checklist
            items (subst IsSingle (ap (λ (x : Board). x.items) (sym row)) s) listed);
      requirements =
          sym (ap (λ (x : Board). x.requirements) last)
          ∙ ap
              (λ (x : Board).
                x.requirements
                ++ map (requirement_of (call.new_id 0) item.edited_by call.now) item.requirements)
              row;
    }

queued_of-eq-ok :
    (settings : Settings) (request : CreateRequest) (actor : String) (item : QueuedTask)
    → queued_of settings request actor ≡ ok item
    → (item.planned ≡ planned_of settings request.fields)
      × (item.created_by ≡ default_actor actor "user")
      × (item.edited_by ≡ default_actor actor "user")
unfolding queued_of
queued_of-eq-ok settings request actor item h =
    let p = planned_of settings request.fields in
    let (u, checked, h1) = >>=-eq-ok (check_planned settings p false) _ h in
    let (labels, listed, h2) = >>=-eq-ok (check_labels request.fields.checklist) _ h1 in
    let (items, wanted, h3) = >>=-eq-ok (normalize_requirements request.requirements) _ h2 in
    let last = ok_injective h3 in
    (
      sym (ap (λ (x : QueuedTask). x.planned) last),
      sym (ap (λ (x : QueuedTask). x.created_by) last),
      sym (ap (λ (x : QueuedTask). x.edited_by) last),
    )

-- A created task, as Create stores it.
pub record Created (settings : Settings) (call : Call) (b : Board) (request : CreateRequest)
    (actor : String) (b' : Board) : Type 0 where
  pub item : QueuedTask
  pub planned : item.planned ≡ planned_of settings request.fields
  pub creator : item.created_by ≡ default_actor actor "user"
  pub editor : item.edited_by ≡ default_actor actor "user"
  pub queued : Queued call b item b'

pub create_task-Created :
    (settings : Settings) (call : Call) (b b' : Board) (request : CreateRequest) (actor : String)
    (task : TaskView)
    → create_task settings call b request actor ≡ ok (b', task)
    → Created settings call b request actor b'
unfolding create_task
create_task-Created settings call b b' request actor task h =
    let (item, given, h1) = >>=-eq-ok (queued_of settings request actor) _ h in
    let (after, stored, h2) = >>=-eq-ok (insert_queued_task call b item) _ h1 in
    let (view, seen, h3) = >>=-eq-ok (get_task settings call after (call.new_id 0)) _ h2 in
    let (planned, creator, editor) = queued_of-eq-ok settings request actor item given in
    record {
      item = item;
      planned = planned;
      creator = creator;
      editor = editor;
      queued =
          subst (Queued call b item) (ap (λ (p : Board × TaskView). p.0) (ok_injective h3))
            (insert_queued_task-Queued call b after item stored);
    }
