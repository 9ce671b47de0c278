-- ===== src/Update/Steps.antt =====
-- The steps of an update that succeeds.
use taskboard.Board.Queries.{TaskView, get_task, load_task, write_task}
use taskboard.Board.Settings.{Call, Settings}
use taskboard.Common.{
  >>=-eq-ok, List, Option, String, ap, arith, ltb, nat_eq, not, ok, ok_injective, refuse_if-eq-ok,
  string_eq, subst, ◌==◌, ◌||◌, ◌≡◌,
}
use taskboard.Model.{Board, Item, Task, UpdateRequest, item_eq, status_eq, visibility_eq}
use taskboard.Text.{trim_space}
use taskboard.Update.Edit.{Edit, edit_of}
use taskboard.Update.Guards.{check_done, check_edit, kept_task}
use taskboard.Update.Handler.{follow_up, update_task, write_update}
use taskboard.Update.Row.{edit_items, edited_row, edited_status, started_items}

pub record Applied (settings : Settings) (call : Call) (b : Board) (task_id : String)
    (current : Task) (edit : Edit) (actor : String) (b' : Board) : Type 0 where
  pub items : List Item
  pub completed : List String
  pub kept : Option (String × String)
  pub written : Board
  pub finished : Unit {0}
  pub same_version : current.version ≡ edit.request.expected_version
  pub edited : edit_items call task_id edit.request b.items ≡ ok (items, completed)
  pub done_checked :
      check_done (record b { items = items }) task_id (edited_status current edit.request)
      ≡ ok finished
  pub row :
      write_task
        (record b { items = started_items call task_id current edit.request items })
        task_id
        edit.request.expected_version
        (edited_row call.now b.tasks current edit kept actor)
      ≡ ok written
  pub followed :
      follow_up settings call written task_id current
        (edited_row call.now b.tasks current edit kept actor current)
        edit
        kept
        actor
        completed
      ≡ ok b'

module _ (settings : Settings) (call : Call) (b : Board) (actor : String) (current : Task)
    (edit : Edit) where
  check_edit-version :
      (id : String) (u : Unit {0})
      → check_edit b id current edit actor ≡ ok u
      → current.version ≡ edit.request.expected_version
  unfolding check_edit
  check_edit-version id u h =
      let (same, rest) =
        refuse_if-eq-ok (not (current.version == edit.request.expected_version)) _ _ h in
      ground arith

  write_update-Applied :
      (id : String) (b' : Board)
      → current.version ≡ edit.request.expected_version
      → write_update settings call b id current edit actor ≡ ok b'
      → Applied settings call b id current edit actor b'
  unfolding write_update
  write_update-Applied id b' version h =
      let r = edit.request in
      let ((items, completed), edited, h1) = >>=-eq-ok (edit_items call id r b.items) _ h in
      let (kept, linked, h2) = >>=-eq-ok (kept_task b id r actor r.duplicate_of) _ h1 in
      let (u, finished, h3) =
        >>=-eq-ok (check_done (record b { items = items }) id (edited_status current r)) _ h2 in
      let change = edited_row call.now b.tasks current edit kept actor in
      let (written, row, h4) =
        >>=-eq-ok
          (write_task (record b { items = started_items call id current r items }) id
            r.expected_version change)
          _ h3 in
      record {
        items = items;
        completed = completed;
        kept = kept;
        written = written;
        finished = u;
        same_version = version;
        edited = edited;
        done_checked = finished;
        row = row;
        followed = h4;
      }

  pub update_task-Applied :
      (id : String) (request : UpdateRequest) (result : Board × TaskView)
      → load_task b (trim_space id) ≡ ok current
      → edit_of settings request ≡ ok edit
      → update_task settings call b id request actor ≡ ok result
      → Applied settings call b (trim_space id) current edit actor result.0
  unfolding update_task
  update_task-Applied id request result loaded read h =
      let task_id = trim_space id in
      let (named, h1) = refuse_if-eq-ok (task_id == "" || ltb request.expected_version 1) _ _ h in
      let h2 = rw read at h1 in
      let h3 = rw loaded at h2 in
      let (u, checked, h4) = >>=-eq-ok (check_edit b task_id current edit actor) _ h3 in
      let (b', applied, h5) =
        >>=-eq-ok (write_update settings call b task_id current edit actor) _ h4 in
      let (view, seen, h6) = >>=-eq-ok (get_task settings call b' task_id) _ h5 in
      subst (λ c. Applied settings call b task_id current edit actor c)
        (ap (λ (r : Board × TaskView). r.0) (ok_injective h6))
        (write_update-Applied task_id b' (check_edit-version task_id u checked) applied)
