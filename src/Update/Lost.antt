-- ===== src/Update/Lost.antt =====
-- No update is lost: an update raises the version of its task, and is refused at an older one.
use taskboard.Board.Queries.{TaskView, load_task, write_task}
use taskboard.Board.Settings.{Call, Settings}
use taskboard.Board.Writes.{
  bumped, load_task-found, load_task-intro, load_task-tasks, load_task-write_task,
}
use taskboard.Common.{
  Hint, String, ap, arith, err, false, ltb, nat_eq, not, ok, refl, refuse_if-eq-ok, string_eq, true,
  version_conflict, ◌+◌, ◌==◌, ◌||◌, ◌∙◌, ◌≡◌, ◌≤◌,
}
use taskboard.Model.{Board, Task, UpdateRequest, item_eq, status_eq, visibility_eq}
use taskboard.Text.{trim_space}
use taskboard.Update.Edit.{Edit, edit_of}
use taskboard.Update.Guards.{check_edit, conflict_hint, run_has_ended}
use taskboard.Update.Handler.{update_task}
use taskboard.Update.Row.{edited_row, edited_row-id, started_items}
use taskboard.Update.Steps.{update_task-Applied}
use taskboard.Update.Version.{IsAt, follow_up-IsAt}

module _ (settings : Settings) (call : Call) (b : Board) (id : String) (request : UpdateRequest)
    (actor : String) (current : Task) (edit : Edit) (result : Board × TaskView)
    (loaded : load_task b (trim_space id) ≡ ok current) (read : edit_of settings request ≡ ok edit)
    (updated : update_task settings call b id request actor ≡ ok result) where
  -- An update succeeds only on a task whose version is the expected one, and the task is stored
  -- one version on after it, links to duplicates and the next occurrence included.
  pub update_task-IsAt :
      (current.version ≡ edit.request.expected_version)
      × IsAt (trim_space id) (current.version + 1) result.0.tasks
  update_task-IsAt =
      let task_id = trim_space id in
      let w =
        update_task-Applied settings call b actor current edit id request result loaded read
          updated in
      let change = edited_row call.now b.tasks current edit w.kept actor in
      let started = record b { items = started_items call task_id current edit.request w.items } in
      let before : load_task started task_id ≡ ok current =
        load_task-tasks started b task_id refl ∙ loaded in
      let row : write_task started task_id current.version change ≡ ok w.written =
        ap (λ v. write_task started task_id v change) w.same_version ∙ w.row in
      let after =
        load_task-write_task started w.written task_id current change (edited_row-id _ _ _ _ _ _)
          before row in
      (
        w.same_version,
        follow_up-IsAt settings call w.written task_id current _ edit w.kept actor w.completed
            result.0 (current.version + 1)
            (bumped change current, load_task-found w.written task_id _ after, refl) w.followed,
      )

  -- No update is lost: after an update that succeeds, an update of the same task whose edit
  -- expects the same version, itself at least 1, is refused with a version conflict that names the
  -- version after the first one, whoever sends it and whenever.
  pub update_task-twice :
      (call' : Call) (request' : UpdateRequest) (actor' : String) (edit' : Edit)
      → edit_of settings request' ≡ ok edit'
      → 1 ≤ request'.expected_version
      → edit'.request.expected_version ≡ edit.request.expected_version
      → (hint : Hint) × (update_task settings call' result.0 id request' actor'
          ≡ err (version_conflict (current.version + 1) current.version hint))
  unfolding update_task check_edit
  update_task-twice call' request' actor' edit' read' positive same =
      let task_id = trim_space id in
      let (named, _) =
        refuse_if-eq-ok (task_id == "" || ltb request.expected_version 1) _ _ updated in
      let (same_version, (t, here, at)) = update_task-IsAt in
      let found_row = load_task-intro result.0 task_id t here in
      let named' : (task_id == "" || ltb request'.expected_version 1) ≡ false = ground arith in
      let late : not (t.version == edit'.request.expected_version) ≡ true = ground arith in
      let expects : edit'.request.expected_version ≡ current.version = cc in
      (
        conflict_hint t.status (run_has_ended result.0 task_id edit'.request.run_id),
        rw (named', read', found_row, late, at, expects),
      )
