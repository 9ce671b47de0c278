-- ===== src/Board/Views.antt =====
-- What a loaded task shows of the tables.
use taskboard.Board.Queries.{
  TaskView, get_task, list_items, list_requirements, list_runs, load_task, shown_run,
}
use taskboard.Board.Settings.{Call, Settings}
use taskboard.Common.{
  >>=-eq-ok, In, In-map, In-order_by, In-select, Option-cases, String, arith, find, inl, inr, map,
  nat_eq, ok, select, string_eq, true, ◌==◌, ◌∙◌, ◌≡◌,
}
use taskboard.Model.{Board, Run, Session, item_eq, status_eq, visibility_eq}
use taskboard.Stamp.{stamp_before}

pub get_task-fields :
    (settings : Settings) (call : Call) (b : Board) (id : String) (v : TaskView)
    → get_task settings call b id ≡ ok v
    → (load_task b id ≡ ok v.row)
      × (v.items ≡ list_items b id)
      × (v.runs ≡ list_runs b id)
      × (v.requirements ≡ list_requirements b id)
unfolding get_task
get_task-fields settings call b id v h =
    let (row, loaded, made) = >>=-eq-ok (load_task b id) _ h in
    (loaded ∙ ground arith, ground arith, ground arith, ground arith)

-- Only the shown callsign of a run may differ from the stored one.
pub shown_run-stored :
    (b : Board) (r : Run) → shown_run b r ≡ record r { callsign = (shown_run b r).callsign }
unfolding shown_run
shown_run-stored b r =
    elim (Option-cases (find (λ (s : Session). s.id == r.session_id) b.sessions)) [
      | inl absent ↦ ground arith
      | inr (s, e) ↦ ground arith
    ]

-- A listed run is a stored run of the task, as shown.
pub In-list_runs :
    (b : Board) (task_id : String) (r : Run)
    → In r (list_runs b task_id)
    → (s : Run) × In s b.runs × ((s.task_id == task_id) ≡ true) × (r ≡ shown_run b s)
unfolding list_runs
In-list_runs b task_id r m =
    let of_task = select (λ (s : Run). s.task_id == task_id) b.runs in
    let (s, k, e) = In-map (shown_run b) r of_task (
      In-order_by (λ (x y : Run). stamp_before y.started_at x.started_at) r
        (map (shown_run b) of_task) m) in
    let (stored, here) = In-select (λ (x : Run). x.task_id == task_id) s b.runs k in
    (s, stored, here, e)
