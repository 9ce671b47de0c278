-- ===== src/Update/Version.antt =====
-- What follows the write of a row keeps the version of the task.
use taskboard.Board.Queries.{insert_event, list_items}
use taskboard.Board.Settings.{Call, Settings}
use taskboard.Common.{
  >>=-eq-ok, Bool, Bool-cases, List, Option, String, any, ap, arith, count, false, find,
  find-append_some, find-update, if◌then◌else◌, inl, inr, is_some, nat_eq, none, not, ok,
  ok_injective, refl, some, string_eq, subst, sym, true, update, ℕ, ◌&&◌, ◌+◌, ◌==◌, ◌||◌, ◌∙◌, ◌≡◌,
}
use taskboard.Controls.Completed.{stops}
use taskboard.Model.{
  Board, Requirement, Run, Task, TaskStatus, UpdateRequest, Visibility, control_kind_eq,
  control_status_eq, escalation_eq, item_eq, message_eq, status_eq, visibility_eq,
}
use taskboard.Stamp.{Time}
use taskboard.Update.Edit.{Edit}
use taskboard.Update.Effects.{
  add_next, apply_default_requirements, copy_items, lane_requirements, link_duplicates, links_to,
  next_recurring_date, report_run, route_next,
}
use taskboard.Update.Handler.{follow_up}
use taskboard.Update.Row.{drawn}

-- The task is stored with this version.
abbrev pub IsAt : String → ℕ → List Task → Type 0
IsAt id version tasks =
    (t : Task) × (find (λ (u : Task). u.id == id) tasks ≡ some t) × (t.version ≡ version)

if-version :
    (x : Bool) (kept : Option String) (t : Task)
    → (if x then record t { duplicate_of = kept } else t).version ≡ t.version
if-version true kept t = refl
if-version false kept t = refl

relink-IsAt :
    (p : Task → Bool) (kept : Option String) (id : String) (version : ℕ) (tasks : List Task)
    → IsAt id version tasks
    → IsAt id version (update p (λ (t : Task). record t { duplicate_of = kept }) tasks)
relink-IsAt p kept id version tasks (t, here, at) = (
  if p t then record t { duplicate_of = kept } else t,
  find-update p (λ (u : Task). u.id == id) (λ (u : Task). record u { duplicate_of = kept }) tasks t
      (λ u m. refl) here,
  if-version (p t) kept t ∙ at,
)

link_duplicates-IsAt :
    (call : Call) (from : ℕ) (b : Board) (task_id : String) (current row : Task) (r : UpdateRequest)
    (actor : String) (kept : Option (String × String)) (version : ℕ)
    → IsAt task_id version b.tasks
    → IsAt task_id version (link_duplicates call from b task_id current row r actor kept).tasks
unfolding link_duplicates insert_event
link_duplicates-IsAt call from b task_id current row r actor (some (kept, title)) version at =
    relink-IsAt (λ t. t.id == task_id || links_to task_id t) (some kept) task_id version b.tasks at
link_duplicates-IsAt call from b task_id current row r actor none version at =
    elim (Bool-cases (
      is_some r.duplicate_of
      || current.status == TaskStatus.cancelled && not (row.status == TaskStatus.cancelled))) [
        | inl clears ↦
            rw clears (relink-IsAt (λ t. t.id == task_id) none task_id version b.tasks at)
        | inr keeps ↦ rw keeps at
      ]

apply_default_requirements-tasks :
    (settings : Settings) (b : Board) (task_id actor : String) (now : Time)
    → (apply_default_requirements settings b task_id actor now).0.tasks ≡ b.tasks
unfolding apply_default_requirements
apply_default_requirements-tasks settings b task_id actor now =
    elim (Bool-cases (any (λ (r : Requirement). r.task_id == task_id) b.requirements)) [
      | inl some_there ↦ rw some_there refl
      | inr none_there ↦ rw none_there refl
    ]

lane_requirements-tasks :
    (settings : Settings) (b : Board) (task_id : String) (current row : Task) (edit : Edit)
    (now : Time)
    → (lane_requirements settings b task_id current row edit now).0.tasks ≡ b.tasks
unfolding lane_requirements
lane_requirements-tasks settings b task_id current row edit now =
    elim (Bool-cases (
      is_some edit.visibility
      && row.visibility == Visibility.agent
      && not (current.visibility == Visibility.agent))) [
        | inl moves ↦
            rw moves (apply_default_requirements-tasks settings b task_id row.last_edited_by now)
        | inr stays ↦ rw stays refl
      ]

route_next-tasks :
    (settings : Settings) (b : Board) (task_id next_id : String) (row : Task) (now : Time)
    → (route_next settings b task_id next_id row now).tasks ≡ b.tasks
unfolding route_next
route_next-tasks settings b task_id next_id row now =
    elim (Bool-cases (row.visibility == Visibility.agent)) [
      | inl lane ↦
          rw lane (apply_default_requirements-tasks settings _ next_id row.last_edited_by now)
      | inr other ↦ rw other refl
    ]

report_run-tasks :
    (settings : Settings) (call : Call) (b : Board) (task_id run_id : String) (status : TaskStatus)
    (b' : Board)
    → report_run settings call b task_id run_id status ≡ ok b'
    → b'.tasks ≡ b.tasks
unfolding report_run
report_run-tasks settings call b task_id run_id status b' h = elim (Bool-cases (run_id == "")) [
  | inl blank ↦ ground arith
  | inr named ↦
      elim (Bool-cases (count (λ (r : Run). r.id == run_id && r.task_id == task_id) b.runs == 1)) [
        | inl one ↦ ground arith
        | inr other ↦ absurd (ground arith)
      ]
]

add_next-IsAt :
    (settings : Settings) (call : Call) (from : ℕ) (b : Board) (task_id : String)
    (current row : Task) (actor : String) (b' : Board) (version : ℕ)
    → IsAt task_id version b.tasks
    → add_next settings call from b task_id current row actor ≡ ok b'
    → IsAt task_id version b'.tasks
unfolding add_next insert_event
add_next-IsAt settings call from b task_id current row actor b' version (t, here, at) h =
    elim (Bool-cases (
      not (row.status == TaskStatus.done && not (current.status == TaskStatus.done))
      || row.recurrence == "")) [
        | inl stops ↦
            let e : b.tasks ≡ b'.tasks = ground arith in
            subst (IsAt task_id version) e (t, here, at)
        | inr recurs ↦
            let go = rw recurs at h in
            let (due, dated, h1) =
              >>=-eq-ok (next_recurring_date settings row.due_date row.recurrence call.now) _ go in
            let next_id = call.new_id from in
            let (items, copied, h2) =
              >>=-eq-ok (copy_items call (from + 2) next_id 0 b.items (list_items b task_id)) _
                h1 in
            let whole = ok_injective h2 in
            let e =
              sym (route_next-tasks settings _ task_id next_id row call.now)
              ∙ ap (λ (k : Board). k.tasks) whole in
            subst (IsAt task_id version) e
              (t, find-append_some (λ (u : Task). u.id == task_id) b.tasks _ t here, at)
      ]

pub follow_up-IsAt :
    (settings : Settings) (call : Call) (b : Board) (task_id : String) (current row : Task)
    (edit : Edit) (kept : Option (String × String)) (actor : String) (completed : List String)
    (b' : Board) (version : ℕ)
    → IsAt task_id version b.tasks
    → follow_up settings call b task_id current row edit kept actor completed ≡ ok b'
    → IsAt task_id version b'.tasks
unfolding follow_up insert_event
follow_up-IsAt settings call b task_id current row edit kept actor completed b' version at h =
    let from = drawn edit.request in
    let linked = link_duplicates call from b task_id current row edit.request actor kept in
    let routed = (lane_requirements settings linked task_id current row edit call.now).0 in
    let (next, added, h1) =
      >>=-eq-ok (add_next settings call (from + 2) routed task_id current row actor) _ h in
    let (reported, told, h2) =
      >>=-eq-ok (report_run settings call next task_id edit.request.run_id row.status) _ h1 in
    let linked_at =
      link_duplicates-IsAt call from b task_id current row edit.request actor kept version at in
    let routed_at =
      subst (IsAt task_id version)
        (sym (lane_requirements-tasks settings linked task_id current row edit call.now))
        linked_at in
    let next_at =
      add_next-IsAt settings call (from + 2) routed task_id current row actor next version routed_at
        added in
    let same =
      report_run-tasks settings call next task_id edit.request.run_id row.status reported told in
    subst (IsAt task_id version) (sym same ∙ ap (λ (k : Board). k.tasks) (ok_injective h2)) next_at
