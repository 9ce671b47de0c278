-- ===== src/Update/Row.antt =====
-- The checklist and the row that an update writes.
use Prim.Native.String.{◌++◌ as ◌+s+◌}
use taskboard.Board.Settings.{Call}
use taskboard.Checklist.{
  activate_first, add_items, complete_items, insert_labels, next_position, set_current, skip_items,
}
use taskboard.Claim.{is_terminal_status}
use taskboard.Common.{
  List, Option, Result, String, [], if◌then◌else◌, length, max, nat_eq, none, not, ok, or_else,
  refl, select, some, string_eq, ℕ, ◌&&◌, ◌+◌, ◌==◌, ◌>>=◌, ◌||◌, ◌∷◌, ◌≡◌,
}
use taskboard.Model.{
  Item, Task, TaskStatus, UpdateRequest, Visibility, item_eq, status_eq, visibility_eq,
}
use taskboard.Stamp.{Time}
use taskboard.Text.{clipped, default_actor, unique}
use taskboard.Update.Edit.{Edit}
use taskboard.Update.Guards.{changes_lane}

abbrev pub labels_of : Option (List String) → List String
labels_of none = []
labels_of (some labels) = labels

-- The replacement of a checklist.
unfoldable pub replaced : Call → String → List Item → Option (List String) → Result (List Item)
replaced call task_id items none = ok items
replaced call task_id items (some labels) =
    insert_labels call.now call.new_id 0 task_id (select (λ i. not (i.task_id == task_id)) items) 0
      labels

-- How many identifiers the checklist of an update draws.
abbrev pub drawn : UpdateRequest → ℕ
drawn r = length (labels_of r.checklist) + length r.add_items

-- The statements of Update on `checklist_items`, with the items that it completed.
unfoldable pub edit_items :
    Call → String → UpdateRequest → List Item → Result (List Item × List String)
unfolding replaced
edit_items call task_id r items = do
  i0 ← replaced call task_id items r.checklist
  (i1, completed) ← complete_items call.now task_id i0 (unique r.complete_item_ids)
  i2 ← skip_items call.now task_id r.skip_reason i1 (unique r.skip_item_ids)
  i3 ← set_current call.now task_id i2 r.current_item_id
  i4 ←
      add_items call.now call.new_id (length (labels_of r.checklist)) task_id i3
        (next_position task_id i3) r.add_items
  ok (i4, completed)

abbrev pub edited_status : Task → UpdateRequest → TaskStatus
edited_status current r = if r.status == TaskStatus.unset then current.status else r.status

-- A task that becomes active gets a current item.
abbrev pub started_items : Call → String → Task → UpdateRequest → List Item → List Item
started_items call task_id current r items =
    if edited_status current r == TaskStatus.active
      && not (current.status == TaskStatus.active)
      && r.current_item_id == ""
    then activate_first call.now task_id items
    else items

max_order : List Task → String → ℕ
max_order [] section = 0
max_order (t ∷ ts) section =
    let rest = max_order ts section in if t.section == section then max t.sort_order rest else rest

-- nextSortOrder
unfoldable pub next_sort_order : List Task → String → ℕ
unfolding max_order
next_sort_order tasks section = max_order tasks section + 1024

-- A new lane drops an owner that does not belong to it.
edited_owner : Task → Edit → String
edited_owner current edit =
    let owner = or_else edit.request.owner current.owner in
    let visibility = or_else edit.visibility current.visibility in
    if changes_lane edit current
      && (visibility == Visibility.agent
          || visibility == Visibility.private && not (owner == current.created_by))
    then ""
    else owner

-- The title of the kept task, or nothing.
abbrev kept_title : Option (String × String) → String
kept_title none = ""
kept_title (some (id, title)) = title

edited_note : Task → Option String → String → String
edited_note current (some note) kept = clipped note 1000
edited_note current none kept =
    if kept == "" then current.current_note else clipped ("Duplicate of " +s+ kept) 1000

abbrev clipped_or : Option String → String → String
clipped_or none old = old
clipped_or (some new) old = clipped new 1000

edited_completion : Time → Task → TaskStatus → Option Time
edited_completion now current status =
    if not (is_terminal_status status)
    then none
    else if not (is_terminal_status current.status)
    then some now
    else current.completed_at

edited_order : List Task → Task → String → ℕ
edited_order tasks current section =
    if section == current.section then current.sort_order else next_sort_order tasks section

-- The row that Update writes.
unfoldable pub edited_row :
    Time → List Task → Task → Edit → Option (String × String) → String → Task → Task
unfolding edited_owner edited_note edited_completion edited_order
edited_row now tasks current edit kept actor t =
    let r = edit.request in
    let status = edited_status current r in
    let section = or_else r.section current.section in
    record t {
      title = or_else r.title current.title;
      summary = or_else r.summary current.summary;
      task_type = or_else edit.task_type current.task_type;
      visibility = or_else edit.visibility current.visibility;
      status = status;
      owner = edited_owner current edit;
      section = section;
      project = or_else r.project current.project;
      repository = or_else r.repository current.repository;
      priority = or_else edit.priority current.priority;
      due_date = or_else r.due_date current.due_date;
      defer_until = or_else r.defer_until current.defer_until;
      recurrence = or_else r.recurrence current.recurrence;
      sort_order = edited_order tasks current section;
      reviewed_at = if r.reviewed then some now else current.reviewed_at;
      current_note = edited_note current r.current_note (kept_title kept);
      blocker = if status == TaskStatus.blocked then clipped_or r.blocker current.blocker else "";
      waiting_for =
          if status == TaskStatus.waiting then clipped_or r.waiting_for current.waiting_for else "";
      last_edited_by = default_actor actor current.created_by;
      updated_at = now;
      completed_at = edited_completion now current status;
    }

pub edited_row-id :
    (now : Time) (tasks : List Task) (current : Task) (edit : Edit)
    (kept : Option (String × String)) (actor : String) (t : Task)
    → (edited_row now tasks current edit kept actor t).id ≡ t.id
unfolding edited_row
edited_row-id now tasks current edit kept actor t = refl
