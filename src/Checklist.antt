-- ===== src/Checklist.antt =====
-- The checklist statements of Service.Claim and Service.Update in internal/service/service.go, on
-- the table `checklist_items`. An insertion fails where its primary key is taken.
pub mod OneActive
pub mod Activate
pub mod Samples
use Prim.Native.String.{len}
use taskboard.Common.{
  Bool, List, Option, Result, String, [], any, count, err, failed, false, if◌then◌else◌, ltb, max,
  nat_eq, none, not, ok, order_by, refuse_if, select, some, string_eq, suc, true, update,
  validation, ℕ, ◌&&◌, ◌++◌, ◌+◌, ◌==◌, ◌>>=◌, ◌>>◌, ◌||◌, ◌∷◌,
}
use taskboard.Model.{Item, ItemStatus, item_eq, status_eq, visibility_eq}
use taskboard.Stamp.{Time}
use taskboard.Text.{trim_space}

abbrev pub active_in : String → Item → Bool
active_in task_id i = i.task_id == task_id && i.status == ItemStatus.active

abbrev todo_in : String → Item → Bool
todo_in task_id i = i.task_id == task_id && i.status == ItemStatus.todo

abbrev pub has_id : String → Item → Bool
has_id id i = i.id == id

abbrev pub is_terminal : ItemStatus → Bool
is_terminal status = status == ItemStatus.done || status == ItemStatus.skipped

abbrev set_status : ItemStatus → Time → Item → Item
set_status status now i = record i { status = status; updated_at = now }

pub first : List Item → Option Item
first [] = none
first (i ∷ is) = some i

activate_item : Time → Option Item → List Item → List Item
activate_item now none items = items
activate_item now (some i) items = update (has_id i.id) (set_status ItemStatus.active now) items

-- The first open item of a task becomes current, unless the task has a current item.
unfoldable pub activate_first : Time → String → List Item → List Item
unfolding activate_item first
activate_first now task_id items =
    if any (active_in task_id) items
    then items
    else activate_item now
        (first (order_by (λ i j. ltb i.position j.position) (select (todo_in task_id) items))) items

unfoldable pub insert_item : List Item → Item → Result (List Item)
insert_item items new = if any (has_id new.id) items then err failed else ok (items ++ new ∷ [])

abbrev pub new_item : String → String → String → ℕ → Time → Item
new_item id task_id label position now = record {
  id = id;
  task_id = task_id;
  label = label;
  status = ItemStatus.todo;
  position = position;
  required = true;
  note = "";
  updated_at = now;
}

-- One statement of the loop over `CompleteItemIDs`: the rows, and whether an item was completed.
complete_item : Time → String → List Item → String → Result (List Item × Bool)
complete_item now task_id items id =
    let here = λ (i : Item). i.id == id && i.task_id == task_id in
    let open_here = λ (i : Item). here i && not (i.status == ItemStatus.done) in
    let done_items =
      update open_here
        (λ (i : Item). record i { status = ItemStatus.done; note = ""; updated_at = now }) items in
    if count open_here items == 1
    then ok (done_items, true)
    else if count here items == 0
    then err validation
    else ok (done_items, false)

unfoldable pub complete_items :
    Time → String → List Item → List String → Result (List Item × List String)
unfolding complete_item
complete_items now task_id items [] = ok (items, [])
complete_items now task_id items (id ∷ ids) = do
  (items', completed) ← complete_item now task_id items id
  (rest, completed_ids) ← complete_items now task_id items' ids
  ok (rest, if completed then id ∷ completed_ids else completed_ids)

skip_item : Time → String → String → List Item → String → Result (List Item)
skip_item now task_id reason items id =
    let here = λ (i : Item). i.id == id && i.task_id == task_id in
    if count here items == 1
    then ok (
        update here
          (λ (i : Item). record i {
            status = ItemStatus.skipped;
            note = trim_space reason;
            updated_at = now;
          })
          items)
    else err validation

unfoldable pub skip_items : Time → String → String → List Item → List String → Result (List Item)
unfolding skip_item
skip_items now task_id reason items [] = ok items
skip_items now task_id reason items (id ∷ ids) = do
  items' ← skip_item now task_id reason items id
  skip_items now task_id reason items' ids

-- `request.CurrentItemID`: the current item steps back, and the named open item becomes current.
unfoldable pub set_current : Time → String → List Item → String → Result (List Item)
set_current now task_id items id =
    let stepped = update (active_in task_id) (set_status ItemStatus.todo now) items in
    let open_here =
      λ (i : Item). i.id == id && i.task_id == task_id && not (is_terminal i.status) in
    if id == ""
    then ok items
    else if count open_here stepped == 1
    then ok (update open_here (set_status ItemStatus.active now) stepped)
    else err validation

-- SELECT COALESCE(MAX(position),-1)+1
unfoldable pub next_position : String → List Item → ℕ
next_position task_id [] = 0
next_position task_id (i ∷ is) =
    let rest = next_position task_id is in
    if i.task_id == task_id then max (i.position + 1) rest else rest

abbrev pub bad_label : String → Bool
bad_label label = label == "" || ltb 300 (len label)

-- The loop over `AddItems`; the identifiers are drawn from `from` on.
unfoldable pub add_items :
    Time → (ℕ → String) → ℕ → String → List Item → ℕ → List String → Result (List Item)
unfolding insert_item
add_items now new_id from task_id items position [] = ok items
add_items now new_id from task_id items position (label ∷ labels) = do
  refuse_if (bad_label (trim_space label)) validation
  items' ← insert_item items (new_item (new_id from) task_id (trim_space label) position now)
  add_items now new_id (suc from) task_id items' (suc position) labels

-- The checklist of a new task, or the replacement of a checklist: labels already trimmed.
unfoldable pub insert_labels :
    Time → (ℕ → String) → ℕ → String → List Item → ℕ → List String → Result (List Item)
unfolding insert_item
insert_labels now new_id from task_id items position [] = ok items
insert_labels now new_id from task_id items position (label ∷ labels) = do
  items' ← insert_item items (new_item (new_id from) task_id label position now)
  insert_labels now new_id (suc from) task_id items' (suc position) labels

-- openRequiredItemIDs, without the order
abbrev pub open_required : String → Item → Bool
open_required task_id i = i.task_id == task_id && i.required && not (is_terminal i.status)
