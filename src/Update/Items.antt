-- ===== src/Update/Items.antt =====
-- Which items an update writes: those of `edit_items`, and the copies for the next occurrence.
use taskboard.Board.Queries.{list_items}
use taskboard.Board.Settings.{Call, Settings}
use taskboard.Board.Writes.{items-insert_event}
use taskboard.Common.{
  >>=-eq-ok, Bool-cases, List, Option, String, any, ap, arith, count, inl, inr, is_some, nat_eq,
  none, not, ok, ok_injective, refl, some, string_eq, subst, sym, ℕ, ◌&&◌, ◌+◌, ◌==◌, ◌||◌, ◌∙◌,
  ◌≡◌,
}
use taskboard.Model.{
  Board, Item, Requirement, Run, Task, TaskStatus, UpdateRequest, Visibility, item_eq, status_eq,
  visibility_eq,
}
use taskboard.Stamp.{Time}
use taskboard.Update.Edit.{Edit}
use taskboard.Update.Effects.{
  add_next, apply_default_requirements, copy_items, lane_requirements, link_duplicates,
  next_recurring_date, report_run, route_next,
}
use taskboard.Update.Handler.{follow_up}
use taskboard.Update.Row.{drawn}

link_duplicates-items :
    (call : Call) (from : ℕ) (b : Board) (task_id : String) (current row : Task) (r : UpdateRequest)
    (actor : String) (kept : Option (String × String))
    → (link_duplicates call from b task_id current row r actor kept).items ≡ b.items
unfolding link_duplicates
link_duplicates-items call from b task_id current row r actor (some (kept, title)) =
    items-insert_event _ _
link_duplicates-items call from b task_id current row r actor none =
    elim (Bool-cases (
      is_some r.duplicate_of
      || current.status == TaskStatus.cancelled && not (row.status == TaskStatus.cancelled))) [
        | inl clears ↦ rw clears refl
        | inr keeps ↦ rw keeps refl
      ]

apply_default_requirements-items :
    (settings : Settings) (b : Board) (task_id actor : String) (now : Time)
    → (apply_default_requirements settings b task_id actor now).0.items ≡ b.items
unfolding apply_default_requirements
apply_default_requirements-items settings b task_id actor now =
    elim (Bool-cases (any (λ (r : Requirement). r.task_id == task_id) b.requirements)) [
      | inl some_there ↦ rw some_there refl
      | inr none_there ↦ rw none_there refl
    ]

lane_requirements-items :
    (settings : Settings) (b : Board) (task_id : String) (current row : Task) (edit : Edit)
    (now : Time)
    → (lane_requirements settings b task_id current row edit now).0.items ≡ b.items
unfolding lane_requirements
lane_requirements-items settings b task_id current row edit now =
    elim (Bool-cases (
      is_some edit.visibility
      && row.visibility == Visibility.agent
      && not (current.visibility == Visibility.agent))) [
        | inl moves ↦
            rw moves (apply_default_requirements-items settings b task_id row.last_edited_by now)
        | inr stays ↦ rw stays refl
      ]

route_next-items :
    (settings : Settings) (b : Board) (task_id next_id : String) (row : Task) (now : Time)
    → (route_next settings b task_id next_id row now).items ≡ b.items
unfolding route_next
route_next-items settings b task_id next_id row now =
    elim (Bool-cases (row.visibility == Visibility.agent)) [
      | inl lane ↦
          rw lane (apply_default_requirements-items settings _ next_id row.last_edited_by now)
      | inr other ↦ rw other refl
    ]

report_run-items :
    (settings : Settings) (call : Call) (b : Board) (task_id run_id : String) (status : TaskStatus)
    (b' : Board)
    → report_run settings call b task_id run_id status ≡ ok b'
    → b'.items ≡ b.items
unfolding report_run
report_run-items settings call b task_id run_id status b' h = elim (Bool-cases (run_id == "")) [
  | inl blank ↦ ground arith
  | inr named ↦
      elim (Bool-cases (count (λ (r : Run). r.id == run_id && r.task_id == task_id) b.runs == 1)) [
        | inl one ↦ ground arith
        | inr other ↦ absurd (ground arith)
      ]
]

-- What holds of the items before, and of every copy for a next occurrence, holds after.
module _ (P : List Item → Type 0) (settings : Settings) (call : Call) where
  pub add_next-items :
      (from : ℕ) (b : Board) (task_id : String) (current row : Task) (actor : String) (b' : Board)
      → ((k n : ℕ) (src items' : List Item)
          → copy_items call k (call.new_id n) 0 b.items src ≡ ok items'
          → P items')
      → P b.items
      → add_next settings call from b task_id current row actor ≡ ok b'
      → P b'.items
  unfolding add_next
  add_next-items from b task_id current row actor b' copies p h =
      elim (Bool-cases (
        not (row.status == TaskStatus.done && not (current.status == TaskStatus.done))
        || row.recurrence == "")) [
          | inl stops ↦ let e : b.items ≡ b'.items = ground arith in subst P e p
          | inr recurs ↦
              let go = rw recurs at h in
              let (due, dated, h1) =
                >>=-eq-ok (next_recurring_date settings row.due_date row.recurrence call.now) _
                  go in
              let next_id = call.new_id from in
              let (items, copied, h2) =
                >>=-eq-ok (copy_items call (from + 2) next_id 0 b.items (list_items b task_id)) _
                  h1 in
              let whole = ok_injective h2 in
              let e : items ≡ b'.items =
                sym (
                  items-insert_event _ _ ∙ route_next-items settings _ task_id next_id row call.now)
                ∙ ap (λ (k : Board). k.items) whole in
              subst P e (copies (from + 2) from (list_items b task_id) items copied)
        ]

  pub follow_up-items :
      (b : Board) (task_id : String) (current row : Task) (edit : Edit)
      (kept : Option (String × String)) (actor : String) (completed : List String) (b' : Board)
      → ((k n : ℕ) (src items' : List Item)
          → copy_items call k (call.new_id n) 0 b.items src ≡ ok items'
          → P items')
      → P b.items
      → follow_up settings call b task_id current row edit kept actor completed ≡ ok b'
      → P b'.items
  unfolding follow_up
  follow_up-items b task_id current row edit kept actor completed b' copies p h =
      let from = drawn edit.request in
      let linked = link_duplicates call from b task_id current row edit.request actor kept in
      let routed = (lane_requirements settings linked task_id current row edit call.now).0 in
      let same : routed.items ≡ b.items =
        lane_requirements-items settings linked task_id current row edit call.now
        ∙ link_duplicates-items call from b task_id current row edit.request actor kept in
      let (next, added, h1) =
        >>=-eq-ok (add_next settings call (from + 2) routed task_id current row actor) _ h in
      let (reported, told, h2) =
        >>=-eq-ok (report_run settings call next task_id edit.request.run_id row.status) _ h1 in
      let after : P next.items =
        add_next-items (from + 2) routed task_id current row actor next
          (λ k n src items' c.
            copies k n src items'
              (subst (λ is. copy_items call k (call.new_id n) 0 is src ≡ ok items') same c))
          (subst P (sym same) p) added in
      let told_items =
        report_run-items settings call next task_id edit.request.run_id row.status reported told in
      let whole = ok_injective h2 in
      subst P
        (sym told_items ∙ sym (items-insert_event reported _) ∙ ap (λ (k : Board). k.items) whole)
        after
