-- ===== src/Update/Single.antt =====
-- Updates keep the checklists single.
use taskboard.Board.Queries.{TaskView, load_task}
use taskboard.Board.Settings.{Call, Settings}
use taskboard.Board.Writes.{write_task-rest}
use taskboard.Checklist.{
  active_in, add_items, complete_items, has_id, insert_item, new_item, next_position, set_current,
  skip_items,
}
use taskboard.Checklist.Activate.{activate_first-IsSingle}
use taskboard.Checklist.OneActive.{
  IsSingle, add_items-IsSingle, complete_items-IsSingle, insert_item-IsSingle,
  insert_labels-IsSingle, set_current-IsSingle, skip_items-IsSingle,
}
use taskboard.Common.{
  >>=-eq-ok, Bool, Bool-cases, List, Option, String, [], ap, arith, count, inl, inr, length, nat_eq,
  none, not, ok, ok_injective, refl, select, some, string_eq, subst, suc, sym, ℕ, ◌&&◌, ◌==◌, ◌∷◌,
  ◌≡◌, ◌≤◌,
}
use taskboard.Model.{
  Board, Item, Task, TaskStatus, UpdateRequest, item_eq, status_eq, visibility_eq,
}
use taskboard.Text.{trim_space, unique}
use taskboard.Update.Edit.{Edit, edit_of}
use taskboard.Update.Effects.{copy_items}
use taskboard.Update.Handler.{update_task}
use taskboard.Update.Items.{follow_up-items}
use taskboard.Update.Row.{edit_items, edited_status, labels_of, replaced, started_items}
use taskboard.Update.Steps.{update_task-Applied}

count-select_le {ℓ} :
    {A : Type ℓ} (p q : A → Bool) (xs : List A) → count p (select q xs) ≤ count p xs
count-select_le p q [] = omega arith
count-select_le p q (x ∷ xs) = ground (arith, count-select_le p q xs)

select-IsSingle : (q : Item → Bool) (items : List Item) → IsSingle items → IsSingle (select q items)
select-IsSingle q items s = record {
  keys = λ id. omega (arith, s.keys id, count-select_le (has_id id) q items);
  current = λ t. omega (arith, s.current t, count-select_le (active_in t) q items);
}

replaced-IsSingle :
    (call : Call) (task_id : String) (items : List Item) (o : Option (List String))
    (items' : List Item)
    → IsSingle items
    → replaced call task_id items o ≡ ok items'
    → IsSingle items'
unfolding replaced
replaced-IsSingle call task_id items none items' s h = subst IsSingle (ok_injective h) s
replaced-IsSingle call task_id items (some labels) items' s h =
    let others = λ (i : Item). not (i.task_id == task_id) in
    insert_labels-IsSingle call.now call.new_id 0 task_id (select others items) 0 labels items'
      (select-IsSingle others items s) h

-- The checklist statements of an update keep the checklists single.
edit_items-IsSingle :
    (call : Call) (task_id : String) (r : UpdateRequest) (items items' : List Item)
    (completed : List String)
    → IsSingle items
    → edit_items call task_id r items ≡ ok (items', completed)
    → IsSingle items'
unfolding edit_items
edit_items-IsSingle call task_id r items items' completed s h =
    let (i0, e0, h0) = >>=-eq-ok (replaced call task_id items r.checklist) _ h in
    let ((i1, done), e1, h1) =
      >>=-eq-ok (complete_items call.now task_id i0 (unique r.complete_item_ids)) _ h0 in
    let (i2, e2, h2) =
      >>=-eq-ok (skip_items call.now task_id r.skip_reason i1 (unique r.skip_item_ids)) _ h1 in
    let (i3, e3, h3) = >>=-eq-ok (set_current call.now task_id i2 r.current_item_id) _ h2 in
    let from = length (labels_of r.checklist) in
    let (i4, e4, h4) =
      >>=-eq-ok
        (add_items call.now call.new_id from task_id i3 (next_position task_id i3) r.add_items) _
        h3 in
    let s0 = replaced-IsSingle call task_id items r.checklist i0 s e0 in
    let s1 =
      complete_items-IsSingle call.now task_id i0 (unique r.complete_item_ids) i1 done s0 e1 in
    let s2 =
      skip_items-IsSingle call.now task_id r.skip_reason i1 (unique r.skip_item_ids) i2 s1 e2 in
    let s3 = set_current-IsSingle call.now task_id i2 r.current_item_id i3 s2 e3 in
    let s4 =
      add_items-IsSingle call.now call.new_id from task_id i3 (next_position task_id i3) r.add_items
        i4 s3 e4 in
    subst IsSingle (ap (λ (p : List Item × List String). p.0) (ok_injective h4)) s4

started_items-IsSingle :
    (call : Call) (task_id : String) (current : Task) (r : UpdateRequest) (items : List Item)
    → IsSingle items
    → IsSingle (started_items call task_id current r items)
started_items-IsSingle call task_id current r items s =
    elim (Bool-cases (
      edited_status current r == TaskStatus.active
      && not (current.status == TaskStatus.active)
      && r.current_item_id == "")) [
        | inl starts ↦ rw starts (activate_first-IsSingle call.now task_id items s)
        | inr stays ↦ rw stays s
      ]

copy_items-IsSingle :
    (call : Call) (from : ℕ) (next_id : String) (position : ℕ) (items src items' : List Item)
    → IsSingle items
    → copy_items call from next_id position items src ≡ ok items'
    → IsSingle items'
unfolding copy_items
copy_items-IsSingle call from next_id position items [] items' s h =
    subst IsSingle (ok_injective h) s
copy_items-IsSingle call from next_id position items (i ∷ src) items' s h =
    let new : Item = record (new_item (call.new_id from) next_id i.label position call.now) {
      required = i.required;
    } in
    let (mid, one, rest) = >>=-eq-ok (insert_item items new) _ h in
    copy_items-IsSingle call (suc from) next_id (suc position) mid src items'
      (insert_item-IsSingle items new s refl one) rest

module _ (settings : Settings) (call : Call) (b : Board) (id : String) (request : UpdateRequest)
    (actor : String) (current : Task) (edit : Edit) (result : Board × TaskView)
    (loaded : load_task b (trim_space id) ≡ ok current) (read : edit_of settings request ≡ ok edit)
    (updated : update_task settings call b id request actor ≡ ok result) where
  -- An update keeps the checklists single, those of the next occurrence of a recurring task
  -- included: if before it no task has two current items and no two items share an identifier, so
  -- it is after.
  pub update_task-IsSingle : IsSingle b.items → IsSingle result.0.items
  update_task-IsSingle s =
      let task_id = trim_space id in
      let w =
        update_task-Applied settings call b actor current edit id request result loaded read
          updated in
      let rest = write_task-rest _ w.written task_id _ _ w.row in
      let edited =
        edit_items-IsSingle call task_id edit.request b.items w.items w.completed s w.edited in
      let started = started_items-IsSingle call task_id current edit.request w.items edited in
      let written : IsSingle w.written.items = subst IsSingle (sym rest.0) started in
      follow_up-items IsSingle settings call w.written task_id current _ edit w.kept actor
        w.completed result.0
        (λ k n src items' c.
          copy_items-IsSingle call k (call.new_id n) 0 w.written.items src items' written c)
        written w.followed
