-- ===== src/Update/Done.antt =====
-- A task is done only when nothing that it requires is open.
use taskboard.Board.Queries.{TaskView, load_task, unmet_dependencies, unmet_dependencies-items}
use taskboard.Board.Settings.{Call, Settings}
use taskboard.Board.Writes.{write_task-rest}
use taskboard.Checklist.{has_id, insert_item, new_item, open_required}
use taskboard.Common.{
  >>=-eq-ok, Bool, Bool-cases, List, String, [], any, arith, false, inl, inr, nat_eq, not, ok,
  ok_injective, refl, refuse_if-eq-ok, refuse_if-false, string_eq, subst, suc, sym, ℕ, ◌&&◌, ◌++◌,
  ◌==◌, ◌∙◌, ◌∷◌, ◌≡◌,
}
use taskboard.Model.{
  Board, CompletionRequirement, Item, Task, TaskStatus, UpdateRequest, item_eq, status_eq,
  visibility_eq,
}
use taskboard.Text.{trim_space}
use taskboard.Update.Edit.{Edit, edit_of}
use taskboard.Update.Effects.{copy_items}
use taskboard.Update.Guards.{check_done}
use taskboard.Update.Handler.{update_task}
use taskboard.Update.Items.{follow_up-items}
use taskboard.Update.Row.{edited_status, started_items}
use taskboard.Update.Steps.{update_task-Applied}

abbrev pub open_requirement : String → CompletionRequirement → Bool
open_requirement task_id c = c.task_id == task_id && c.required && not c.met

check_done-eq-ok :
    (b : Board) (task_id : String) (status : TaskStatus) (u : Unit {0})
    → status ≡ TaskStatus.done
    → check_done b task_id status ≡ ok u
    → (any (open_required task_id) b.items ≡ false)
      × (any (open_requirement task_id) b.completion ≡ false)
      × (unmet_dependencies b task_id ≡ 0)
unfolding check_done
check_done-eq-ok b task_id status u done h =
    let is_done : not (status == TaskStatus.done) ≡ false = rw done refl in
    let go = rw is_done at h in
    let (items, h1) = refuse_if-eq-ok (any (open_required task_id) b.items) _ _ go in
    let (evidence, h2) = refuse_if-eq-ok (any (open_requirement task_id) b.completion) _ _ h1 in
    let met = refuse_if-false _ _ _ h2 in (items, evidence, ground arith)

any-false-snoc :
    (p : Item → Bool) (items : List Item) (new : Item)
    → any p items ≡ false
    → p new ≡ false
    → any p (items ++ new ∷ []) ≡ false
any-false-snoc p [] new closed other = ground arith
any-false-snoc p (i ∷ items) new closed other = ground (arith, any-false-snoc p items new)

insert_item-open :
    (task_id : String) (items : List Item) (new : Item) (mid : List Item)
    → (new.task_id == task_id) ≡ false
    → any (open_required task_id) items ≡ false
    → insert_item items new ≡ ok mid
    → any (open_required task_id) mid ≡ false
unfolding insert_item
insert_item-open task_id items new mid other closed h =
    elim (Bool-cases (any (has_id new.id) items)) [
      | inl taken ↦ absurd (ground arith)
      | inr free ↦
          let e : items ++ new ∷ [] ≡ mid = ground arith in
          subst (λ is. any (open_required task_id) is ≡ false) e
            (any-false-snoc (open_required task_id) items new closed (rw other refl))
    ]

-- Copies for another task leave the open items of a task as they are.
copy_items-open :
    (call : Call) (task_id : String) (from : ℕ) (next_id : String) (position : ℕ)
    (items src items' : List Item)
    → (next_id == task_id) ≡ false
    → any (open_required task_id) items ≡ false
    → copy_items call from next_id position items src ≡ ok items'
    → any (open_required task_id) items' ≡ false
unfolding copy_items
copy_items-open call task_id from next_id position items [] items' other closed h =
    subst (λ is. any (open_required task_id) is ≡ false) (ok_injective h) closed
copy_items-open call task_id from next_id position items (i ∷ src) items' other closed h =
    let new : Item = record (new_item (call.new_id from) next_id i.label position call.now) {
      required = i.required;
    } in
    let (mid, one, rest) = >>=-eq-ok (insert_item items new) _ h in
    copy_items-open call task_id (suc from) next_id (suc position) mid src items' other
      (insert_item-open task_id items new mid other closed one) rest

module _ (settings : Settings) (call : Call) (b : Board) (id : String) (request : UpdateRequest)
    (actor : String) (current : Task) (edit : Edit) (result : Board × TaskView)
    (loaded : load_task b (trim_space id) ≡ ok current) (read : edit_of settings request ≡ ok edit)
    (updated : update_task settings call b id request actor ≡ ok result) where
  -- A task becomes or stays done by an update only when nothing that it requires is open: after an
  -- update whose edited status is done, and that draws no identifier equal to that of the task, no
  -- required item of the task is open, and before it no required completion requirement was unmet
  -- and no dependency was unmet.
  pub update_task-done :
      edited_status current edit.request ≡ TaskStatus.done
      → ((n : ℕ) → (call.new_id n == trim_space id) ≡ false)
      → (any (open_required (trim_space id)) result.0.items ≡ false)
        × (any (open_requirement (trim_space id)) b.completion ≡ false)
        × (unmet_dependencies b (trim_space id) ≡ 0)
  update_task-done done fresh =
      let task_id = trim_space id in
      let w =
        update_task-Applied settings call b actor current edit id request result loaded read
          updated in
      let before = record b { items = w.items } in
      let (closed, evidence, met) =
        check_done-eq-ok before task_id (edited_status current edit.request) w.finished done
          w.done_checked in
      let rest = write_task-rest _ w.written task_id _ _ w.row in
      let kept_items : started_items call task_id current edit.request w.items ≡ w.items =
        rw done refl in
      let P = λ (items : List Item). any (open_required task_id) items ≡ false in
      let written : P w.written.items = subst P (sym (rest.0 ∙ kept_items)) closed in
      (
        follow_up-items P settings call w.written task_id current _ edit w.kept actor w.completed
            result.0
            (λ k n src items' c.
              copy_items-open call task_id k (call.new_id n) 0 w.written.items src items' (fresh n)
                written c)
            written w.followed,
        evidence,
        sym (unmet_dependencies-items b w.items task_id) ∙ met,
      )
