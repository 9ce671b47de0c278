-- ===== src/Checklist/Activate.antt =====
-- `activate_first` makes at most one item current: the first open one.
use taskboard.Checklist.{
  activate_first, activate_item, active_in, first, has_id, set_status, todo_in,
}
use taskboard.Checklist.OneActive.{IsSingle, raising}
use taskboard.Common.{
  Bool-cases, In, In-order_by, In-select, List, Option, String, [], any, any-false-count, arith,
  count-lt_of_In, eq_iff, false, inl, inr, ltb, none, order_by, refl, select, some, update, ◌∷◌,
  ◌≡◌,
}
use taskboard.Model.{Item, ItemStatus}
use taskboard.Stamp.{Time}

In-first : (l : List Item) (i : Item) → first l ≡ some i → In i l
unfolding first
In-first [] i e = cc
In-first (x ∷ l) i e = inl (ground arith)

-- Marking the row of an open item of an idle task.
mark-IsSingle :
    (now : Time) (task_id : String) (items : List Item) (i : Item)
    → IsSingle items
    → any (active_in task_id) items ≡ false
    → In i (select (todo_in task_id) items)
    → IsSingle (update (has_id i.id) (set_status ItemStatus.active now) items)
mark-IsSingle now task_id items i s idle m =
    let (stored, todo) = In-select (todo_in task_id) i items m in
    raising (has_id i.id) now task_id items
      (λ t other. omega (
        arith,
        s.keys i.id,
        count-lt_of_In (has_id i.id) (λ j. active_in t (set_status ItemStatus.active now j)) i items
            stored (ground (arith, eq_iff i.id i.id))
            (ground (arith, eq_iff i.task_id task_id, eq_iff i.task_id t, eq_iff t task_id)),
      ))
      (s.keys i.id) (any-false-count (active_in task_id) items idle) s

activate_item-IsSingle :
    (now : Time) (task_id : String) (items : List Item) (o : Option Item)
    → IsSingle items
    → any (active_in task_id) items ≡ false
    → ((i : Item) → o ≡ some i → In i (select (todo_in task_id) items))
    → IsSingle (activate_item now o items)
unfolding activate_item
activate_item-IsSingle now task_id items none s idle m = s
activate_item-IsSingle now task_id items (some i) s idle m =
    mark-IsSingle now task_id items i s idle (m i refl)

-- Activating the first open item of a task keeps the checklists single: at most one item of each
-- task is current, and no two items share an identifier.
pub activate_first-IsSingle :
    (now : Time) (task_id : String) (items : List Item)
    → IsSingle items
    → IsSingle (activate_first now task_id items)
unfolding activate_first
activate_first-IsSingle now task_id items s =
    let before = λ (i j : Item). ltb i.position j.position in
    let ordered = order_by before (select (todo_in task_id) items) in
    elim (Bool-cases (any (active_in task_id) items)) [
      | inl busy ↦ rw busy s
      | inr idle ↦ rw idle (
          activate_item-IsSingle now task_id items (first ordered) s idle
            (λ i e. In-order_by before i (select (todo_in task_id) items) (In-first ordered i e)))
    ]
