-- ===== src/Checklist/OneActive.antt =====
-- At most one item of a task is current: every checklist statement keeps this.
use taskboard.Checklist.{
  active_in, add_items, bad_label, complete_item, complete_items, has_id, insert_item,
  insert_labels, is_terminal, new_item, set_current, set_status, skip_item, skip_items,
}
use taskboard.Common.{
  >>=-eq-ok, Bool, Bool-cases, List, String, [], any, any-false-count, arith, count, count-append,
  count-none, count-update_bound, count-update_drop, count-update_le, count-update_same,
  count-update_zero, eq_iff, false, inl, inr, nat_eq, not, ok, refl, refuse_if-eq-ok, string_eq,
  subst, suc, sym, update, validation, ℕ, ◌&&◌, ◌++◌, ◌==◌, ◌∷◌, ◌≡◌, ◌≤◌,
}
use taskboard.Model.{Item, ItemStatus, item_eq, status_eq, visibility_eq}
use taskboard.Stamp.{Time}
use taskboard.Text.{trim_space}

-- The primary key, and one current item at most for each task.
pub record IsSingle (items : List Item) : Type 0 where
  pub keys : (id : String) → count (has_id id) items ≤ 1
  pub current : (task_id : String) → count (active_in task_id) items ≤ 1

-- An update of items that makes none current.
clearing :
    (p : Item → Bool) (f : Item → Item) (items : List Item)
    → ((i : Item) → (f i).id ≡ i.id)
    → ((i : Item) → ((f i).status == ItemStatus.active) ≡ false)
    → IsSingle items
    → IsSingle (update p f items)
clearing p f items same quiet s = record {
  keys =
      λ id. omega (arith, s.keys id, count-update_same p (has_id id) f items (λ i pi. rw (same i)));
  current = λ t. omega (
    arith,
    s.current t,
    count-update_drop p (active_in t) f items (λ i pi. ground (arith, quiet i)),
  );
}

-- A fresh row makes one row of its key.
pub keys-snoc :
    (items : List Item) (new : Item) (id : String)
    → any (has_id new.id) items ≡ false
    → count (has_id id) items ≤ 1
    → count (has_id id) (items ++ new ∷ []) ≤ 1
keys-snoc items new id free s = elim (Bool-cases (new.id == id)) [
  | inl same ↦
      let e : new.id ≡ id = (eq_iff new.id id).0 same in
      let none_yet : count (has_id id) items ≡ 0 =
        subst (λ k. count (has_id k) items ≡ 0) e (any-false-count (has_id new.id) items free) in
      ground (arith, none_yet, count-append (has_id id) items (new ∷ []))
  | inr other ↦ ground (arith, count-append (has_id id) items (new ∷ []))
]

pub insert_item-IsSingle :
    (items : List Item) (new : Item) {items' : List Item}
    → IsSingle items
    → (new.status == ItemStatus.active) ≡ false
    → insert_item items new ≡ ok items'
    → IsSingle items'
unfolding insert_item
insert_item-IsSingle items new {items'} s quiet h = elim (Bool-cases (any (has_id new.id) items)) [
  | inl taken ↦ absurd (ground arith)
  | inr free ↦
      let e : items ++ new ∷ [] ≡ items' = ground arith in
      subst IsSingle e (record {
        keys = λ id. keys-snoc items new id free (s.keys id);
        current =
            λ t. ground (arith, s.current t, quiet, count-append (active_in t) items (new ∷ []));
      })
]

complete_item-IsSingle :
    (now : Time) (task_id : String) (items : List Item) (id : String) (items' : List Item)
    (done : Bool)
    → IsSingle items
    → complete_item now task_id items id ≡ ok (items', done)
    → IsSingle items'
unfolding complete_item
complete_item-IsSingle now task_id items id items' done s h =
    let here = λ (i : Item). i.id == id && i.task_id == task_id in
    let open_here = λ (i : Item). here i && not (i.status == ItemStatus.done) in
    let mark = λ (i : Item). record i { status = ItemStatus.done; note = ""; updated_at = now } in
    let e : update open_here mark items ≡ items' = elim (Bool-cases (count open_here items == 1)) [
      | inl one ↦ ground arith
      | inr other ↦ ground arith
    ] in
    subst IsSingle e (clearing open_here mark items (λ i. refl) (λ i. refl) s)

pub complete_items-IsSingle :
    (now : Time) (task_id : String) (items : List Item) (ids : List String) (items' : List Item)
    (done : List String)
    → IsSingle items
    → complete_items now task_id items ids ≡ ok (items', done)
    → IsSingle items'
unfolding complete_items
complete_items-IsSingle now task_id items [] items' done s h =
    let e : items ≡ items' = ground arith in subst IsSingle e s
complete_items-IsSingle now task_id items (id ∷ ids) items' done s h =
    let ((mid, d), one, rest) = >>=-eq-ok (complete_item now task_id items id) _ h in
    let ((tail, ds), two, last) = >>=-eq-ok (complete_items now task_id mid ids) _ rest in
    let e : tail ≡ items' = cc last in
    subst IsSingle e (
      complete_items-IsSingle now task_id mid ids tail ds
        (complete_item-IsSingle now task_id items id mid d s one) two)

skip_item-IsSingle :
    (now : Time) (task_id reason : String) (items : List Item) (id : String) (items' : List Item)
    → IsSingle items
    → skip_item now task_id reason items id ≡ ok items'
    → IsSingle items'
unfolding skip_item
skip_item-IsSingle now task_id reason items id items' s h =
    let here = λ (i : Item). i.id == id && i.task_id == task_id in
    let mark = λ (i : Item). record i {
      status = ItemStatus.skipped;
      note = trim_space reason;
      updated_at = now;
    } in
    let e : update here mark items ≡ items' = ground arith in
    subst IsSingle e (clearing here mark items (λ i. refl) (λ i. refl) s)

pub skip_items-IsSingle :
    (now : Time) (task_id reason : String) (items : List Item) (ids : List String)
    (items' : List Item)
    → IsSingle items
    → skip_items now task_id reason items ids ≡ ok items'
    → IsSingle items'
unfolding skip_items
skip_items-IsSingle now task_id reason items [] items' s h =
    let e : items ≡ items' = cc h in subst IsSingle e s
skip_items-IsSingle now task_id reason items (id ∷ ids) items' s h =
    let (mid, one, rest) = >>=-eq-ok (skip_item now task_id reason items id) _ h in
    skip_items-IsSingle now task_id reason mid ids items'
      (skip_item-IsSingle now task_id reason items id mid s one) rest

-- Making one item current where its task has none, and touching no other task.
module _ (p : Item → Bool) (now : Time) (task_id : String) (items : List Item) where
  pub raising :
      ((t : String)
        → (t == task_id) ≡ false
        → count (λ i. p i && active_in t (set_status ItemStatus.active now i)) items ≡ 0)
      → count p items ≤ 1
      → count (active_in task_id) items ≡ 0
      → IsSingle items
      → IsSingle (update p (set_status ItemStatus.active now) items)
  raising others one none_yet s =
      let f = set_status ItemStatus.active now in
      record {
        keys =
            λ id. omega (arith, s.keys id, count-update_same p (has_id id) f items (λ i pi. refl));
        current = λ t. elim (Bool-cases (t == task_id)) [
          | inl same ↦
              let e : t ≡ task_id = (eq_iff t task_id).0 same in
              subst (λ k. count (active_in k) (update p f items) ≤ 1) (sym e)
                (omega (arith, none_yet, one, count-update_le p (active_in task_id) f items))
          | inr other ↦
              omega (arith, s.current t, others t other, count-update_bound p (active_in t) f items)
        ];
      }

-- Choosing the current item keeps the checklists single: at most one item of each task is current,
-- and no two items share an identifier.
pub set_current-IsSingle :
    (now : Time) (task_id : String) (items : List Item) (id : String) (items' : List Item)
    → IsSingle items
    → set_current now task_id items id ≡ ok items'
    → IsSingle items'
unfolding set_current
set_current-IsSingle now task_id items id items' s h =
    let stepped = update (active_in task_id) (set_status ItemStatus.todo now) items in
    let open_here =
      λ (i : Item). i.id == id && i.task_id == task_id && not (is_terminal i.status) in
    let s' : IsSingle stepped =
      clearing (active_in task_id) (set_status ItemStatus.todo now) items (λ i. refl) (λ i. refl)
        s in
    elim (Bool-cases (id == "")) [
      | inl blank ↦ let e : items ≡ items' = ground arith in subst IsSingle e s
      | inr named ↦ elim (Bool-cases (count open_here stepped == 1)) [
        | inr other ↦ absurd (ground arith)
        | inl one ↦
            let e : update open_here (set_status ItemStatus.active now) stepped ≡ items' =
              ground arith in
            subst IsSingle e (
              raising open_here now task_id stepped
                (λ t other. count-none _ stepped (λ i.
                  ground
                    (arith, other, eq_iff i.task_id task_id, eq_iff i.task_id t, eq_iff t task_id)))
                (ground (arith, one))
                (count-update_zero (active_in task_id) (active_in task_id)
                  (set_status ItemStatus.todo now) items (λ i a. a) (λ i a. ground arith))
                s')
      ]
    ]

pub add_items-IsSingle :
    (now : Time) (new_id : ℕ → String) (from : ℕ) (task_id : String) (items : List Item)
    (position : ℕ) (labels : List String) (items' : List Item)
    → IsSingle items
    → add_items now new_id from task_id items position labels ≡ ok items'
    → IsSingle items'
unfolding add_items
add_items-IsSingle now new_id from task_id items position [] items' s h =
    let e : items ≡ items' = cc h in subst IsSingle e s
add_items-IsSingle now new_id from task_id items position (label ∷ labels) items' s h =
    let (fine, more) = refuse_if-eq-ok (bad_label (trim_space label)) validation _ h in
    let new = new_item (new_id from) task_id (trim_space label) position now in
    let (mid, one, rest) = >>=-eq-ok (insert_item items new) _ more in
    add_items-IsSingle now new_id (suc from) task_id mid (suc position) labels items'
      (insert_item-IsSingle items new s refl one) rest

pub insert_labels-IsSingle :
    (now : Time) (new_id : ℕ → String) (from : ℕ) (task_id : String) (items : List Item)
    (position : ℕ) (labels : List String) (items' : List Item)
    → IsSingle items
    → insert_labels now new_id from task_id items position labels ≡ ok items'
    → IsSingle items'
unfolding insert_labels
insert_labels-IsSingle now new_id from task_id items position [] items' s h =
    let e : items ≡ items' = cc h in subst IsSingle e s
insert_labels-IsSingle now new_id from task_id items position (label ∷ labels) items' s h =
    let new = new_item (new_id from) task_id label position now in
    let (mid, one, rest) = >>=-eq-ok (insert_item items new) _ h in
    insert_labels-IsSingle now new_id (suc from) task_id mid (suc position) labels items'
      (insert_item-IsSingle items new s refl one) rest
