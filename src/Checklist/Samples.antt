-- ===== src/Checklist/Samples.antt =====
-- The theorems on checklists at work on two items.
use taskboard.Checklist.OneActive.{IsSingle}
use taskboard.Common.{
  Bool, Bool-cases, String, arith, eq_iff, false, if◌then◌else◌, inl, inr, nat_eq, refl, string_eq,
  subst, suc, ◌&&◌, ◌==◌, ◌≡◌, ◌≤◌,
}
use taskboard.Fixtures.{checklist}
use taskboard.Model.{
  control_kind_eq, control_status_eq, escalation_eq, item_eq, status_eq, visibility_eq,
}

one_of_two :
    (p q : Bool)
    → (p && q) ≡ false
    → (if p then suc (if q then 1 else 0) else if q then 1 else 0) ≤ 1
one_of_two p q h = ground arith

distinct_keys : (id : String) → ("i1" == id && "i2" == id) ≡ false
distinct_keys id = elim (Bool-cases ("i1" == id)) [
  | inr other ↦ rw other refl
  | inl same ↦ subst (λ k. ("i1" == k && "i2" == k) ≡ false) ((eq_iff "i1" id).0 same) refl
]

pub checklist-IsSingle : IsSingle checklist
checklist-IsSingle = record {
  keys = λ id. one_of_two ("i1" == id) ("i2" == id) (distinct_keys id);
  current = λ id. ground arith;
}
