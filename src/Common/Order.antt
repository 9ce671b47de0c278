-- ===== src/Common/Order.antt =====
-- ORDER BY: an insertion sort, which keeps rows of equal keys in the order of the table.
use mathlib.Core.Path.{◌≡◌, sym, subst, ◌∙◌}
use mathlib.Core.Logic.{◌⊎◌, inl, inr}
use mathlib.Core.Bool.{Bool, true, false}
use mathlib.Core.Option.{Option, none, some}
use mathlib.Core.List.{List, [], ◌∷◌}
use taskboard.Common.Tests.{if◌then◌else◌, Bool-cases}
use taskboard.Common.Rows.{In, All}

module _ {ℓ} {A : Type ℓ} (before : A → A → Bool) where
  insert_by : A → List A → List A
  insert_by x [] = x ∷ []
  insert_by x (y ∷ ys) = if before y x then y ∷ insert_by x ys else x ∷ y ∷ ys

  unfoldable pub order_by : List A → List A
  unfolding insert_by
  order_by [] = []
  order_by (x ∷ xs) = insert_by x (order_by xs)

  In-insert_by : (a x : A) (ys : List A) → In a (insert_by x ys) → (a ≡ x) ⊎ In a ys
  unfolding insert_by
  In-insert_by a x [] h = h
  In-insert_by a x (y ∷ ys) h = go (In-insert_by a x ys) (before y x) h
    where
      go :
          (In a (insert_by x ys) → (a ≡ x) ⊎ In a ys)
          → (b : Bool) → In a (if b then y ∷ insert_by x ys else x ∷ y ∷ ys)
          → (a ≡ x) ⊎ In a (y ∷ ys)
      go ih true (inl e) = inr (inl e)
      go ih true (inr k) = elim (ih k) [ inl e ↦ inl e | inr m ↦ inr (inr m) ]
      go ih false k = k

  -- Ordering the rows brings no new ones.
  pub In-order_by : (a : A) (xs : List A) → In a (order_by xs) → In a xs
  unfolding order_by
  In-order_by a [] h = h
  In-order_by a (x ∷ xs) h = elim (In-insert_by a x (order_by xs) h) [
    | inl e ↦ inl e
    | inr m ↦ inr (In-order_by a xs m)
  ]

  In-insert_by_intro : (a x : A) (ys : List A) → (a ≡ x) ⊎ In a ys → In a (insert_by x ys)
  unfolding insert_by
  In-insert_by_intro a x [] h = h
  In-insert_by_intro a x (y ∷ ys) h = elim (Bool-cases (before y x)) [
    | inl first_y ↦ rw first_y (elim h [
      | inl e ↦ inr (In-insert_by_intro a x ys (inl e))
      | inr (inl e) ↦ inl e
      | inr (inr m) ↦ inr (In-insert_by_intro a x ys (inr m))
    ])
    | inr first_x ↦ rw first_x h
  ]

  -- Ordering the rows loses none.
  pub In-order_by_intro : (a : A) (xs : List A) → In a xs → In a (order_by xs)
  unfolding order_by
  In-order_by_intro a [] h = h
  In-order_by_intro a (x ∷ xs) (inl e) = In-insert_by_intro a x (order_by xs) (inl e)
  In-order_by_intro a (x ∷ xs) (inr m) =
      In-insert_by_intro a x (order_by xs) (inr (In-order_by_intro a xs m))

-- LIMIT 1
abbrev pub head_row {ℓ} : {A : Type ℓ} → List A → Option A
head_row [] = none
head_row (x ∷ xs) = some x

-- The order that a comparison gives on one key of the rows.
module _ {ℓ} {A : Type ℓ} (before : A → A → Bool) (near : A → A → Type 0)
    (near-trans : (x y z : A) → near x y → near y z → near x z)
    (near-before : (x y : A) → before x y ≡ true → near x y)
    (near-after : (x y : A) → before x y ≡ false → near y x) where
  All-near : (x y : A) (ys : List A) → near x y → All (near y) ys → All (near x) ys
  All-near x y [] p all_near = tt
  All-near x y (z ∷ ys) p (q, all_near) = (near-trans x y z p q, All-near x y ys p all_near)

  All-insert_by :
      (x y : A) (ys : List A) → near x y → All (near x) ys → All (near x) (insert_by before y ys)
  unfolding insert_by
  All-insert_by x y [] p all_near = (p, tt)
  All-insert_by x y (z ∷ ys) p (q, all_near) = elim (Bool-cases (before z y)) [
    | inl first_z ↦ rw first_z (q, All-insert_by x y ys p all_near)
    | inr first_y ↦ rw first_y (p, (q, all_near))
  ]

  abbrev HeadNear : List A → Type 0
  HeadNear [] = Unit
  HeadNear (x ∷ xs) = All (near x) xs

  HeadNear-insert_by : (x : A) (ys : List A) → HeadNear ys → HeadNear (insert_by before x ys)
  unfolding insert_by
  HeadNear-insert_by x [] h = tt
  HeadNear-insert_by x (y ∷ ys) h = elim (Bool-cases (before y x)) [
    | inl first_y ↦ rw first_y (All-insert_by y x ys (near-before y x first_y) h)
    | inr first_x ↦ let p = near-after y x first_x in rw first_x (p, All-near x y ys p h)
  ]

  HeadNear-order_by : (xs : List A) → HeadNear (order_by before xs)
  unfolding order_by
  HeadNear-order_by [] = tt
  HeadNear-order_by (x ∷ xs) = HeadNear-insert_by x (order_by before xs) (HeadNear-order_by xs)

  All-In : (P : A → Type 0) (a : A) (xs : List A) → All P xs → In a xs → P a
  All-In P a [] h m = elim m [ ]
  All-In P a (x ∷ xs) (p, h) (inl e) = subst P (sym e) p
  All-In P a (x ∷ xs) (p, h) (inr m) = All-In P a xs h m

  -- The first of the ordered rows is as near as every other one.
  pub head_row-order_by :
      (x y : A) (xs : List A)
      → head_row (order_by before xs) ≡ some x
      → In y xs
      → (y ≡ x) ⊎ near x y
  head_row-order_by x y xs h m =
      go (order_by before xs) (HeadNear-order_by xs) h (In-order_by_intro before y xs m)
    where
      go : (zs : List A) → HeadNear zs → head_row zs ≡ some x → In y zs → (y ≡ x) ⊎ near x y
      go [] near_all e k = elim k [ ]
      go (z ∷ zs) near_all e (inl same) = let first : z ≡ x = cc in inl (same ∙ first)
      go (z ∷ zs) near_all e (inr k) =
          let first : z ≡ x = cc in
          inr (subst (λ w. near w y) first (All-In (near z) y zs near_all k))

pub head_row-none {ℓ} : {A : Type ℓ} (x : A) (xs : List A) → head_row xs ≡ none → ¬ In x xs
head_row-none x [] h m = elim m [ ]
head_row-none x (y ∷ ys) h m = cc

pub In-head_row {ℓ} : {A : Type ℓ} (x : A) (xs : List A) → head_row xs ≡ some x → In x xs
In-head_row x [] h = cc
In-head_row x (y ∷ ys) h = let e : y ≡ x = cc in inl (sym e)
