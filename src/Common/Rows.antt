-- ===== src/Common/Rows.antt =====
-- A table as the list of its rows, and the statements that the program runs on one: select,
-- count, update and delete by a condition on a row.
use Prim.Native.Nat.{ℕ, suc, ◌+◌, ◌≤◌}
use mathlib.Core.Path.{◌≡◌, refl, ap, sym, ◌∙◌, subst}
use mathlib.Core.Logic.{◌⊎◌, inl, inr}
use mathlib.Core.Bool.{Bool, true, false, ◌&&◌, ◌||◌}
use mathlib.Core.Option.{Option, none, some}
use mathlib.Core.List.{List, [], ◌∷◌, ◌++◌, map}
use native.Mathlib.Omega.{arith}
use taskboard.Common.Tests.{if◌then◌else◌, Bool-cases}

module _ {ℓ} {A : Type ℓ} where
  abbrev pub is_nil : List A → Bool
  is_nil [] = true
  is_nil (x ∷ xs) = false

  abbrev pub length : List A → ℕ
  length [] = 0
  length (x ∷ xs) = suc (length xs)

  -- SELECT … WHERE p
  abbrev pub select : (A → Bool) → List A → List A
  select p [] = []
  select p (x ∷ xs) = if p x then x ∷ select p xs else select p xs

  -- The first row of SELECT … WHERE p.
  abbrev pub find : (A → Bool) → List A → Option A
  find p [] = none
  find p (x ∷ xs) = if p x then some x else find p xs

  -- SELECT COUNT(*) … WHERE p
  abbrev pub count : (A → Bool) → List A → ℕ
  count p [] = 0
  count p (x ∷ xs) = if p x then suc (count p xs) else count p xs

  -- EXISTS (SELECT … WHERE p)
  abbrev pub any : (A → Bool) → List A → Bool
  any p [] = false
  any p (x ∷ xs) = p x || any p xs

  abbrev pub all : (A → Bool) → List A → Bool
  all p [] = true
  all p (x ∷ xs) = p x && all p xs

  -- UPDATE … SET f WHERE p
  abbrev pub update : (A → Bool) → (A → A) → List A → List A
  update p f [] = []
  update p f (x ∷ xs) = (if p x then f x else x) ∷ update p f xs

  -- The rows at which a predicate by recursion holds.
  abbrev pub All {κ} : (A → Type κ) → List A → Type κ
  All P [] = Unit
  All P (x ∷ xs) = P x × All P xs

pub data Empty {ℓ} : Type ℓ where

module _ {ℓ} {A : Type ℓ} where
  -- The row stands in the table.
  abbrev pub In : A → List A → Type ℓ
  In a [] = Empty
  In a (x ∷ xs) = (a ≡ x) ⊎ In a xs

module _ {ℓ} {A : Type ℓ} where
  pub In-select : (p : A → Bool) (a : A) (xs : List A) → In a (select p xs) → In a xs × (p a ≡ true)
  In-select p a [] h = elim h [ ]
  In-select p a (x ∷ xs) h = go (In-select p a xs) (p x) refl h
    where
      go :
          (In a (select p xs) → In a xs × (p a ≡ true))
          → (b : Bool) → p x ≡ b
          → In a (if b then x ∷ select p xs else select p xs)
          → In a (x ∷ xs) × (p a ≡ true)
      go ih true e (inl same) = (inl same, ap p same ∙ e)
      go ih true e (inr k) = let (m, t) = ih k in (inr m, t)
      go ih false e k = let (m, t) = ih k in (inr m, t)

  pub count-and_le : (p r : A → Bool) (xs : List A) → count (λ x. p x && r x) xs ≤ count p xs
  count-and_le p r [] = omega arith
  count-and_le p r (x ∷ xs) = ground (arith, count-and_le p r xs)

  -- A row that `p` selects and `r` does not is missing from the count of both.
  pub count-lt_of_In :
      (p r : A → Bool) (a : A) (xs : List A)
      → In a xs
      → p a ≡ true
      → r a ≡ false
      → suc (count (λ x. p x && r x) xs) ≤ count p xs
  count-lt_of_In p r a [] h pa ra = elim h [ ]
  count-lt_of_In p r a (x ∷ xs) (inl e) pa ra =
      let px : p x ≡ true = ap p (sym e) ∙ pa in
      let rx : r x ≡ false = ap r (sym e) ∙ ra in ground (arith, count-and_le p r xs)
  count-lt_of_In p r a (x ∷ xs) (inr m) pa ra = ground (arith, count-lt_of_In p r a xs m)

module _ {ℓ} {A : Type ℓ} where
  pub any-false-count : (p : A → Bool) (xs : List A) → any p xs ≡ false → count p xs ≡ 0
  any-false-count p [] h = refl
  any-false-count p (x ∷ xs) h = ground (arith, any-false-count p xs)

  -- What an update adds to a count are rows that it applies to.
  pub count-update_bound :
      (p q : A → Bool) (f : A → A) (xs : List A)
      → count q (update p f xs) ≤ count q xs + count (λ x. p x && q (f x)) xs
  count-update_bound p q f [] = omega arith
  count-update_bound p q f (x ∷ xs) = ground (arith, count-update_bound p q f xs)

  pub count-append : (p : A → Bool) (xs ys : List A) → count p (xs ++ ys) ≡ count p xs + count p ys
  count-append p [] ys = omega arith
  count-append p (x ∷ xs) ys = ground (arith, count-append p xs ys)

  pub length-update : (p : A → Bool) (f : A → A) (xs : List A) → length (update p f xs) ≡ length xs
  length-update p f [] = refl
  length-update p f (x ∷ xs) = ap suc (length-update p f xs)

  -- An update that leaves `q` as it is at each row leaves the count of `q` as it is.
  pub count-update_same :
      (p q : A → Bool) (f : A → A) (xs : List A)
      → ((x : A) → p x ≡ true → q (f x) ≡ q x)
      → count q (update p f xs) ≡ count q xs
  count-update_same p q f [] h = refl
  count-update_same p q f (x ∷ xs) h = ground (arith, h x, count-update_same p q f xs h)

  -- An update that makes `q` false wherever it applies can only lower the count.
  pub count-update_drop :
      (p q : A → Bool) (f : A → A) (xs : List A)
      → ((x : A) → p x ≡ true → q (f x) ≡ false)
      → count q (update p f xs) ≤ count q xs
  count-update_drop p q f [] h = omega arith
  count-update_drop p q f (x ∷ xs) h = ground (arith, h x, count-update_drop p q f xs h)

  -- Where `q` is counted only on rows that the update clears, none is left.
  pub count-update_zero :
      (p q : A → Bool) (f : A → A) (xs : List A)
      → ((x : A) → q x ≡ true → p x ≡ true)
      → ((x : A) → p x ≡ true → q (f x) ≡ false)
      → count q (update p f xs) ≡ 0
  count-update_zero p q f [] h k = refl
  count-update_zero p q f (x ∷ xs) h k = ground (arith, h x, k x, count-update_zero p q f xs h k)

  -- Making `q` true on the rows of `p` adds at most as many as there are.
  pub count-update_le :
      (p q : A → Bool) (f : A → A) (xs : List A) → count q (update p f xs) ≤ count q xs + count p xs
  count-update_le p q f [] = omega arith
  count-update_le p q f (x ∷ xs) = ground (arith, count-update_le p q f xs)

  pub find-holds : (p : A → Bool) (xs : List A) (x : A) → find p xs ≡ some x → p x ≡ true
  find-holds p [] x h = cc
  find-holds p (y ∷ xs) x h = ground (arith, find-holds p xs x)

  pub count-zero-any : (p : A → Bool) (xs : List A) → count p xs ≡ 0 → any p xs ≡ false
  count-zero-any p [] h = refl
  count-zero-any p (x ∷ xs) h = ground (arith, count-zero-any p xs)

  pub length-append : (xs ys : List A) → length (xs ++ ys) ≡ length xs + length ys
  length-append [] ys = omega arith
  length-append (x ∷ xs) ys = omega (arith, length-append xs ys)

  pub count-none : (p : A → Bool) (xs : List A) → ((x : A) → p x ≡ false) → count p xs ≡ 0
  count-none p [] h = refl
  count-none p (x ∷ xs) h = ground (arith, h x, count-none p xs h)

  -- An update that keeps the condition of a search changes the row that is found.
  pub find-update :
      (p q : A → Bool) (f : A → A) (xs : List A) (x : A)
      → ((y : A) → p y ≡ true → q (f y) ≡ q y)
      → find q xs ≡ some x
      → find q (update p f xs) ≡ some (if p x then f x else x)
  find-update p q f [] x keep h = cc
  find-update p q f (y ∷ xs) x keep h = elim (Bool-cases (q y)) [
    | inl here ↦
        let e : y ≡ x = ground arith in
        let kept : q (if p y then f y else y) ≡ true = ground (arith, keep y) in
        rw kept (ap (λ z. some (if p z then f z else z)) e)
    | inr later ↦
        let kept : q (if p y then f y else y) ≡ false = ground (arith, keep y) in
        rw kept (find-update p q f xs x keep (ground arith))
  ]

  -- An update of rows that a search passes over does not change what it finds.
  pub find-update_other :
      (p q : A → Bool) (f : A → A) (xs : List A)
      → ((y : A) → p y ≡ true → (q y ≡ false) × (q (f y) ≡ q y))
      → find q (update p f xs) ≡ find q xs
  find-update_other p q f [] apart = refl
  find-update_other p q f (y ∷ xs) apart = elim (Bool-cases (p y)) [
    | inl hit ↦
        let off : q y ≡ false = (apart y hit).0 in
        let off' : q (f y) ≡ false = (apart y hit).1 ∙ off in
        rw (hit, off, off') (find-update_other p q f xs apart)
    | inr miss ↦ rw miss (ap (λ r. if q y then some y else r) (find-update_other p q f xs apart))
  ]

  pub find-append_none :
      (q : A → Bool) (xs ys : List A) → any q xs ≡ false → find q (xs ++ ys) ≡ find q ys
  find-append_none q [] ys h = refl
  find-append_none q (x ∷ xs) ys h = ground (arith, find-append_none q xs ys)

  pub find-append_absent :
      (q : A → Bool) (xs : List A) (x : A)
      → find q xs ≡ none
      → q x ≡ true
      → find q (xs ++ x ∷ []) ≡ some x
  find-append_absent q [] x h e = rw e
  find-append_absent q (y ∷ xs) x h e = elim (Bool-cases (q y)) [
    | inl here ↦ let go = rw here at h in cc
    | inr later ↦ let go = rw later at h in rw later (find-append_absent q xs x go e)
  ]

  pub find-append_some :
      (q : A → Bool) (xs ys : List A) (x : A) → find q xs ≡ some x → find q (xs ++ ys) ≡ some x
  find-append_some q [] ys x h = cc
  find-append_some q (y ∷ xs) ys x h = ground (arith, find-append_some q xs ys x)

  pub In-find : (q : A → Bool) (xs : List A) (x : A) → find q xs ≡ some x → In x xs
  In-find q [] x h = cc
  In-find q (y ∷ xs) x h = elim (Bool-cases (q y)) [
    | inl here ↦ inl (ground arith)
    | inr later ↦ inr (In-find q xs x (ground arith))
  ]

  pub In-append : (a : A) (xs ys : List A) → In a (xs ++ ys) → In a xs ⊎ In a ys
  In-append a [] ys h = inr h
  In-append a (x ∷ xs) ys (inl e) = inl (inl e)
  In-append a (x ∷ xs) ys (inr m) = elim (In-append a xs ys m) [
    | inl k ↦ inl (inr k)
    | inr k ↦ inr k
  ]

  pub any-In : (p : A → Bool) (xs : List A) → any p xs ≡ true → (a : A) × In a xs × (p a ≡ true)
  any-In p [] h = cc
  any-In p (x ∷ xs) h = elim (Bool-cases (p x)) [
    | inl here ↦ (x, inl refl, here)
    | inr later ↦
        let go : any p xs ≡ true = ground arith in let (a, m, e) = any-In p xs go in (a, inr m, e)
  ]

  pub In-any : (p : A → Bool) (a : A) (xs : List A) → In a xs → p a ≡ true → any p xs ≡ true
  In-any p a [] m h = elim m [ ]
  In-any p a (x ∷ xs) (inl e) h =
      let here : p x ≡ true = subst (λ y. p y ≡ true) e h in rw here refl
  In-any p a (x ∷ xs) (inr m) h = ground (arith, In-any p a xs m h)

  pub In-update :
      (p : A → Bool) (f : A → A) (a : A) (xs : List A)
      → In a xs
      → In (if p a then f a else a) (update p f xs)
  In-update p f a [] m = elim m [ ]
  In-update p f a (x ∷ xs) (inl e) = inl (ap (λ y. if p y then f y else y) e)
  In-update p f a (x ∷ xs) (inr m) = inr (In-update p f a xs m)

  pub any-false-In : (p : A → Bool) (a : A) (xs : List A) → any p xs ≡ false → In a xs → p a ≡ false
  any-false-In p a [] h m = elim m [ ]
  any-false-In p a (x ∷ xs) h (inl e) = rw e (ground arith)
  any-false-In p a (x ∷ xs) h (inr m) = any-false-In p a xs (ground arith) m

module _ {ℓ κ} {A : Type ℓ} {B : Type κ} where
  pub In-map : (f : A → B) (b : B) (xs : List A) → In b (map f xs) → (a : A) × In a xs × (b ≡ f a)
  In-map f b [] h = elim h [ ]
  In-map f b (x ∷ xs) (inl e) = (x, inl refl, e)
  In-map f b (x ∷ xs) (inr m) = let (a, k, e) = In-map f b xs m in (a, inr k, e)
