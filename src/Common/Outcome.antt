-- ===== src/Common/Outcome.antt =====
-- The outcome of a call: a value, or the error by which the call was refused. The errors are the
-- sentinels of service.go and store.go; the wording of a message is not kept, the version and the
-- hint of a version conflict are.
use Prim.Native.Nat.{ℕ}
use mathlib.Core.Path.{◌≡◌, refl}
use mathlib.Core.Logic.{◌⊎◌, inl, inr}
use mathlib.Core.Bool.{Bool, true, false}

pub data Hint : Type 0 where
  retry claim_stale run_ended : Hint

pub data Error : Type 0 where
  conflict forbidden validation rate_limit not_found : Error
  version_conflict : (current expected : ℕ) → Hint → Error
  similar_tasks : Error
  failed : Error

pub data Result {ℓ} (A : Type ℓ) : Type ℓ where
  err : Error → Result A
  ok : (value : A) → Result A

-- `if bad { return err }`
abbrev pub refuse_if : Bool → Error → Result (Unit {0})
refuse_if true e = err e
refuse_if false e = ok tt

abbrev pub is_ok {ℓ} : {A : Type ℓ} → Result A → Bool
is_ok (ok a) = true
is_ok (err e) = false

-- `value, err := …; if err != nil { return …, err }`
infixl 5 ◌>>=◌
abbrev pub ◌>>=◌ {ℓ ℓ'} :
    {A : Type ℓ} {B : Type ℓ'} (call : Result A) (next : A → Result B) → Result B
err refused >>= next = err refused
ok value >>= next = next value

infixl 5 ◌>>◌
abbrev pub ◌>>◌ {ℓ} : {A : Type ℓ} (check : Result (Unit {0})) (next : Result A) → Result A
check >> next = check >>= λ passed. next

module _ {ℓ ℓ'} {A : Type ℓ} {B : Type ℓ'} where
  -- A successful chain: each part has succeeded.
  pub >>=-eq-ok :
      (call : Result A) (next : A → Result B) {result : B}
      → (call >>= next) ≡ ok result
      → (value : A) × (call ≡ ok value) × (next value ≡ ok result)
  >>=-eq-ok (err refused) next success = cc
  >>=-eq-ok (ok value) next success = (value, refl, success)

-- A successful chain after a check: the check found nothing.
pub refuse_if-eq-ok {ℓ} :
    {A : Type ℓ} (bad : Bool) (refused : Error) (next : Result A) {result : A}
    → (refuse_if bad refused >> next) ≡ ok result
    → (bad ≡ false) × (next ≡ ok result)
refuse_if-eq-ok false refused next success = (refl, success)
refuse_if-eq-ok true refused next success = cc

pub refuse_if-false :
    (bad : Bool) (refused : Error) (u : Unit {0}) → refuse_if bad refused ≡ ok u → bad ≡ false
refuse_if-false false refused u success = refl
refuse_if-false true refused u success = cc

pub ok_injective {ℓ} : {A : Type ℓ} {value result : A} → ok value ≡ ok result → value ≡ result
ok_injective same = cc

pub Result-cases {ℓ} :
    {A : Type ℓ} (r : Result A) → ((refused : Error) × (r ≡ err refused)) ⊎ ((a : A) × (r ≡ ok a))
Result-cases (err refused) = inl (refused, refl)
Result-cases (ok value) = inr (value, refl)
