-- ===== src/Stamp/Order.antt =====
-- How the order of the stored stamps relates to the order of the times.
use native.Mathlib.Nat.{pow-suc}
use taskboard.Common.{
  List, [], arith, false, refl, suc, true, zero, ℕ, ◌%◌, ◌*◌, ◌++◌, ◌+◌, ◌/◌, ◌<◌, ◌^◌, ◌∷◌, ◌≡◌,
  ◌≤◌,
}
use taskboard.Stamp.{
  Time, digits, fraction_text, second, stamp_before, text_before, trim_zeros, with_point,
}

-- A time at least a second before another has the earlier stamp.
pub stamp_before_of_second : (a b : Time) → a + second ≤ b → stamp_before a b ≡ true
unfolding stamp_before
stamp_before_of_second a b h = ground arith

-- A time whose stamp is the earlier one is less than one second ahead of the other time.
pub stamp_before-bound : (a b : Time) → stamp_before a b ≡ true → a < b + second
unfolding stamp_before
stamp_before-bound a b h = ground arith

trim_zeros-snoc :
    (xs : List ℕ) (x : ℕ) → trim_zeros (xs ++ x ∷ []) ≡ [] → (x ≡ b'0') × (trim_zeros xs ≡ [])
unfolding trim_zeros
trim_zeros-snoc [] x h = ground arith
trim_zeros-snoc (y ∷ ys) x h = ground (arith, trim_zeros-snoc ys x)

-- Only the digits of zero are all zeros.
trim_zeros-digits : (k n : ℕ) → n < 10 ^ k → trim_zeros (digits k n) ≡ [] → n ≡ 0
unfolding digits
trim_zeros-digits zero n lt h = omega arith
trim_zeros-digits (suc k) n lt h =
    let lower : n / 10 < 10 ^ k = omega (arith, pow-suc 10 k) in
    let last = trim_zeros-snoc (digits k (n / 10)) (b'0' + n % 10) h in
    omega (arith, trim_zeros-digits k (n / 10) lower last.1)

nonzero-fraction : (n : ℕ) → 0 < n → n < second → (r : List ℕ) × (fraction_text n ≡ b'.' ∷ r)
unfolding fraction_text
nonzero-fraction n pos lt = go (trim_zeros (digits 9 n)) refl
  where
    go : (t : List ℕ) → trim_zeros (digits 9 n) ≡ t → (r : List ℕ) × (with_point t ≡ b'.' ∷ r)
    go [] e = absurd (omega (arith, trim_zeros-digits 9 n lt e))
    go (x ∷ xs) e = ((x ∷ xs) ++ b'Z' ∷ [], refl)

-- Inside one second the stored order is not the order of the times: every time strictly inside a
-- second is stored before the start of that second, and the start is not stored before it.
pub stamp_before-whole_second :
    (s n : ℕ)
    → 0 < n
    → n < second
    → (stamp_before (s * second + n) (s * second) ≡ true)
      × (stamp_before (s * second) (s * second + n) ≡ false)
unfolding stamp_before text_before fraction_text
stamp_before-whole_second s n pos lt =
    let (r, dot) = nonzero-fraction n pos lt in
    let whole : s * second / second ≡ s = omega arith in
    let part : (s * second + n) / second ≡ s = omega arith in
    let zero_rest : s * second % second ≡ 0 = omega arith in
    let rest : (s * second + n) % second ≡ n = omega arith in
    rw (whole, part, zero_rest, rest, dot) (ground arith)
