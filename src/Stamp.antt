-- ===== src/Stamp.antt =====
-- Times and their stored form: `stamp` of internal/service/service.go and `formatTime` of
-- internal/store/store.go. A time is the number of nanoseconds since the epoch. The database keeps
-- it as text in the layout time.RFC3339Nano, and compares the texts byte by byte.
pub mod Order
mod Samples
use taskboard.Common.{
  Bool, List, [], false, if◌then◌else◌, is_nil, ltb, nat_eq, string_eq, suc, true, zero, ℕ, ◌%◌,
  ◌&&◌, ◌++◌, ◌+◌, ◌/◌, ◌==◌, ◌||◌, ◌∷◌,
}

abbrev pub Time : Type 0
Time = ℕ

-- Nanoseconds in a second.
abbrev pub second : ℕ
second = 1_000_000_000

abbrev pub minute : ℕ
minute = 60_000_000_000

-- The last `k` decimal digits of `n`, as ASCII.
digits : ℕ → ℕ → List ℕ
digits zero n = []
digits (suc k) n = digits k (n / 10) ++ (b'0' + n % 10) ∷ []

trim_zeros : List ℕ → List ℕ
trim_zeros [] = []
trim_zeros (x ∷ xs) = let rest = trim_zeros xs in if is_nil rest && x == b'0' then [] else x ∷ rest

-- RFC3339Nano prints the fraction without its trailing zeros, and no point when it is zero.
abbrev with_point : List ℕ → List ℕ
with_point [] = b'Z' ∷ []
with_point (x ∷ xs) = b'.' ∷ ((x ∷ xs) ++ b'Z' ∷ [])

-- What follows the whole seconds in a stamp.
fraction_text : ℕ → List ℕ
unfolding trim_zeros digits
fraction_text nanos = with_point (trim_zeros (digits 9 nanos))

text_before : List ℕ → List ℕ → Bool
text_before [] [] = false
text_before [] (y ∷ ys) = true
text_before (x ∷ xs) [] = false
text_before (x ∷ xs) (y ∷ ys) = ltb x y || x == y && text_before xs ys

-- `stamp(a) < stamp(b)` in a query. Up to the seconds every stamp has the same width, so the texts
-- are ordered as the seconds are; the year has four digits.
unfoldable pub stamp_before : Time → Time → Bool
unfolding fraction_text text_before
stamp_before a b =
    ltb (a / second) (b / second)
    || a / second == b / second
      && text_before (fraction_text (a % second)) (fraction_text (b % second))
