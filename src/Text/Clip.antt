-- ===== src/Text/Clip.antt =====
-- `clipped` keeps within its limit: the notes stored on a task have a bounded size.
use Prim.Native.Char.{len_utf8}
use Prim.Native.String.{len}
use Prim.Native.String.len
use text.Mathlib.TextPositions.{len-append}
use taskboard.Common.{
  Bool-cases, String, arith, inl, inr, leb, leb→le, nat_eq, string_eq, ℕ, ◌&&◌, ◌-◌, ◌==◌, ◌≤◌,
}
use taskboard.Text.{clipped, is_space, take_bytes, trim_left, trim_right, trim_space}

len-take_bytes : (budget : ℕ) (s : String) → len (take_bytes budget s) ≤ budget
unfolding take_bytes
len-take_bytes budget String.[] = omega (arith, len.nil)
len-take_bytes budget (String.◌∷◌ c s) = elim (Bool-cases (leb (len_utf8 c) budget)) [
  | inl fits ↦
      rw (fits, len.cons) (omega (arith, leb→le _ _ fits, len-take_bytes (budget - len_utf8 c) s))
  | inr over ↦ rw (over, len.nil) (omega arith)
]

len-trim_left : (s : String) → len (trim_left s) ≤ len s
unfolding trim_left
len-trim_left String.[] = omega arith
len-trim_left (String.◌∷◌ c s) = elim (Bool-cases (is_space c)) [
  | inl space ↦ rw space (omega (arith, len.cons c s, len-trim_left s))
  | inr kept ↦ rw kept (omega arith)
]

len-trim_right : (s : String) → len (trim_right s) ≤ len s
unfolding trim_right
len-trim_right String.[] = omega arith
len-trim_right (String.◌∷◌ c s) = elim (Bool-cases (is_space c && trim_right s == "")) [
  | inl drop ↦ rw (drop, len.nil) (omega arith)
  | inr keep ↦ rw (keep, len.cons, len.cons) (omega (arith, len-trim_right s))
]

len-trim_space : (s : String) → len (trim_space s) ≤ len s
unfolding trim_space
len-trim_space s = omega (arith, len-trim_right (trim_left s), len-trim_left s)

-- A clipped text has at most `limit` bytes, for every limit of at least three bytes.
pub len-clipped : (value : String) (limit : ℕ) → 3 ≤ limit → len (clipped value limit) ≤ limit
unfolding clipped
len-clipped value limit room = elim (Bool-cases (leb (len (trim_space value)) limit)) [
  | inl short ↦ rw short (leb→le _ _ short)
  | inr long ↦
      let cut = take_bytes (limit - 3) (trim_space value) in
      rw (long, len-append)
        (omega (arith, len-trim_space cut, len-take_bytes (limit - 3) (trim_space value)))
]
