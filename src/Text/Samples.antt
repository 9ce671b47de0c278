-- ===== src/Text/Samples.antt =====
-- The text helpers on small inputs.
use Prim.Native.String.{len}
use taskboard.Common.{[], arith, refl, ◌∷◌, ◌≡◌, ◌≤◌}
use taskboard.Text.{clipped, to_lower, trim_space, unique}
use taskboard.Text.Clip.{len-clipped}
use taskboard.Text.Unique.{IsTrimmed, unique-IsTrimmed}

tests_text :
    (trim_space " \ta b " ≡ "a b")
    × (clipped "abcdéf" 8 ≡ "abcdéf")
    × (clipped "abcdé fgh" 8 ≡ "abcd…")
    × (unique (" b" ∷ "a" ∷ "b" ∷ "" ∷ []) ≡ "b" ∷ "a" ∷ [])
    × (to_lower "Team" ≡ "team")
unfolding trim_space clipped unique to_lower
tests_text = (refl, refl, refl, refl, refl)

len-clipped_example : len (clipped "abcdé fgh" 8) ≤ 8
len-clipped_example = len-clipped "abcdé fgh" 8 (omega arith)

unique-IsTrimmed_example : IsTrimmed (" b" ∷ " " ∷ "b" ∷ []) (unique (" b" ∷ " " ∷ "b" ∷ []))
unique-IsTrimmed_example = unique-IsTrimmed (" b" ∷ " " ∷ "b" ∷ [])
