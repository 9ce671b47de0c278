-- ===== src/Stamp/Samples.antt =====
-- The theorems on stamps at single times.
use taskboard.Common.{arith, false, true, ◌*◌, ◌+◌, ◌≡◌}
use taskboard.Stamp.{second, stamp_before}
use taskboard.Stamp.Order.{stamp_before-whole_second}

stamp_before-whole_second_example :
    (stamp_before (7 * second + 5) (7 * second) ≡ true)
    × (stamp_before (7 * second) (7 * second + 5) ≡ false)
stamp_before-whole_second_example = stamp_before-whole_second 7 5 (omega arith) (omega arith)
