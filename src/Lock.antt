-- ===== src/Lock.antt =====
-- lib/lock.h, on one processor: the flag that the atomic operations set and clear.
use best_os.Common.{Bool, true, false, Option, none, some}

-- `none` where the flag is set, since nothing clears it while the only processor waits.
unfoldable pub spin_lock : Bool → Option Bool
spin_lock true = none
spin_lock false = some true

unfoldable pub spin_release : Bool → Bool
spin_release held = false
