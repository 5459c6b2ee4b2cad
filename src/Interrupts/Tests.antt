-- ===== src/Interrupts/Tests.antt =====
-- The timer switches from task 40 to task 50 and back.
use best_os.Common.{◌≡◌, refl, some}
use best_os.Vfs.{put}
use best_os.Sched.{Sched}
use best_os.Kernel.{Kernel}
use best_os.Kernel.Sample.{frame, task, kernel}
use best_os.Interrupts.Switch.{switched}

-- The scheduler after the first switch, and before and after the second.
abbrev first : Sched
first = record kernel.sched { current_tick = 0; current_task = 50; index = 2 }

abbrev second : Sched
second = record kernel.sched { current_tick = 0; current_task = 40; index = 1 }

abbrev later : Kernel
later = record (switched kernel (frame 7) 40 (task 1 0x4000) 50 (task 2 0x5000) first) {
  sched = record first { current_tick = 9 };
}

new_there :
    put kernel.tasks 40 (record (task 1 0x4000) { stack = frame 7 }) 50 ≡ some (task 2 0x5000)
unfolding put
new_there = refl
