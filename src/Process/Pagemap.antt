-- ===== src/Process/Pagemap.antt =====
-- What `task_init` of kernel/sched.c puts into the page map of a new task.
use best_os.Common.{ℕ, zero, suc, ◌+◌, ◌-◌, ◌*◌, Option, some, u64, add64}
use best_os.Common.Chain.{◌>>=◌}
use best_os.Mem.{Memory}
use best_os.Mem.Words.{read64, write64}
use best_os.Pmm.{page_size}
use best_os.Vmm.{Vmm, vmm_map}
use best_os.Process.StackImage.{stack_size, user_stack_top}

-- The upper half of the page map of the kernel: the rounds left, and `i`.
unfoldable pub copy_upper : ℕ → ℕ → ℕ → ℕ → Memory → Memory
copy_upper zero i pagemap prev m = m
copy_upper (suc n) i pagemap prev m =
    copy_upper n (i + 1) pagemap prev
      (write64 (add64 pagemap (i * 8)) (read64 (add64 prev (i * 8)) m) m)

-- The pages of the stack: the rounds left, and `i`.
unfoldable pub map_stack : ℕ → ℕ → ℕ → ℕ → Vmm → Option Vmm
map_stack zero i pagemap stack v = some v
map_stack (suc n) i pagemap stack v = do
  w ←
      vmm_map pagemap (add64 (u64 (i * page_size)) stack)
        (add64 (u64 (i * page_size)) (user_stack_top - stack_size)) 0b111 v
  map_stack n (i + 1) pagemap stack w
