-- ===== src/Interrupts/Switch.antt =====
-- A switch of tasks at an interrupt of the timer, and the way back.
use best_os.Common.{◌≡◌, u32, sub64}
use best_os.Vmm.{mmap_kernel_base}
use best_os.Vfs.{Ptr, put}
use best_os.Sched.{Sched}
use best_os.Sched.Task.{Stack, Task}
use best_os.Devices.{pic_eoi}
use best_os.Kernel.{Kernel, done, Libs}

-- The state after a switch from `prev`, whose task was `tp`, to `new`, whose task is `tn`.
abbrev pub switched : Kernel → Stack → Ptr → Task → Ptr → Task → Sched → Kernel
switched k frame prev tp new tn s = record k {
  sched = s;
  tasks = put k.tasks prev (record tp { stack = frame });
  prev_task = new;
  vmm = record k.vmm { cr3 = sub64 tn.pagemap mmap_kernel_base };
  bus = pic_eoi (u32 tn.stack.intno) k.bus;
}

-- The state after the registers of the task `tp` are saved.
abbrev pub saved : Kernel → Stack → Task → Kernel
saved k frame tp = record k { tasks = put k.tasks k.prev_task (record tp { stack = frame }) }

-- The bytes that `fxsave` stores behind the task that ran are no part of the state.
abbrev pub Harmless : Libs → Kernel → Stack → Task → Type 0
Harmless lib k frame tp = lib.fxsave k.prev_task (saved k frame tp) ≡ done tt (saved k frame tp)
