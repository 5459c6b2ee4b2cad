-- ===== src/Interrupts.antt =====
-- kernel/arch/interrupts.c: the handler of all interrupts, on the registers that the entry code saved.
-- The floating-point registers are left out: `fxrstor` changes nothing else.
pub mod Switch
mod Tests
use best_os.Common.{
  ℕ, ◌+◌, ◌*◌, ◌^◌, Bool, true, false, Option, none, some, ltb, ◌==◌, if◌then◌else◌, u32, sub64,
}
use best_os.Vmm.{mmap_kernel_base}
use best_os.Vfs.{Ptr, null}
use best_os.Sched.{Sched, Tick, idle, waits, beyond, ran, sched_started, sched_tick}
use best_os.Sched.Task.{Stack, Task}
use best_os.Devices.{pic_eoi}
use best_os.Kernel.{
  Kernel, Outcome, done, halted, fault, Act, pure, ◌>>=◌, ◌>>◌, get, change, Libs, load_task,
  modify_task,
}
use best_os.Syscalls.Dispatch.{syscall_dispatch}

-- The task that `sched_tick` returns.
unfoldable pub ticked : Tick → Act Ptr
ticked idle k = halted k
ticked waits k = halted k
ticked beyond k = fault
ticked (ran t s) k = done t (record k { sched = s })

-- The registers of the task that ran, if there is one: `prev_task->stack = *stack`, and `fxsave`.
unfoldable pub save_previous : Libs → Stack → Act (Unit {0})
save_previous lib frame k =
    if k.prev_task == null
    then done tt k
    else (modify_task k.prev_task (λ t. record t { stack = frame }) >> lib.fxsave k.prev_task) k

-- The switch at an interrupt of the timer: the registers that the return loads.
unfoldable pub switch_context : Libs → Stack → Act Stack
switch_context lib frame = do
  save_previous lib frame
  k ← get
  new ← ticked (sched_tick k.sched)
  change (λ k. record k { prev_task = new })
  t ← load_task new
  change (λ k. record k { vmm = record k.vmm { cr3 = sub64 t.pagemap mmap_kernel_base } })
  pure t.stack

unfoldable pub timer_interrupt : Libs → Stack → Act Stack
timer_interrupt lib frame = do
  k ← get
  if frame.intno == 32
      then (if sched_started k.sched then switch_context lib frame else pure frame)
      else pure frame

-- The end of the handler, which reads the number again from the registers that are there now.
unfoldable pub call_or_eoi : Libs → Stack → Act Stack
call_or_eoi lib frame =
    if frame.intno == 0x42
    then syscall_dispatch lib frame.rax frame
    else change (λ k. record k { bus = pic_eoi (u32 frame.intno) k.bus }) >> pure frame

-- An exception stops the machine.
unfoldable pub interrupts_handler : Libs → Stack → Act Stack
interrupts_handler lib frame =
    if ltb frame.intno 32 then halted else (timer_interrupt lib frame >>= call_or_eoi lib)
