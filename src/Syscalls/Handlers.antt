-- ===== src/Syscalls/Handlers.antt =====
-- kernel/syscalls.c: the system calls on the state of the kernel. A handler gets the registers of the
-- task and returns them with what it changed; its own result, which nothing reads, is left out.
use best_os.Common.{
  ℕ, ◌+◌, ◌-◌, ◌*◌, ◌/◌, ◌^◌, none, [], ◌∷◌, ◌++◌, ◌==◌, if◌then◌else◌, u32, add64, sub64,
  int_to_u64,
}
use best_os.Str.{Text}
use best_os.Lock.{spin_lock, spin_release}
use best_os.Print.{log}
use best_os.Pmm.{page_size, pmm_free}
use best_os.Vmm.{mmap_kernel_base, vmm_mmap}
use best_os.Vfs.{Cmd, load, modify}
use best_os.Sched.{switch_tick, sched_remove, sched_get_last_pid, sched_set_index, sched_set_tick}
use best_os.Sched.Task.{Stack, Task}
use best_os.Process.{sched_new_elf_process}
use best_os.Process.StackImage.{stack_size}
use best_os.Kernel.{
  halted, Act, pure, ◌>>=◌, ◌>>◌, get, change, defined, awaited, on_vfs, on_sched, Libs, load_task,
  store_task, modify_task, current_task, read_node, write_node, free_bytes, text_at,
}
use best_os.Syscalls.{get_fd, sys_openat, sys_close, sys_seek}

-- The lines of `log` begin with the file and the function.
abbrev file_name : Text
file_name = b's' ∷ b'y' ∷ b's' ∷ b'c' ∷ b'a' ∷ b'l' ∷ b'l' ∷ b's' ∷ b'.' ∷ b'c' ∷ []

abbrev sys_log_name : Text
sys_log_name = b's' ∷ b'y' ∷ b's' ∷ b'_' ∷ b'l' ∷ b'o' ∷ b'g' ∷ []

module _ (lib : Libs) where
  -- The text of the task is the format: a conversion in it reads an argument that is not there.
  unfoldable pub sys_log : Stack → Act Stack
  sys_log frame = do
    k ← get
    held ← awaited (spin_lock k.syscall_lock)
    fmt ← defined (text_at lib.longest frame.rdi k.vmm.memory)
    out ← defined (log 20 file_name sys_log_name fmt [])
    change (λ k. record k { line = record k.line { sent = k.line.sent ++ out.0 } })
    change (λ k. record k { syscall_lock = spin_release held })
    pure frame

  unfoldable pub sys_mmap : Stack → Act Stack
  sys_mmap frame = do
    p ← current_task
    t ← load_task p
    k ← get
    r ← awaited (vmm_mmap t.pagemap frame.rdi frame.rsi frame.r10 t.used_pages k.vmm)
    change (λ k. record k { vmm = r.1 })
    modify_task p (λ t. record t { used_pages = r.0.0 })
    pure (record frame { rax = r.0.1 })

  -- `wrmsr` takes the value in two halves.
  unfoldable pub asm_write_msr : ℕ → ℕ → Act (Unit {0})
  asm_write_msr register v =
      let edx = v / 2 ^ 32 in
      let eax = u32 v in
      change (λ k. record k { msr = λ r. if r == register then edx * 2 ^ 32 + eax else k.msr r })

  unfoldable pub sys_set_fs : Stack → Act Stack
  sys_set_fs frame = asm_write_msr 0xc0000100 frame.rdi >> pure frame

  -- A call that works on the current task and the file system, and leaves its result in `rax`.
  unfoldable pub on_current : (Task → Cmd (ℕ × Task)) → Stack → Act Stack
  on_current call frame = do
    p ← current_task
    t ← load_task p
    r ← on_vfs (call t)
    store_task p r.1
    pure (record frame { rax = r.0 })

  unfoldable pub handle_openat : Stack → Act Stack
  handle_openat frame = do
    k ← get
    path ← defined (text_at lib.longest frame.rsi k.vmm.memory)
    on_current (sys_openat lib.descriptors lib.env frame.rdi path (u32 frame.r10)) frame

  -- The cursor moves by the count, whatever the handler of the file did to it.
  unfoldable pub sys_read : Stack → Act Stack
  sys_read frame = do
    p ← current_task
    t ← load_task p
    d ← on_vfs (get_fd frame.rdi t)
    n ← on_vfs (load d.file)
    ret ← read_node lib.heap d.file n.cursor frame.rdx frame.rsi
    on_vfs (modify d.file (λ n. record n { cursor = add64 n.cursor frame.rdx }))
    pure (record frame { rax = int_to_u64 ret })

  unfoldable pub sys_write : Stack → Act Stack
  sys_write frame = do
    p ← current_task
    t ← load_task p
    d ← on_vfs (get_fd frame.rdi t)
    ret ← write_node lib.realloc d.file frame.rdx frame.rsi
    pure (record frame { rax = int_to_u64 ret })

  -- The memory of the file is freed, and the node still points to it.
  unfoldable pub handle_close : Stack → Act Stack
  handle_close frame = do
    p ← current_task
    t ← load_task p
    let closed : Task = record t {
      descriptors = lib.descriptors.splice t.descriptors (u32 frame.rdi) 1;
    }
    d ← on_vfs (get_fd frame.rdi closed)
    n ← on_vfs (load d.file)
    frame' ← on_current (sys_close lib.descriptors frame.rdi) frame
    free_bytes lib n.address
    pure frame'

  unfoldable pub handle_seek : Stack → Act Stack
  handle_seek frame = do
    p ← current_task
    t ← load_task p
    base ← on_vfs (sys_seek frame.rdi frame.rsi frame.rdx t)
    pure (record frame { rax = base })

  -- The pages of the stack and the page map are given back, and the task stays in the endless loop at
  -- the end.
  unfoldable pub sys_exit : Stack → Act Stack
  sys_exit frame = do
    p ← current_task
    on_sched (sched_remove lib.pointers p)
    modify_task p (λ t. record t { state = 2 ^ 32 - 1 })
    modify_task p (λ t. record t { exit_code = u32 frame.rdi })
    t ← load_task p
    change (λ k. record k {
      vmm = record k.vmm { pmm = pmm_free t.sp (stack_size / page_size) k.vmm.pmm };
    })
    change (λ k. record k {
      vmm = record k.vmm { pmm = pmm_free (sub64 t.pagemap mmap_kernel_base) 1 k.vmm.pmm };
    })
    change (λ k. record k { vmm = lib.deinit p k.vmm })
    modify_task p (λ t. record t { descriptors = [] })
    halted

  unfoldable pub sys_execve : Stack → Act Stack
  sys_execve frame = do
    k ← get
    path ← defined (text_at lib.longest frame.rdi k.vmm.memory)
    sched_new_elf_process lib path frame.rsi frame.rdx none
    change (λ k. record k {
      sched = sched_set_index (u32 (sched_get_last_pid k.sched + 2 ^ 32 - 2)) k.sched;
    })
    change (λ k. record k { sched = sched_set_tick (switch_tick - 1) k.sched })
    pure (record frame { rax = 0 })
