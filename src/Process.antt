-- ===== src/Process.antt =====
-- kernel/sched.c: `task_init` and `sched_new_elf_process`, on the state of the kernel. A `Task *` is an
-- address in the heap of tasks, the strings and arrays of the caller and the stack of the new task lie
-- in the memory of bytes.
pub mod StackImage
pub mod Pagemap
pub mod Launch
mod Tests
use best_os.Common.{
  ℕ, zero, suc, ◌+◌, ◌-◌, ◌*◌, ◌/◌, ◌%◌, ◌^◌, Bool, true, false, ◌&&◌, not, Option, none, some,
  List, [], ◌∷◌, ◌==◌, if◌then◌else◌, bit_and, u32, u64, add64, sub64,
}
use best_os.Mem.{Memory}
use best_os.Mem.Words.{read64, write64}
use best_os.Str.{Text}
use best_os.Pmm.{page_size, mmap_io_base, pmm_allocate_zero}
use best_os.Vmm.{Vmm, mmap_kernel_base, vmm_map}
use best_os.Vfs.{Ptr, null, put, load}
use best_os.Vfs.Open.{get_root, vfs_open}
use best_os.Sched.{Sched, sched_push}
use best_os.Sched.Task.{Stack, FileDescriptor, Task}
use best_os.Elf.{Loading, elf_load_program}
use best_os.Elf.Headers.{Auxval}
use best_os.Process.StackImage.{stack_size, user_stack_top, Image, build_stack}
use best_os.Process.Pagemap.{copy_upper, map_stack}
use best_os.Kernel.{
  Kernel, Act, pure, ◌>>=◌, ◌>>◌, get, change, defined, awaited, done, on_vfs, on_vmm, on_sched,
  on_memory, Libs, load_task, modify_task, read_node, malloc_bytes, free_bytes, text_at,
}

abbrev sizeof_task : ℕ
sizeof_task = 264

abbrev o_rdwr : ℕ
o_rdwr = 3

-- `malloc(sizeof(Task))`: the task begins with what the memory holds.
unfoldable pub malloc_task : Libs → Act Ptr
malloc_task lib = do
  p ← malloc_bytes lib sizeof_task
  change (λ k. record k { tasks = put k.tasks p (lib.task_bytes p k.vmm) })
  pure p

-- `pmm_allocate_zero` on the state.
unfoldable pub allocate_zero : ℕ → Act ℕ
allocate_zero pages k =
    let (page, pmm, memory) = pmm_allocate_zero pages k.vmm.pmm k.vmm.memory in
    done page (record k { vmm = record k.vmm { pmm = pmm; memory = memory } })

-- `new->pid = current_pid++`.
unfoldable pub next_pid : Act ℕ
next_pid k =
    done (u32 k.sched.current_pid)
      (record k { sched = record k.sched { current_pid = u64 (k.sched.current_pid + 1) } })

-- The registers that a new task starts with, where the code sets them.
unfoldable pub start_registers : ℕ → Stack → Stack
start_registers entry_point s = record s {
  rsp = user_stack_top;
  rip = entry_point;
  rflags = 0x202;
  cs = 0x43;
  ss = 0x3b;
}

-- The fields `parent`, `used_pages`, `state` and `exit_code` are not set.
unfoldable pub task_init : Libs → ℕ → Act Ptr
task_init lib entry_point = do
  new ← malloc_task lib
  modify_task new (λ t. record t { descriptors = [] })
  pid ← next_pid
  modify_task new (λ t. record t { pid = pid })
  stack ← allocate_zero (stack_size / page_size)
  lib.fxsave new
  modify_task new (λ t. record t { sp = stack })
  root ← on_vfs get_root
  modify_task new (λ t. record t { cwd = root; current_fd = 0 })
  page ← allocate_zero 1
  let pagemap = add64 page mmap_kernel_base
  modify_task new (λ t. record t { pagemap = pagemap })
  k ← get
  on_memory (copy_upper 256 256 pagemap (add64 k.vmm.kernel_pagemap mmap_kernel_base))
  on_vmm (map_stack (stack_size / 4096) 0 pagemap stack)
  modify_task new (λ t. record t { stack = start_registers entry_point t.stack })
  pure new

-- The loader on the state; a lock that is held is waited for.
unfoldable pub load_elf : Libs → ℕ → ℕ → ℕ → Auxval → Bool → Act (ℕ × Loading)
load_elf lib elf_base base pagemap val wants_ld = do
  k ← get
  r ← awaited (elf_load_program lib.malloc elf_base base pagemap val wants_ld k.vmm)
  change (λ k. record k { vmm = r.1.vmm })
  pure r

-- A file opened from the root and read whole into a new block: the address of the block.
unfoldable pub read_whole : Libs → Text → Act ℕ
read_whole lib path = do
  root ← on_vfs get_root
  file ← on_vfs (vfs_open lib.env root path o_rdwr)
  node ← on_vfs (load file)
  buffer ← malloc_bytes lib node.st_size
  node' ← on_vfs (load file)
  read_node lib.heap file 0 node'.st_size buffer >> pure buffer

-- The three descriptors of a task that is given its files. A file that is not found is only logged.
unfoldable pub open_stdio : Libs → Ptr → Text → Text → Text → Act (Unit {0})
open_stdio lib t stdin stdout stderr = do
  root ← on_vfs get_root
  stdin_node ← on_vfs (vfs_open lib.env root stdin o_rdwr)
  stdout_node ← on_vfs (vfs_open lib.env root stdout o_rdwr)
  stderr_node ← on_vfs (vfs_open lib.env root stderr o_rdwr)
  modify_task t (λ t. record t {
    descriptors =
        lib.descriptors.push
          (lib.descriptors.push
            (lib.descriptors.push t.descriptors (record { fd = 0; file = stdin_node }))
            (record { fd = 1; file = stdout_node }))
          (record { fd = 2; file = stderr_node });
    current_fd = 3;
  })

unfoldable pub with_stdio : Libs → Ptr → Option (Text × Text × Text) → Act (Unit {0})
with_stdio lib t none = pure tt
with_stdio lib t (some (stdin, stdout, stderr)) = open_stdio lib t stdin stdout stderr

-- The stack of the task, filled through the direct map.
unfoldable pub fill_stack : Libs → Ptr → ℕ → ℕ → Auxval → Act (Unit {0})
fill_stack lib t argv envp val = do
  task ← load_task t
  let top = add64 (add64 task.sp stack_size) mmap_io_base
  k ← get
  image ←
      defined (build_stack lib.longest lib.longest argv envp val task.stack.rsp top k.vmm.memory)
  on_memory (λ m. image.memory)
  modify_task t
      (λ t. record t { stack = record t.stack { rsp = sub64 t.stack.rsp (sub64 top image.stack) } })

abbrev zero_auxval : Auxval
zero_auxval = record { at_entry = 0; at_phdr = 0; at_phent = 0; at_phnum = 0 }

-- The interpreter at 0x40000000, which then runs first.
unfoldable pub load_interpreter : Libs → Ptr → ℕ → Act (Unit {0})
load_interpreter lib t ld_path = if ld_path == null then pure tt else do
  k ← get
  path ← defined (text_at lib.longest ld_path k.vmm.memory)
  buffer ← read_whole lib path
  task ← load_task t
  r ← load_elf lib buffer 0x40000000 task.pagemap zero_auxval false
  free_bytes lib ld_path
  free_bytes lib buffer
  modify_task t (λ t. record t { stack = record t.stack { rip = r.1.auxval.at_entry } })

-- `argv` and `envp` are addresses; the files of the task are given all three or not at all.
unfoldable pub sched_new_elf_process :
    Libs → Text → ℕ → ℕ → Option (Text × Text × Text) → Act (Unit {0})
sched_new_elf_process lib path argv envp stdio = do
  t ← task_init lib 0
  buffer ← read_whole lib path
  task ← load_task t
  r ← load_elf lib buffer 0 task.pagemap zero_auxval true
  modify_task t (λ t. record t { stack = record t.stack { rip = r.0 } })
  with_stdio lib t stdio
  fill_stack lib t argv envp r.1.auxval
  load_interpreter lib t r.1.ld_path
  free_bytes lib buffer
  on_sched (sched_push lib.env.ptrs t)
