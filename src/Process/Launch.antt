-- ===== src/Process/Launch.antt =====
-- The stack of a new task in the state of the kernel.
use best_os.Common.{
  ℕ, ◌+◌, ◌*◌, ◌%◌, ◌^◌, ◌≤◌, ◌<◌, ◌≡◌, ◌≢◌, refl, arith, false, some, List, ◌==◌, length, add64,
  sub64,
}
use best_os.Str.{Text}
use best_os.Pmm.{mmap_io_base}
use best_os.Vfs.{Ptr, null, put}
use best_os.Sched.Task.{Task}
use best_os.Elf.Headers.{Auxval}
use best_os.Kernel.{Kernel, done, Libs, load_task, modify_task}
use best_os.Process.{fill_stack}
use best_os.Process.StackImage.{stack_size, Image, build_stack}
use best_os.Process.StackImage.Strings.{Strings, total}
use best_os.Process.StackImage.Words.{Fits}
use best_os.Process.StackImage.Arguments.{Started, build_stack-Started}

-- The state with the stack filled: its memory, and the stack pointer of the task.
abbrev pub filled : Kernel → Ptr → Task → ℕ → Image → Kernel
filled k p task rsp image = record k {
  vmm = record k.vmm { memory = image.memory };
  tasks = put k.tasks p (record task { stack = record task.stack { rsp = rsp } });
}

fill_stack_run :
    (lib : Libs) (p argv envp : ℕ) (val : Auxval) (k : Kernel) (task : Task) (top : ℕ)
    (image : Image)
    → p ≢ null
    → k.tasks p ≡ some task
    → add64 (add64 task.sp stack_size) mmap_io_base ≡ top
    → build_stack lib.longest lib.longest argv envp val task.stack.rsp top k.vmm.memory ≡ some image
    → fill_stack lib p argv envp val k
      ≡ done tt (filled k p task (sub64 task.stack.rsp (sub64 top image.stack)) image)
unfolding fill_stack load_task modify_task
fill_stack_run lib p argv envp val k task top image ne there is_top built =
    let e : (p == null) ≡ false = ground arith in simp (e, there, is_top, built) refl

-- A new task starts on its arguments: its stack, in the direct map from `lo`, is filled as for
-- `build_stack`, nothing else in memory changes, and the stack pointer of the task becomes the address
-- that the count of the arguments has in its own address space, a multiple of 16 when it was one.
pub fill_stack-Started :
    (lib : Libs) (p argv envp : ℕ) (args envs : List Text) (val : Auxval) (k : Kernel) (task : Task)
    (lo : ℕ)
    → p ≢ null
    → k.tasks p ≡ some task
    → lo ≡ task.sp + mmap_io_base
    → lo % 16 ≡ 0
    → lo + stack_size < 2 ^ 64
    → task.stack.rsp < 2 ^ 64
    → task.stack.rsp % 16 ≡ 0
    → stack_size ≤ task.stack.rsp
    → Strings lib.longest lo (lo + stack_size) k.vmm.memory argv args
    → Strings lib.longest lo (lo + stack_size) k.vmm.memory envp envs
    → length args < lib.longest
    → length envs < lib.longest
    → Fits val
    → total envs + total args + 128 + 8 * (length args + length envs) ≤ stack_size
    → (image : Image) × (rsp : ℕ) × (fill_stack lib p argv envp val k
        ≡ done tt (filled k p task rsp image))
      × (rsp + (lo + stack_size) ≡ image.stack + task.stack.rsp)
      × (rsp % 16 ≡ 0)
      × Started lo (lo + stack_size) task.stack.rsp args envs val k.vmm.memory image
fill_stack-Started lib p argv envp args envs val k task lo ne there is_lo whole small rsp_small
      rsp_whole high ha he fa fe fits room =
    let (image, built, s) =
      build_stack-Started lib.longest lib.longest lo (lo + stack_size) task.stack.rsp argv envp args
        envs val k.vmm.memory ha he fa fe fits (omega arith) small rsp_small (omega arith)
        (omega arith) in
    let top : add64 (add64 task.sp stack_size) mmap_io_base ≡ lo + stack_size = omega arith in
    let rsp = sub64 task.stack.rsp (sub64 (lo + stack_size) image.stack) in
    (
      image,
      rsp,
      fill_stack_run lib p argv envp val k task (lo + stack_size) image ne there top built,
      omega (arith, s.room),
      omega (arith, s.room, s.whole),
      s,
    )
