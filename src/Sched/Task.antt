-- ===== src/Sched/Task.antt =====
-- kernel/sched.h and kernel/arch/arch.h: a task, its registers and its open files. The storage of the
-- floating-point registers is left out.
use best_os.Common.{ℕ, List}
use best_os.Vfs.{Ptr}

-- The registers of an interrupted task, as the handler finds them on its stack.
pub record Stack : Type 0 where
  pub r15 : ℕ
  pub r14 : ℕ
  pub r13 : ℕ
  pub r12 : ℕ
  pub r11 : ℕ
  pub r10 : ℕ
  pub r9 : ℕ
  pub r8 : ℕ
  pub rbp : ℕ
  pub rdi : ℕ
  pub rsi : ℕ
  pub rdx : ℕ
  pub rcx : ℕ
  pub rbx : ℕ
  pub rax : ℕ
  pub intno : ℕ
  pub err : ℕ
  pub rip : ℕ
  pub cs : ℕ
  pub rflags : ℕ
  pub rsp : ℕ
  pub ss : ℕ

pub record FileDescriptor : Type 0 where
  pub fd : ℕ
  pub file : Ptr

pub record Task : Type 0 where
  pub parent : Ptr
  pub current_fd : ℕ
  pub descriptors : List FileDescriptor
  pub cwd : Ptr
  pub pid : ℕ
  pub sp : ℕ
  pub pagemap : ℕ
  pub used_pages : ℕ
  pub stack : Stack
  pub state : ℕ
  pub exit_code : ℕ
