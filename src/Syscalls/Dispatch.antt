-- ===== src/Syscalls/Dispatch.antt =====
-- kernel/syscalls.h and the table and the dispatch of kernel/syscalls.c.
use best_os.Common.{
  ℕ, ◌^◌, Bool, not, ◌&&◌, List, [], ◌∷◌, ltb, ◌==◌, if◌then◌else◌, get_elem?, u32, int_to_u64,
}
use best_os.Vfs.{set_errno}
use best_os.Sched.Task.{Stack}
use best_os.Kernel.{Act, pure, ◌>>=◌, ◌>>◌, get, defined, on_vfs, Libs}
use best_os.Syscalls.{failed}
use best_os.Syscalls.Handlers.{
  sys_log, sys_mmap, sys_set_fs, handle_openat, sys_read, sys_write, handle_close, handle_seek,
  sys_exit, sys_execve,
}

-- The handlers by their numbers, from 0 on.
unfoldable pub syscalls : Libs → List (Stack → Act Stack)
syscalls lib =
    sys_log lib
    ∷ sys_mmap lib
    ∷ sys_set_fs lib
    ∷ handle_openat lib
    ∷ sys_read lib
    ∷ sys_write lib
    ∷ handle_close lib
    ∷ handle_seek lib
    ∷ sys_exit lib
    ∷ sys_execve lib
    ∷ []

unfoldable pub get_errno : Act ℕ
get_errno = do k ← get; pure k.vfs.errno

-- `get_errno() > 0`, of an `int`.
abbrev pub is_error : ℕ → Bool
is_error e = not (u32 e == 0) && ltb (u32 e) (2 ^ 31)

-- A call with an error gives its number in `rdx` and -1 in `rax`, and clears it.
unfoldable pub report_error : Stack → Act Stack
report_error frame = do
  e ← get_errno
  if is_error e
      then on_vfs (set_errno 0) >> pure (record frame { rdx = int_to_u64 e; rax = failed })
      else pure frame

-- The number is an `int`; there is no test of it, and a number outside the table is a fault.
unfoldable pub syscall_dispatch : Libs → ℕ → Stack → Act Stack
syscall_dispatch lib num frame = do
  call ← defined (get_elem? (syscalls lib) (u32 num))
  after ← call frame
  report_error after
