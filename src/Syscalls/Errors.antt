-- ===== src/Syscalls/Errors.antt =====
-- The way of an error from a handler through the dispatch to the registers of the task.
use best_os.Common.{ℕ, ◌^◌, ◌-◌, ◌⊎◌, none, ◌<◌, ◌≡◌, ◌≢◌, refl, arith, false, some, ◌==◌, u32}
use best_os.Vfs.{VfsNode, null, ok, load, set_errno, einval}
use best_os.Sched.Task.{Stack, FileDescriptor, Task}
use best_os.Kernel.{Kernel, done, Libs, load_task}
use best_os.Syscalls.{get_fd, sys_seek, seek_base, move_cursor}
use best_os.Syscalls.Handlers.{handle_seek}
use best_os.Syscalls.Dispatch.{syscalls, get_errno, report_error, syscall_dispatch}

no_base :
    (whence offset cursor size : ℕ)
    → (u32 whence ≡ 0) ⊎ (3 < u32 whence)
    → seek_base (u32 whence) offset cursor size ≡ none
unfolding seek_base
no_base whence offset cursor size h = ground arith

-- The eighth system call, `seek`, with a way to count that is neither from the start, from the cursor
-- nor from the end: the dispatch returns to the task with -1 in `rax` and EINVAL in `rdx`, the other
-- registers as they were, and with no error pending; the cursor and all else stay. The file is open.
pub syscall_dispatch-whence :
    (lib : Libs) (num : ℕ) (frame : Stack) (k : Kernel) (t : Task) (d : FileDescriptor)
    (n : VfsNode)
    → u32 num ≡ 7
    → k.sched.current_task ≢ null
    → k.tasks k.sched.current_task ≡ some t
    → get_fd frame.rdi t k.vfs ≡ ok d k.vfs
    → d.file ≢ null
    → k.vfs.nodes d.file ≡ some n
    → (u32 frame.rdx ≡ 0) ⊎ (3 < u32 frame.rdx)
    → syscall_dispatch lib num frame k
      ≡ done
          (record frame { rax = 2 ^ 64 - 1; rdx = einval })
          (record k { vfs = record k.vfs { errno = 0 } })
unfolding syscall_dispatch syscalls handle_seek load_task load sys_seek move_cursor report_error
    get_errno set_errno
syscall_dispatch-whence lib num frame k t d n seek running there open_ ne found way =
    let e1 : (k.sched.current_task == null) ≡ false = ground arith in
    let e2 : (d.file == null) ≡ false = ground arith in
    simp (seek, e1, there, open_, e2, found, no_base frame.rdx frame.rsi n.cursor n.st_size way)
      refl
