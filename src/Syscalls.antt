-- ===== src/Syscalls.antt =====
-- kernel/syscalls.c: the calls on file descriptors of the current task. The value that a call returns
-- is also what it leaves in `rax`; a path is read from the memory of the task.
pub mod Descriptor
pub mod Handlers
pub mod Dispatch
pub mod Errors
pub mod Exit
pub mod Read
mod Tests
use best_os.Common.{
  ℕ, zero, suc, ◌+◌, ◌-◌, ◌^◌, Bool, true, false, Option, none, some, List, [], ◌∷◌, ◌==◌,
  if◌then◌else◌, get_elem?, u32, u64, add64, int_to_u64,
}
use best_os.Str.{Text}
use best_os.Sched.Task.{FileDescriptor, Task}
use best_os.Vec.{VecOps}
use best_os.Vfs.{
  Ptr, null, Vfs, Cmd, pure, ◌>>=◌, ◌>>◌, of_option, load, modify, set_errno, enoent, einval,
}
use best_os.Vfs.Node.{get_parent}
use best_os.Vfs.Open.{Env, vfs_open}

-- The `int` -100, and the `int64_t` -1.
abbrev pub at_fdcwd : ℕ
at_fdcwd = 2 ^ 32 - 100

abbrev pub failed : ℕ
failed = 2 ^ 64 - 1

-- An index outside the vector is only logged, and the element is read: a fault.
unfoldable pub get_fd : ℕ → Task → Cmd FileDescriptor
get_fd fd t = of_option (get_elem? t.descriptors (u32 fd))

-- The directory that `openat` starts from.
unfoldable pub start_of : ℕ → Task → Cmd Ptr
start_of dirfd t = if u32 dirfd == at_fdcwd then pure t.cwd else do d ← get_fd dirfd t; pure d.file

unfoldable pub with_descriptor : VecOps FileDescriptor → Ptr → Task → Task
with_descriptor vec file t = record t {
  current_fd = u32 (t.current_fd + 1);
  descriptors = vec.push t.descriptors (record { fd = t.current_fd; file = file });
}

-- The end of `sys_openat`, from the parent on.
unfoldable pub open_below : VecOps FileDescriptor → Env → Ptr → Text → ℕ → Task → Cmd (ℕ × Task)
open_below vec env parent path mode t =
    if parent == null then set_errno enoent >> pure (failed, t) else do
      file ← vfs_open env parent path mode
      pure (int_to_u64 t.current_fd, with_descriptor vec file t)

unfoldable pub sys_openat : VecOps FileDescriptor → Env → ℕ → Text → ℕ → Task → Cmd (ℕ × Task)
sys_openat vec env dirfd path mode t = do
  start ← start_of dirfd t
  parent ← get_parent env.texts start path
  open_below vec env parent path mode t

-- The descriptor is taken out first, and the file of the one that is then in its place is reset; its
-- memory is freed.
unfoldable pub sys_close : VecOps FileDescriptor → ℕ → Task → Cmd (ℕ × Task)
sys_close vec fildes t =
    let closed = record t { descriptors = vec.splice t.descriptors (u32 fildes) 1 } in
    get_fd fildes closed >>= λ d.
    modify d.file (λ n. record n { init = false; cursor = 0 })
    >> pure (0, record closed { current_fd = u32 (closed.current_fd + 2 ^ 32 - 1) })

abbrev pub seek_cur : ℕ
seek_cur = 1

abbrev pub seek_end : ℕ
seek_end = 2

abbrev pub seek_set : ℕ
seek_set = 3

-- The new position, or none for another `whence`.
unfoldable pub seek_base : ℕ → ℕ → ℕ → ℕ → Option ℕ
seek_base whence offset cursor st_size =
    if whence == seek_set
    then some offset
    else (if whence == seek_cur
        then some (add64 cursor offset)
        else (if whence == seek_end then some (add64 st_size offset) else none))

unfoldable pub move_cursor : Ptr → Option ℕ → Cmd ℕ
move_cursor file none = set_errno einval >> pure failed
move_cursor file (some base) = modify file (λ n. record n { cursor = base }) >> pure base

unfoldable pub sys_seek : ℕ → ℕ → ℕ → Task → Cmd ℕ
sys_seek fd offset whence t = do
  d ← get_fd fd t
  n ← load d.file
  move_cursor d.file (seek_base (u32 whence) offset n.cursor n.st_size)
