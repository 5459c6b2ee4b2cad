-- ===== src/Syscalls/Tests.antt =====
-- The system calls of a task with two open files, in a tree with the directory "/" and two files.
use best_os.Common.{
  ◌^◌, ◌-◌, inl, ℕ, ◌||◌, ◌+◌, ◌≡◌, refl, arith, true, false, some, none, [], ◌∷◌, ◌++◌, ◌==◌,
  if◌then◌else◌, length, take, drop,
}
use best_os.Str.{Text, slash}
use best_os.Sched.Task.{Stack, FileDescriptor, Task}
use best_os.Vec.{VecOps}
use best_os.Str.{
  strlen, str_eq, str_eq_from, strdup, strtok, strtok_scan, strchr, strstr, strstr_loop, step_path,
  basename, basename_loop,
}
use best_os.Vfs.{einval, tmpfs, file, directory, VfsNode, Vfs, ok, put, load, modify, store_node}
use best_os.Vfs.Parse.{segments_from, parse_path}
use best_os.Vfs.Node.{find_in, find_node, report, get_parent_from, get_parent}
use best_os.Vfs.Open.{Env, vfs_open, open_in, open_node, open_existing, unwanted_directory}
use best_os.Syscalls.{at_fdcwd, get_fd, start_of, sys_openat, sys_close}
use best_os.Mem.{memcpy}
use best_os.Pmm.{pmm_free}
use best_os.Pmm.Range.{used, within, pmm_free-Marks}
use best_os.Kernel.{Kernel, Libs, done, halted}
use best_os.Kernel.Sample
use best_os.Syscalls.Handlers.{sys_read, sys_exit}
use best_os.Syscalls.Dispatch.{syscall_dispatch}
use best_os.Syscalls.Errors.{syscall_dispatch-whence}
use best_os.Syscalls.Exit.{ended, sys_exit-released}
use best_os.Syscalls.Read.{sys_read-cursor}
use best_os.Syscalls.Descriptor.{IsDense, sys_openat-get_fd, sys_close-next}

abbrev vector : {A : Type 0} → VecOps A
vector = record {
  push = λ v a. v ++ a ∷ [];
  splice = λ v start count. take start v ++ drop (start + count) v;
  push_lem = λ v a. refl;
  splice_lem = λ v start count h. refl;
}

abbrev first : FileDescriptor
first = record { fd = 0; file = 2 }

abbrev second : FileDescriptor
second = record { fd = 1; file = 3 }

abbrev frame : Stack
frame = record {
  r15 = 0;
  r14 = 0;
  r13 = 0;
  r12 = 0;
  r11 = 0;
  r10 = 0;
  r9 = 0;
  r8 = 0;
  rbp = 0;
  rdi = 0;
  rsi = 0;
  rdx = 0;
  rcx = 0;
  rbx = 0;
  rax = 0;
  intno = 0x42;
  err = 0;
  rip = 0x400000;
  cs = 0x43;
  rflags = 0x202;
  rsp = 0x7fffffffe000;
  ss = 0x3b;
}

abbrev task : Task
task = record {
  parent = 0;
  current_fd = 2;
  descriptors = first ∷ second ∷ [];
  cwd = 1;
  pid = 1;
  sp = 0x8000;
  pagemap = 0xffffffff80009000;
  used_pages = 0;
  stack = frame;
  state = 0;
  exit_code = 0;
}

abbrev node : VfsNode
node = record {
  type = file;
  name = b'a' ∷ [];
  parent = 1;
  points_to = 0;
  children = [];
  mountpoint = 7;
  st_size = 12;
  cursor = 5;
  o_mode = 0;
  address = 100;
  internal_address = 0;
  init = true;
}

abbrev files : Vfs
files = record {
  nodes = λ p.
      if p == 1
      then some (record node { type = directory; children = 2 ∷ [] })
      else (if p == 2 then some node else (if p == 3 then some node else none));
  mounts = λ p. none;
  mountpoints = [];
  root = 1;
  errno = 0;
}

-- The first file is closed, and the second is reset.
sys_close-next_example :
    (t' : Task) × (sys_close vector 0 task files
      ≡ ok
          (0, t')
          (record files { nodes = put files.nodes 3 (record node { init = false; cursor = 0 }) }))
    × (t'.descriptors ≡ [] ++ second ∷ [])
sys_close-next_example =
    sys_close-next vector [] [] first second node task files refl (omega arith) (λ e. ground arith)
      refl

abbrev env : Env
env = record {
  malloc = record {
    node_at = λ s. 10;
    node_bytes = λ s. node;
    mount_at = λ s. 20;
    mount_bytes = λ s. record { fs = tmpfs; root = 0 };
    buffer_at = λ s size. 30;
  };
  texts = vector;
  ptrs = vector;
}

-- "/a"
abbrev path : Text
path = slash ∷ b'a' ∷ []

abbrev opened_files : Vfs
opened_files = record files { nodes = put files.nodes 2 (record node { o_mode = 0 }) }

task-IsDense : IsDense task
task-IsDense = record { next = refl; few = omega arith }

starts : start_of at_fdcwd task files ≡ ok 1 files
unfolding start_of
starts = refl

parent_found : get_parent vector 1 path files ≡ ok 1 files
unfolding get_parent get_parent_from report parse_path segments_from strtok strtok_scan strchr
    strdup strlen
parent_found = refl

opened : vfs_open env 1 path 0 files ≡ ok 2 opened_files
unfolding vfs_open open_in open_node open_existing unwanted_directory find_node find_in load modify
    store_node get_parent get_parent_from report parse_path segments_from strtok strtok_scan strchr
    strdup strlen str_eq str_eq_from basename basename_loop step_path strstr strstr_loop put
opened = refl

sys_openat-get_fd_example :
    (t' : Task) × (sys_openat vector env at_fdcwd path 0 task files ≡ ok (2, t') opened_files)
    × (get_fd 2 t' opened_files ≡ ok (record { fd = 2; file = 2 }) opened_files)
    × (t'.current_fd ≡ length t'.descriptors)
sys_openat-get_fd_example =
    sys_openat-get_fd vector env at_fdcwd path 0 task 1 1 2 files files files opened_files
      task-IsDense starts parent_found (λ e. ground arith) opened

-- Libraries whose `free` gives back the page 5.
abbrev freeing : Libs
freeing = record Sample.libs { deinit = λ p v. record v { pmm = pmm_free 0x5000 1 v.pmm } }

sys_exit-released_example :
    (k' : Kernel) × (sys_exit freeing (Sample.frame 0) Sample.kernel ≡ halted k')
    × (k'.sched.processes ≡ 50 ∷ [])
    × (k'.tasks 40 ≡ some (ended 0 (Sample.task 1 0x4000)))
    × ((x : ℕ)
        → used x k'.vmm.pmm ≡ (
            if within 4 4 x || within 9 1 x || within 5 1 x
            then 0
            else used x Sample.kernel.vmm.pmm))
sys_exit-released_example =
    sys_exit-released freeing (Sample.frame 0) Sample.kernel (Sample.task 1 0x4000) 4 9 [] (50 ∷ [])
      (within 5 1) (λ v x. (pmm_free-Marks 5 1 v.pmm (omega arith)).0.bits x) refl
      (λ e. ground arith) refl refl tt refl refl (omega arith) (omega arith)

-- Three bytes are read to 0x9000.
abbrev read_frame : Stack
read_frame = record (Sample.frame 4) { rdi = 0; rsi = 0x9000; rdx = 3 }

descriptor_there :
    get_fd 0 (Sample.task 1 0x4000) Sample.files ≡ ok (record { fd = 0; file = 2 }) Sample.files
unfolding get_fd
descriptor_there = refl

sys_read-cursor_example :
    (k' : Kernel) × (sys_read Sample.libs read_frame Sample.kernel
      ≡ done (record read_frame { rax = 3 }) k')
    × (k'.vmm.memory ≡ memcpy 0x9000 105 3 Sample.kernel.vmm.memory)
    × (k'.vfs.nodes 2 ≡ some (record Sample.node { cursor = 11 }))
sys_read-cursor_example =
    sys_read-cursor Sample.libs read_frame Sample.kernel (Sample.task 1 0x4000)
      (record { fd = 0; file = 2 }) Sample.node (record { fs = tmpfs; root = 1 })
      (λ e. ground arith) refl descriptor_there (λ e. ground arith) refl (λ e. ground arith) refl
      refl refl (λ e. ground arith)

-- A seek of the open file with no way to count.
abbrev seek_frame : Stack
seek_frame = record (Sample.frame 7) { rdi = 0; rsi = 4; rdx = 0 }

syscall_dispatch-whence_example :
    syscall_dispatch Sample.libs 7 seek_frame Sample.kernel
    ≡ done
        (record seek_frame { rax = 2 ^ 64 - 1; rdx = einval })
        (record Sample.kernel { vfs = record Sample.files { errno = 0 } })
syscall_dispatch-whence_example =
    syscall_dispatch-whence Sample.libs 7 seek_frame Sample.kernel (Sample.task 1 0x4000)
      (record { fd = 0; file = 2 }) Sample.node refl (λ e. ground arith) refl descriptor_there
      (λ e. ground arith) refl (inl refl)
