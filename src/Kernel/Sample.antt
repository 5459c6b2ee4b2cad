-- ===== src/Kernel/Sample.antt =====
-- A small machine for the tests: two tasks, a tree with the root and one file, and a memory that is clear
-- where nothing else is said.
use best_os.Common.{ℕ, ◌+◌, ◌-◌, ◌^◌, true, false, none, some, [], ◌∷◌, ◌==◌, if◌then◌else◌}
use best_os.Str.{slash}
use best_os.Vec.Lists.{list_vec, list_ptrs}
use best_os.Pmm.{Pmm}
use best_os.Vfs.{file, directory, VfsNode, tmpfs, Vfs}
use best_os.Vfs.Open.{Env}
use best_os.Sched.Task.{Stack, Task}
use best_os.Descriptors.{gdt, clear_tss, idt_make_entry}
use best_os.Kernel.{Kernel, done, Libs}

abbrev pub node : VfsNode
node = record {
  type = file;
  name = b'a' ∷ [];
  parent = 1;
  points_to = 0;
  children = [];
  mountpoint = 7;
  st_size = 12;
  cursor = 5;
  o_mode = 0;
  address = 100;
  internal_address = 0;
  init = true;
}

abbrev pub files : Vfs
files = record {
  nodes = λ p.
      if p == 1
      then some (record node { type = directory; name = slash ∷ []; children = 2 ∷ [] })
      else (if p == 2 then some node else none);
  mounts = λ p. if p == 7 then some (record { fs = tmpfs; root = 1 }) else none;
  mountpoints = [];
  root = 1;
  errno = 0;
}

abbrev pub env : Env
env = record {
  malloc = record {
    node_at = λ s. 10;
    node_bytes = λ s. node;
    mount_at = λ s. 20;
    mount_bytes = λ s. record { fs = tmpfs; root = 0 };
    buffer_at = λ s size. 30;
  };
  texts = list_vec;
  ptrs = list_vec;
}

-- The registers of a task at an interrupt of the timer, with `rax` to tell them apart.
abbrev pub frame : ℕ → Stack
frame n = record {
  r15 = 0;
  r14 = 0;
  r13 = 0;
  r12 = 0;
  r11 = 0;
  r10 = 0;
  r9 = 0;
  r8 = 0;
  rbp = 0;
  rdi = 0;
  rsi = 0;
  rdx = 0;
  rcx = 0;
  rbx = 0;
  rax = n;
  intno = 32;
  err = 0;
  rip = 0x400000;
  cs = 0x43;
  rflags = 0x202;
  rsp = 2 ^ 47 - 8192;
  ss = 0x3b;
}

abbrev pub task : ℕ → ℕ → Task
task n page = record {
  parent = 0;
  current_fd = 1;
  descriptors = record { fd = 0; file = 2 } ∷ [];
  cwd = 1;
  pid = n;
  sp = page;
  pagemap = 0xffffffff80000000 + 0x9000;
  used_pages = 0;
  stack = frame n;
  state = 0;
  exit_code = 0;
}

-- Sixteen pages, of which the first eleven are in use.
abbrev pub pages : Pmm
pages = record {
  highest_page = 0x10000;
  usable_pages = 5;
  base = 0x200000;
  data_at = λ i. if i == 0 then 0xff else (if i == 1 then 0x07 else 0);
  size = 4096;
}

-- The tasks 40 and 50; the next tick of the scheduler switches to the second.
abbrev pub kernel : Kernel
kernel = record {
  vfs = files;
  vmm = record { pmm = pages; memory = λ a. 0; lock = false; kernel_pagemap = 0x1000; cr3 = 0 };
  sched = record {
    current_pid = 3;
    current_tick = 9;
    index = 1;
    current_task = 40;
    processes = 40 ∷ 50 ∷ [];
    started = true;
    lock = false;
  };
  tasks = λ p.
      if p == 40 then some (task 1 0x4000) else (if p == 50 then some (task 2 0x5000) else none);
  line = record { input = []; sent = [] };
  bus = record { writes = []; clock = 0 };
  cpu = record {
    gdtr = record { limit = 0; base = 0 };
    gdt = gdt;
    tss = clear_tss;
    idtr = record { size = 0; addr = 0 };
    idt = λ i. idt_make_entry 0 0;
    interrupts = true;
  };
  syscall_lock = false;
  prev_task = 40;
  msr = λ r. 0;
}

abbrev pub libs : Libs
libs = record {
  env = env;
  realloc = record { new_address = λ p size m. p; new_memory = λ p size m. m };
  descriptors = list_vec;
  pointers = list_ptrs;
  malloc = λ size v. (0x300000, v);
  free = λ a v. v;
  heap = record {
    block_at = λ size m. 0x300000;
    after_malloc = λ size m. m;
    after_free = λ p m. m;
  };
  task_bytes = λ p v. task 0 0;
  fxsave = λ p k. done tt k;
  deinit = λ p v. v;
  longest = 64;
}
