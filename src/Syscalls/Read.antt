-- ===== src/Syscalls/Read.antt =====
-- How far `read` moves the cursor of a tmpfs file.
use best_os.Common.{
  ℕ, ◌≡◌, ◌≢◌, refl, ap, ◌∙◌, arith, true, false, some, ◌==◌, u32, add64, int_to_u64,
}
use best_os.Mem.{memcpy}
use best_os.Vfs.{null, put, VfsNode, Mountpoint, tmpfs, ok, load, modify, store_node}
use best_os.Fs.{Heap, vfs_read, tmpfs_read, tmpfs_load}
use best_os.Sched.Task.{Stack, Task, FileDescriptor}
use best_os.Kernel.{
  Kernel, Act, done, on_done, on_vfs, pure, ◌>>◌, Libs, load_task, fs_of, after_handler, read_node,
}
use best_os.Syscalls.{get_fd}
use best_os.Syscalls.Handlers.{sys_read}

-- The read of a tmpfs file whose content was brought over before.
abbrev pub read_state : Kernel → ℕ → VfsNode → ℕ → ℕ → Kernel
read_state k p n count buf = record k {
  vfs = record k.vfs { nodes = put k.vfs.nodes p (record n { cursor = add64 n.cursor count }) };
  vmm = record k.vmm { memory = memcpy buf (add64 n.address n.cursor) count k.vmm.memory };
}

read_node_tmpfs :
    (h : Heap) (p count buf : ℕ) (k : Kernel) (n : VfsNode) (m : Mountpoint)
    → p ≢ null
    → k.vfs.nodes p ≡ some n
    → n.mountpoint ≢ null
    → k.vfs.mounts n.mountpoint ≡ some m
    → m.fs ≡ tmpfs
    → n.init ≡ true
    → buf ≢ 0
    → read_node h p n.cursor count buf k ≡ done (u32 count) (read_state k p n count buf)
unfolding read_node load fs_of after_handler vfs_read tmpfs_read tmpfs_load
read_node_tmpfs h p count buf k n m ne there mounted found fs loaded target =
    let e1 : (p == null) ≡ false = ground arith in
    let e2 : (n.mountpoint == null) ≡ false = ground arith in
    let e3 : (buf == 0) ≡ false = ground arith in simp (e1, there, e2, found, fs, loaded, e3) refl

-- `read` of an open tmpfs file, whose content was brought over, into a buffer that is not NULL: the
-- bytes behind the cursor are copied to the buffer and their number is returned in `rax`, but the cursor
-- of the file moves by twice the count, so the next read leaves out as many bytes as this one read.
pub sys_read-cursor :
    (lib : Libs) (frame : Stack) (k : Kernel) (t : Task) (d : FileDescriptor) (n : VfsNode)
    (m : Mountpoint)
    → k.sched.current_task ≢ null
    → k.tasks k.sched.current_task ≡ some t
    → get_fd frame.rdi t k.vfs ≡ ok d k.vfs
    → d.file ≢ null
    → k.vfs.nodes d.file ≡ some n
    → n.mountpoint ≢ null
    → k.vfs.mounts n.mountpoint ≡ some m
    → m.fs ≡ tmpfs
    → n.init ≡ true
    → frame.rsi ≢ 0
    → (k' : Kernel) × (sys_read lib frame k
        ≡ done (record frame { rax = int_to_u64 (u32 frame.rdx) }) k')
      × (k'.vmm.memory ≡ memcpy frame.rsi (add64 n.address n.cursor) frame.rdx k.vmm.memory)
      × (k'.vfs.nodes d.file
          ≡ some (record n { cursor = add64 (add64 n.cursor frame.rdx) frame.rdx }))
unfolding sys_read load_task load modify store_node put
sys_read-cursor lib frame k t d n m running there open_ ne found mounted at fs loaded target =
    let e1 : (k.sched.current_task == null) ≡ false = ground arith in
    let e2 : (d.file == null) ≡ false = ground arith in
    let e3 : (d.file == d.file) ≡ true = ground arith in
    let step : read_node lib.heap d.file n.cursor frame.rdx frame.rsi k
        ≡ done (u32 frame.rdx) (read_state k d.file n frame.rdx frame.rsi) =
      read_node_tmpfs lib.heap d.file frame.rdx frame.rsi k n m ne found mounted at fs loaded
        target in
    let moved : VfsNode = record n { cursor = add64 (add64 n.cursor frame.rdx) frame.rdx } in
    let rest : ℕ → Act Stack = λ ret.
      on_vfs (modify d.file (λ n. record n { cursor = add64 n.cursor frame.rdx }))
      >> pure (record frame { rax = int_to_u64 ret }) in
    let after : Kernel = read_state k d.file n frame.rdx frame.rsi in
    (
      record after { vfs = record after.vfs { nodes = put after.vfs.nodes d.file moved } },
      simp (e1, there, open_, e2, found) (ap (λ r. on_done r rest) step ∙ simp (e2, e3) refl),
      refl,
      simp e3 refl,
    )
