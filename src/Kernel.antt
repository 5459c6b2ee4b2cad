-- ===== src/Kernel.antt =====
-- The state of the running kernel, put together from the parts, and what runs on it. A command returns
-- a value with the new state, stops in a loop that nothing ends, or makes an access that C leaves
-- undefined.
pub mod Sample
use best_os.Common.{
  ℕ, zero, suc, ◌+◌, ◌^◌, ◌≡◌, refl, Bool, true, false, [], ◌∷◌, Option, none, some, ◌==◌,
  if◌then◌else◌, u8, u32, u64,
}
use best_os.Str.{Text}
use best_os.Mem.{Memory}
use best_os.Vec.{VecOps, PtrOps}
use best_os.Vmm.{Vmm}
use best_os.Vfs.{Ptr, null, VfsNode, Filesystem, Vfs, Run, Cmd, put, load}
use best_os.Vfs
use best_os.Vfs.Open.{Env}
use best_os.Sched.{Sched}
use best_os.Sched.Task.{FileDescriptor, Task}
use best_os.Descriptors.{Cpu}
use best_os.Devices.{Bus}
use best_os.Fs.{Realloc, Heap, Line, Done, vfs_read, fs_write, vfs_write}

pub record Kernel : Type 0 where
  pub vfs : Vfs
  pub vmm : Vmm
  pub sched : Sched
  pub tasks : Ptr → Option Task
  pub line : Line
  pub bus : Bus
  pub cpu : Cpu
  pub syscall_lock : Bool
  pub prev_task : Ptr
  pub msr : ℕ → ℕ

pub data Outcome (A : Type 0) : Type 0 where
  done : A → Kernel → Outcome A
  halted : Kernel → Outcome A
  fault : Outcome A

abbrev pub Act : Type 0 → Type 0
Act A = Kernel → Outcome A

abbrev pub pure : {A : Type 0} → A → Act A
pure = done

abbrev pub on_done : {A B : Type 0} → Outcome A → (A → Act B) → Outcome B
on_done (done a k) f = f a k
on_done (halted k) f = halted k
on_done fault f = fault

infixl 5 ◌>>=◌ ◌>>◌
abbrev pub ◌>>=◌ : {A B : Type 0} → Act A → (A → Act B) → Act B
m >>= f = λ k. on_done (m k) f

abbrev pub ◌>>◌ : {A B : Type 0} → Act A → Act B → Act B
m >> n = m >>= λ _. n

abbrev pub get : Act Kernel
get k = done k k

abbrev pub change : (Kernel → Kernel) → Act (Unit {0})
change f k = done tt (f k)

-- A value that is there, or an undefined access.
abbrev pub defined : {A : Type 0} → Option A → Act A
defined none k = fault
defined (some a) k = done a k

-- A value that comes, or an endless wait.
abbrev pub awaited : {A : Type 0} → Option A → Act A
awaited none k = halted k
awaited (some a) k = done a k

-- A command of the file system.
abbrev pub ran_vfs : {A : Type 0} → Run A → Act A
ran_vfs (Vfs.ok a s) k = done a (record k { vfs = s })
ran_vfs Vfs.fault k = fault

abbrev pub on_vfs : {A : Type 0} → Cmd A → Act A
on_vfs c k = ran_vfs (c k.vfs) k

abbrev pub on_vmm : (Vmm → Option Vmm) → Act (Unit {0})
on_vmm f = do k ← get; v ← awaited (f k.vmm); change (λ k. record k { vmm = v })

abbrev pub on_sched : (Sched → Option Sched) → Act (Unit {0})
on_sched f = do k ← get; s ← awaited (f k.sched); change (λ k. record k { sched = s })

-- A change of the memory.
abbrev pub on_memory : (Memory → Memory) → Act (Unit {0})
on_memory f = change (λ k. record k { vmm = record k.vmm { memory = f k.vmm.memory } })

-- The libraries that the kernel calls, and how long a string it follows. `malloc` may take pages from
-- the page allocator. `fxsave` is the instruction on `fpu_storage` of a task: it stores 512 bytes, 8 of
-- them in the field, the others over what the heap holds behind the task. `deinit` is `vec_deinit` of
-- the descriptors of a task, which frees their block.
pub record Libs : Type 0 where
  pub env : Env
  pub realloc : Realloc
  pub heap : Heap
  pub descriptors : VecOps FileDescriptor
  pub pointers : PtrOps
  pub malloc : ℕ → Vmm → ℕ × Vmm
  pub free : ℕ → Vmm → Vmm
  pub task_bytes : ℕ → Vmm → Task
  pub fxsave : Ptr → Act (Unit {0})
  pub deinit : Ptr → Vmm → Vmm
  pub longest : ℕ

-- `*p` of a `Task *`, and a write of fields of it.
unfoldable pub load_task : Ptr → Act Task
load_task p k = if p == null then fault else defined (k.tasks p) k

abbrev pub store_task : Ptr → Task → Act (Unit {0})
store_task p t = change (λ k. record k { tasks = put k.tasks p t })

unfoldable pub modify_task : Ptr → (Task → Task) → Act (Unit {0})
modify_task p f = do t ← load_task p; store_task p (f t)

abbrev pub current_task : Act Ptr
current_task = do k ← get; pure k.sched.current_task

-- `&node->mountpoint->fs`.
unfoldable pub fs_of : VfsNode → Act Filesystem
fs_of n = do
  k ← get
  m ← defined (if n.mountpoint == null then none else k.vfs.mounts n.mountpoint)
  pure m.fs

-- What a handler of a file system leaves.
unfoldable pub after_handler : Ptr → Done → Act ℕ
after_handler p d k = done d.ret (record k {
  vfs = record k.vfs { nodes = put k.vfs.nodes p d.node };
  vmm = record k.vmm { memory = d.memory };
  line = d.line;
})

-- The calls of `vfs_read` and `vfs_write` on a node of the heap. A read of the serial line may wait for
-- ever; a missing handler is called through NULL.
unfoldable pub read_node : Heap → Ptr → ℕ → ℕ → ℕ → Act ℕ
read_node h p offset count buf = do
  n ← on_vfs (load p)
  fs ← fs_of n
  k ← get
  d ← awaited (vfs_read h fs n offset count buf k.vmm.memory k.line)
  after_handler p d

unfoldable pub write_node : Realloc → Ptr → ℕ → ℕ → Act ℕ
write_node r p count buf = do
  n ← on_vfs (load p)
  fs ← fs_of n
  k ← get
  d ← defined (vfs_write r fs n count buf k.vmm.memory k.line)
  after_handler p d

-- `malloc` of a block of bytes, `free`, and `pmm_allocate_zero` and `pmm_free` on the state.
abbrev pub malloc_bytes : Libs → ℕ → Act ℕ
malloc_bytes lib size k = let (a, v) = lib.malloc size k.vmm in done a (record k { vmm = v })

abbrev pub free_bytes : Libs → ℕ → Act (Unit {0})
free_bytes lib a = change (λ k. record k { vmm = lib.free a k.vmm })

abbrev pub text_cons : ℕ → Option Text → Option Text
text_cons c none = none
text_cons c (some s) = some (c ∷ s)

-- The text at an address, if it ends within the limit.
unfoldable pub text_at : ℕ → ℕ → Memory → Option Text
text_at zero p m = none
text_at (suc f) p m = elim (m p == 0) [
  | true ↦ some []
  | false ↦ text_cons (m p) (text_at f (p + 1) m)
]
