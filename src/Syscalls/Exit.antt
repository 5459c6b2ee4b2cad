-- ===== src/Syscalls/Exit.antt =====
-- What `exit` gives back, and how far `read` moves the cursor of a file.
use best_os.Common.{
  ℕ, ◌+◌, ◌-◌, ◌*◌, ◌^◌, ◌≤◌, ◌≡◌, ◌≢◌, refl, ap, ◌∙◌, arith, true, false, ◌||◌, Option, some, [],
  inl, inr, Bool-cases, ◌∷◌, ◌++◌, List, ◌==◌, Bool, if◌then◌else◌, u32, sub64,
}
use mathlib.Core.Path.{fun_ext}
use best_os.Lock.{spin_lock, spin_release}
use best_os.Vec.{Absent}
use best_os.Pmm.{page_size, pmm_free}
use best_os.Pmm.Range.{used, within, page_limit, pmm_free-Marks}
use best_os.Vmm.{Vmm, mmap_kernel_base}
use best_os.Vfs.{null, put}
use best_os.Sched.{sched_remove}
use best_os.Sched.Task.{Stack, Task}
use best_os.Kernel.{Kernel, halted, Libs, load_task, modify_task}
use best_os.Syscalls.Handlers.{sys_exit}

-- The task after its end, and the state.
abbrev pub ended : ℕ → Task → Task
ended status t = record t { state = 2 ^ 32 - 1; exit_code = u32 status; descriptors = [] }

abbrev pub exited : Libs → Kernel → Stack → Task → Kernel
exited lib k frame t = record k {
  sched = record k.sched {
    processes = lib.pointers.remove k.sched.processes k.sched.current_task;
    lock = false;
  };
  tasks = put k.tasks k.sched.current_task (ended frame.rdi t);
  vmm = lib.deinit k.sched.current_task (record k.vmm {
    pmm = pmm_free (sub64 t.pagemap mmap_kernel_base) 1 (pmm_free t.sp 4 k.vmm.pmm);
  });
}

put-put : (h : ℕ → Option Task) (p : ℕ) (a b : Task) → put (put h p a) p b ≡ put h p b
unfolding put
put-put h p a b =
    fun_ext (λ x. elim (Bool-cases (x == p)) [ inl e ↦ rw e refl | inr e ↦ rw e refl ])

put_self : (h : ℕ → Option Task) (p : ℕ) (a : Task) → put h p a p ≡ some a
unfolding put
put_self h p a = let e : (p == p) ≡ true = ground arith in rw e refl

sys_exit-exited :
    (lib : Libs) (frame : Stack) (k : Kernel) (t : Task)
    → k.sched.lock ≡ false
    → k.sched.current_task ≢ null
    → k.tasks k.sched.current_task ≡ some t
    → sys_exit lib frame k ≡ halted (exited lib k frame t)
unfolding sys_exit sched_remove spin_lock spin_release load_task modify_task
sys_exit-exited lib frame k t free ne there =
    let e : (k.sched.current_task == null) ≡ false = ground arith in
    simp (free, e, there, put_self, put-put) refl

-- `exit` of the current task, at a free lock, ends in the loop that nothing leaves: the task is out of
-- the vector of processes, dead with the low 32 bits of its status and no descriptors, the four pages of
-- its stack and the page of its page map are free again, with the pages that `free` gives back for the
-- block of its descriptors, and no other page changes.
pub sys_exit-released :
    (lib : Libs) (frame : Stack) (k : Kernel) (t : Task) (q r : ℕ) (before after : List ℕ)
    (block : ℕ → Bool)
    → ((v : Vmm) (x : ℕ)
        → used x (lib.deinit k.sched.current_task v).pmm ≡ (if block x then 0 else used x v.pmm))
    → k.sched.lock ≡ false
    → k.sched.current_task ≢ null
    → k.tasks k.sched.current_task ≡ some t
    → k.sched.processes ≡ before ++ k.sched.current_task ∷ after
    → Absent k.sched.current_task before
    → t.sp ≡ q * page_size
    → sub64 t.pagemap mmap_kernel_base ≡ r * page_size
    → q + 4 ≤ page_limit
    → r + 1 ≤ page_limit
    → (k' : Kernel) × (sys_exit lib frame k ≡ halted k')
      × (k'.sched.processes ≡ before ++ after)
      × (k'.tasks k.sched.current_task ≡ some (ended frame.rdi t))
      × ((x : ℕ)
          → used x k'.vmm.pmm
            ≡ (if within q 4 x || within r 1 x || block x then 0 else used x k.vmm.pmm))
sys_exit-released lib frame k t q r before after block given free ne there all absent stack map hq
      hr =
    let p1 = pmm_free (q * page_size) 4 k.vmm.pmm in
    let m1 = (pmm_free-Marks q 4 k.vmm.pmm hq).0 in
    let m2 = (pmm_free-Marks r 1 p1 hr).0 in
    (
      exited lib k frame t,
      sys_exit-exited lib frame k t free ne there,
      ap (λ (xs : List ℕ). lib.pointers.remove xs k.sched.current_task) all
          ∙ lib.pointers.remove_lem before after k.sched.current_task absent,
      put_self k.tasks k.sched.current_task (ended frame.rdi t),
      λ x.
          rw (map, stack)
            (ground (
              arith,
              m1.bits x,
              m2.bits x,
              given (record k.vmm { pmm = pmm_free (r * page_size) 1 p1 }) x,
            )),
    )
