-- ===== src/Syscalls/Descriptor.antt =====
-- The descriptors of a task after `openat` and `close`, and the cursor after `seek`.
use best_os.Common.{
  ℕ, suc, ◌+◌, ◌-◌, ◌^◌, ◌<◌, ◌≡◌, ◌≢◌, refl, ap, ◌∙◌, arith, false, some, List, [], ◌∷◌, ◌++◌,
  ◌==◌, length, length-append, get_elem?, take, drop, u32, int_to_u64,
}
use best_os.Str.{Text}
use best_os.Sched.Task.{FileDescriptor, Task}
use best_os.Vec.{VecOps}
use best_os.Vfs.{Ptr, null, VfsNode, Vfs, ok, put}
use best_os.Vfs.Node.{get_parent}
use best_os.Vfs.Node.Scan.{modify_ok}
use best_os.Vfs.Open.{Env, vfs_open}
use best_os.Syscalls.{get_fd, start_of, with_descriptor, open_below, sys_openat, sys_close}

get_elem?-append :
    {A : Type 0} (xs ys : List A) (a : A) → get_elem? (xs ++ a ∷ ys) (length xs) ≡ some a
get_elem?-append [] ys a = refl
get_elem?-append (x ∷ xs) ys a = get_elem?-append xs ys a

take-append : {A : Type 0} (xs ys : List A) → take (length xs) (xs ++ ys) ≡ xs
take-append [] ys = refl
take-append (x ∷ xs) ys = ap (◌∷◌ x) (take-append xs ys)

drop-append : {A : Type 0} (xs ys : List A) (a : A) → drop (length xs + 1) (xs ++ a ∷ ys) ≡ ys
drop-append [] ys a = refl
drop-append (x ∷ xs) ys a =
    let more : suc (length xs) + 1 ≡ suc (length xs + 1) = omega arith in
    rw more (drop-append xs ys a)

-- A task whose next descriptor is the next place of its vector.
pub record IsDense (t : Task) : Type 0 where
  pub next : t.current_fd ≡ length t.descriptors
  pub few : length t.descriptors + 1 < 2 ^ 31

-- When the look-ups of the start and of the parent succeed and `vfs_open` returns `file`, which may
-- be NULL, `openat` returns the number of the new place of the vector, and that number is a
-- descriptor of the file from then on. The next descriptor stays the next place.
pub sys_openat-get_fd :
    (vec : VecOps FileDescriptor) (env : Env) (dirfd : ℕ) (path : Text) (mode : ℕ) (t : Task)
    (start parent file : Ptr) (s s1 s2 s3 : Vfs)
    → IsDense t
    → start_of dirfd t s ≡ ok start s1
    → get_parent env.texts start path s1 ≡ ok parent s2
    → parent ≢ null
    → vfs_open env parent path mode s2 ≡ ok file s3
    → (t' : Task) × (sys_openat vec env dirfd path mode t s ≡ ok (length t.descriptors, t') s3)
      × (get_fd (length t.descriptors) t' s3
          ≡ ok (record { fd = length t.descriptors; file = file }) s3)
      × (t'.current_fd ≡ length t'.descriptors)
unfolding sys_openat open_below with_descriptor get_fd
sys_openat-get_fd vec env dirfd path mode t start parent file s s1 s2 s3 dense from up ne opened =
    let there : (parent == null) ≡ false = ground arith in
    let d : FileDescriptor = record { fd = t.current_fd; file = file } in
    let pushed : vec.push t.descriptors d ≡ t.descriptors ++ d ∷ [] =
      vec.push_lem t.descriptors d in
    let counted : u32 (t.current_fd + 1) ≡ length t.descriptors + 1 =
      omega (arith, dense.next, dense.few) in
    let number : int_to_u64 t.current_fd ≡ length t.descriptors =
      ground (arith, dense.next, dense.few) in
    let low : u32 (length t.descriptors) ≡ length t.descriptors = omega (arith, dense.few) in
    (
      record t { current_fd = u32 (t.current_fd + 1); descriptors = vec.push t.descriptors d },
      rw (from, up, there, opened, number),
      rw (pushed, low, get_elem?-append t.descriptors [] d, dense.next),
      rw (pushed, counted) (omega (arith, length-append t.descriptors (d ∷ []))),
    )

-- `close` of a descriptor with another one behind it takes it out of the vector, but what it resets
-- is the file of the next descriptor, which stays open: its cursor is 0 and it is to be loaded again.
pub sys_close-next :
    (vec : VecOps FileDescriptor) (before after : List FileDescriptor) (d next : FileDescriptor)
    (n : VfsNode) (t : Task) (s : Vfs)
    → t.descriptors ≡ before ++ d ∷ next ∷ after
    → length before < 2 ^ 31
    → next.file ≢ null
    → s.nodes next.file ≡ some n
    → (t' : Task) × (sys_close vec (length before) t s
        ≡ ok
            (0, t')
            (record s { nodes = put s.nodes next.file (record n { init = false; cursor = 0 }) }))
      × (t'.descriptors ≡ before ++ next ∷ after)
unfolding sys_close get_fd
sys_close-next vec before after d next n t s all few ne there =
    let low : u32 (length before) ≡ length before = omega arith in
    let cut : vec.splice (before ++ d ∷ next ∷ after) (length before) 1 ≡ before ++ next ∷ after =
      vec.splice_lem (before ++ d ∷ next ∷ after) (length before) 1
        (omega (arith, length-append before (d ∷ next ∷ after)))
      ∙ ap (λ xs. xs ++ drop (length before + 1) (before ++ d ∷ next ∷ after))
          (take-append before (d ∷ next ∷ after))
      ∙ ap (◌++◌ before) (drop-append before (next ∷ after) d) in
    (
      record t {
        descriptors = before ++ next ∷ after;
        current_fd = u32 (t.current_fd + 2 ^ 32 - 1);
      },
      rw (
        all,
        low,
        cut,
        get_elem?-append before after next,
        modify_ok next.file (λ n. record n { init = false; cursor = 0 }) n s ne there,
      ),
      refl,
    )
