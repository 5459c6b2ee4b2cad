-- ===== src/Boot.antt =====
-- kernel/bootstrap.c and main.c: the tags of the boot loader, the hooks of the allocator, and the order
-- in which the parts are set up.
pub mod Tags
mod Tests
use best_os.Common.{
  ℕ, zero, suc, ◌+◌, ◌*◌, ◌^◌, Bool, true, false, Option, none, some, List, [], ◌∷◌, ◌++◌, ltb,
  ◌==◌, if◌then◌else◌, u64, add64, sub64,
}
use best_os.Mem.{Memory}
use best_os.Mem.Words.{read_bytes, read64, write64}
use best_os.Lock.{spin_lock, spin_release}
use best_os.Str.{Text, slash, str_eq}
use best_os.Pmm.{Pmm, mmap_io_base, pmm_free, pmm_allocate_zero}
use best_os.Pmm.Init.{MmapEntry, pmm_initialize}
use best_os.Vmm.{vmm_initialize}
use best_os.Vfs.{tmpfs}
use best_os.Vfs.Open.{vfs_mount}
use best_os.Sched.{sched_init, sched_start}
use best_os.Descriptors.{Cpu, gdt_initialize, idt_initialize}
use best_os.Devices.{com_initialize, pic_initialize}
use best_os.Fs.Archive.{create_tmpfs_files, devfs_init, tty_path}
use best_os.Process.{sched_new_elf_process}
use best_os.Kernel.{
  Kernel, halted, Act, pure, ◌>>=◌, ◌>>◌, get, change, defined, awaited, on_vfs, on_vmm, Libs,
  text_at,
}

-- `struct stivale2_struct`: the address of the first tag; a tag: its identifier and the next one.
abbrev pub tags_of : ℕ → Memory → ℕ
tags_of a m = read64 (a + 128) m

abbrev pub identifier : ℕ → Memory → ℕ
identifier tag m = read64 tag m

abbrev pub next_tag : ℕ → Memory → ℕ
next_tag tag m = read64 (tag + 8) m

-- The loop of `stivale2_get_tag` from a tag on, with fuel; 0 is NULL.
unfoldable pub get_tag_from : ℕ → ℕ → ℕ → Memory → Option ℕ
get_tag_from zero tag id m = none
get_tag_from (suc f) tag id m =
    let rest = get_tag_from f (next_tag tag m) id m in
    if tag == 0 then some 0 else (if identifier tag m == id then some tag else rest)

unfoldable pub stivale2_get_tag : ℕ → ℕ → ℕ → Memory → Option ℕ
stivale2_get_tag f stivale2_struct id m = get_tag_from f (tags_of stivale2_struct m) id m

abbrev pub cmdline_id : ℕ
cmdline_id = 0xe5e76a1b4597a781

abbrev pub modules_id : ℕ
modules_id = 0x4b6fe466aade04ce

-- "log"
abbrev pub log_option : Text
log_option = b'l' ∷ b'o' ∷ b'g' ∷ []

-- `*p` of an address that is not NULL.
abbrev pub non_null : ℕ → Option ℕ
non_null p = if p == 0 then none else some p

-- `do_nerd_logs` after `_start`: whether the command line of the kernel is "log". A tag that is
-- missing is read through NULL.
unfoldable pub nerd_logs : Libs → ℕ → Act Bool
nerd_logs lib stivale2_struct = do
  k ← get
  found ← awaited (stivale2_get_tag lib.longest stivale2_struct cmdline_id k.vmm.memory)
  cmdline ← defined (non_null found)
  text ← defined (text_at lib.longest (read64 (cmdline + 16) k.vmm.memory) k.vmm.memory)
  pure (str_eq text log_option)

-- The hooks of the allocator, with its lock. A block of no page is at MMAP_IO_BASE.
unfoldable pub liballoc_alloc : ℕ → Pmm → Memory → ℕ × Pmm × Memory
liballoc_alloc s pmm m =
    let (page, pmm', m') = pmm_allocate_zero s pmm m in (add64 page mmap_io_base, pmm', m')

unfoldable pub liballoc_free : ℕ → ℕ → Pmm → ℕ × Pmm
liballoc_free p s pmm = (0, pmm_free (sub64 p mmap_io_base) s pmm)

unfoldable pub liballoc_lock : Bool → Option (ℕ × Bool)
liballoc_lock held = elim (spin_lock held) [ none ↦ none | some b ↦ some (0, b) ]

unfoldable pub liballoc_unlock : Bool → ℕ × Bool
liballoc_unlock held = (0, spin_release held)

-- "ustar  "
abbrev pub ustar_magic : Text
ustar_magic = b'u' ∷ b's' ∷ b't' ∷ b'a' ∷ b'r' ∷ b' ' ∷ b' ' ∷ []

-- A module that is an archive is put into the tree.
unfoldable pub load_module : Libs → (ℕ → Text) → ℕ → Act (Unit {0})
load_module lib behind begin = do
  k ← get
  magic ← defined (text_at lib.longest (begin + 257) k.vmm.memory)
  if str_eq ustar_magic magic
      then on_vfs (create_tmpfs_files lib.env behind lib.longest lib.longest begin k.vmm.memory)
        >> pure tt
      else pure tt

-- The loop over the modules behind the tag, 144 bytes each: the rounds left, and `i`.
unfoldable pub load_modules : Libs → (ℕ → Text) → ℕ → ℕ → ℕ → Act (Unit {0})
load_modules lib behind zero i modules = pure tt
load_modules lib behind (suc n) i modules = get >>= λ k.
    load_module lib behind (read64 (modules + 24 + i * 144) k.vmm.memory)
    >> load_modules lib behind n (i + 1) modules

-- "/bin/init"
abbrev pub init_path : Text
init_path = slash ∷ b'b' ∷ b'i' ∷ b'n' ∷ slash ∷ b'i' ∷ b'n' ∷ b'i' ∷ b't' ∷ []

-- Where the linker put the tables of descriptors and the entries of the interrupts.
pub record Linked : Type 0 where
  pub gdt_at : ℕ
  pub tss_at : ℕ
  pub idt_at : ℕ
  pub interrupt_vector : ℕ → ℕ

-- `gdt_initialize` on the state; the tables are loaded.
unfoldable pub load_gdt : Linked → ℕ → ℕ → Cpu → Cpu
load_gdt at stack size c =
    let (gdtr, gdt, tss) = gdt_initialize stack size at.gdt_at at.tss_at c.gdt in
    record c { gdtr = gdtr; gdt = gdt; tss = tss }

-- `kernel_main`: the entries of the memory map are given as the list behind their tag, the arrays
-- `argv` and `envp` by their addresses. The log lines are left out.
unfoldable pub kernel_main :
    Libs → Linked → (ℕ → Text) → List MmapEntry → ℕ → ℕ → ℕ → ℕ → ℕ → Act (Unit {0})
kernel_main lib at behind entries argv envp stivale2_struct stack stack_size = do
  change (λ k. record k { bus = com_initialize k.bus })
  k ← get
  found ← awaited (stivale2_get_tag lib.longest stivale2_struct modules_id k.vmm.memory)
  change (λ k. record k { cpu = load_gdt at stack stack_size k.cpu })
  change (λ k. record k { bus = pic_initialize k.bus })
  change (λ k. record k { cpu = idt_initialize at.idt_at at.interrupt_vector k.cpu })
  r ← awaited (pmm_initialize entries k.vmm.pmm)
  change (λ k. record k { vmm = record k.vmm { pmm = r.1 } })
  on_vmm (vmm_initialize r.0)
  on_vfs (vfs_mount lib.env (slash ∷ []) tmpfs)
  modules ← defined (non_null found)
  k' ← get
  load_modules lib behind (read64 (modules + 16) k'.vmm.memory) 0 modules
  on_vfs (devfs_init lib.env)
  change (λ k. record k { sched = sched_init k.sched })
  sched_new_elf_process lib init_path argv envp (some (tty_path, tty_path, tty_path))
  change (λ k. record k { sched = sched_start k.sched })
  halted
