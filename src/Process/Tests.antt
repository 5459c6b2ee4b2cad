-- ===== src/Process/Tests.antt =====
-- A program with the argument "a" and no environment: the arrays lie at 0x100 and 0x300, the text at
-- 0x200.
use best_os.Common.{ℕ, ◌+◌, ◌-◌, ◌%◌, ◌^◌, ◌≡◌, inl, refl, arith, [], ◌∷◌, ◌==◌, if◌then◌else◌}
use best_os.Mem.{Memory}
use best_os.Mem.Words.{read64, read_bytes}
use best_os.Pmm.{mmap_io_base}
use best_os.Elf.Headers.{Auxval}
use best_os.Kernel.{Kernel, done}
use best_os.Kernel.Sample.{task, kernel, libs}
use best_os.Process.{fill_stack}
use best_os.Process.StackImage.{Image, stack_size}
use best_os.Process.StackImage.Strings.{Strings}
use best_os.Process.StackImage.Arguments.{Started}
use best_os.Process.Launch.{filled, fill_stack-Started}

abbrev arrays : Memory
arrays a = if a == 0x101 then 2 else (if a == 0x200 then b'a' else 0)

abbrev loaded : Kernel
loaded = record kernel { vmm = record kernel.vmm { memory = arrays } }

abbrev lo : ℕ
lo = 0x4000 + mmap_io_base

abbrev val : Auxval
val = record { at_entry = 0x400000; at_phdr = 0x400040; at_phent = 56; at_phnum = 3 }

first_pointer : read64 0x100 arrays ≡ 0x200
unfolding read64 read_bytes
first_pointer = refl

last_pointer : read64 0x108 arrays ≡ 0
unfolding read64 read_bytes
last_pointer = refl

no_pointer : read64 0x300 arrays ≡ 0
unfolding read64 read_bytes
no_pointer = refl

one_argument : Strings 64 lo (lo + stack_size) arrays 0x100 ((b'a' ∷ []) ∷ [])
one_argument = (
  0x200,
  first_pointer,
  λ e. omega arith,
  (λ e. omega arith, tt),
  omega arith,
  (refl, refl),
  inl (omega arith),
  inl (omega arith),
  omega arith,
  (last_pointer, inl (omega arith)),
)

fill_stack-Started_example :
    (image : Image) × (rsp : ℕ) × (fill_stack libs 40 0x100 0x300 val loaded
      ≡ done tt (filled loaded 40 (task 1 0x4000) rsp image))
    × (rsp + (lo + stack_size) ≡ image.stack + (2 ^ 47 - 8192))
    × (rsp % 16 ≡ 0)
    × Started lo (lo + stack_size) (2 ^ 47 - 8192) ((b'a' ∷ []) ∷ []) [] val arrays image
fill_stack-Started_example =
    fill_stack-Started libs 40 0x100 0x300 ((b'a' ∷ []) ∷ []) [] val loaded (task 1 0x4000) lo
      (λ e. ground arith) refl refl (omega arith) (omega arith) (omega arith) (omega arith)
      (omega arith) one_argument (no_pointer, inl (omega arith)) (omega arith) (omega arith)
      (omega arith, omega arith, omega arith, omega arith) (omega arith)
