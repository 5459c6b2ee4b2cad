-- ===== src/Process/StackImage.antt =====
-- The part of `sched_new_elf_process` of kernel/sched.c that fills the stack of a new task: strings,
-- auxiliary vector, the arrays of pointers and the count. A loop over an array of strings has fuel for
-- one more round than the array has strings, and `none` is out of fuel.
pub mod Strings
pub mod Pointers
pub mod Words
pub mod Vectors
pub mod Lower
pub mod Arguments
use best_os.Common.{
  ℕ, zero, suc, ◌+◌, ◌-◌, ◌*◌, ◌^◌, true, false, Option, none, some, ◌==◌, if◌then◌else◌, bit_and,
  u64, add64, sub64,
}
use best_os.Common.Chain.{◌>>=◌}
use best_os.Mem.{Memory}
use best_os.Mem.Words.{read64, write64}
use best_os.Str.{strcpy}
use best_os.Elf.Headers.{Auxval}

abbrev pub stack_size : ℕ
stack_size = 0x4000

abbrev pub user_stack_top : ℕ
user_stack_top = 2 ^ 47 - 8192

-- QWORD's abi
abbrev pub at_entry : ℕ
at_entry = 10

abbrev pub at_phdr : ℕ
at_phdr = 20

abbrev pub at_phent : ℕ
at_phent = 21

abbrev pub at_phnum : ℕ
at_phnum = 22

-- `strlen` of the string at an address, with fuel.
unfoldable pub strlen_at : ℕ → ℕ → Memory → Option ℕ
strlen_at zero p m = none
strlen_at (suc f) p m = elim (m p == 0) [
  | true ↦ some 0
  | false ↦ (do n ← strlen_at f (p + 1) m; some (n + 1))
]

-- The stack pointer, the memory, and a count or the address in the address space of the task.
pub record Image : Type 0 where
  pub stack : ℕ
  pub memory : Memory
  pub count : ℕ

-- The string at `p` goes below the stack pointer.
unfoldable pub push_string : ℕ → ℕ → Image → Option Image
push_string fuel p s = do
  n ← strlen_at fuel p s.memory
  let stack = sub64 s.stack (n + 1)
  m ← strcpy fuel stack p s.memory
  some (record { stack = stack; memory = m; count = s.count + 1 })

-- The loop over the strings of an array, from the element at `elem` on.
unfoldable pub push_strings : ℕ → ℕ → ℕ → Image → Option Image
push_strings fuel zero elem s = none
push_strings fuel (suc f) elem s = elim (read64 elem s.memory == 0) [
  | true ↦ some s
  | false ↦ (do t ← push_string fuel (read64 elem s.memory) s; push_strings fuel f (add64 elem 8) t)
]

-- `*(--stack) = v`.
unfoldable pub push_word : ℕ → Image → Image
push_word v s =
    let stack = sub64 s.stack 8 in record s { stack = stack; memory = write64 stack v s.memory }

-- `stack -= 2; *stack = type; *(stack + 1) = v`.
unfoldable pub push_aux : ℕ → ℕ → Image → Image
push_aux type v s =
    let stack = sub64 s.stack 16 in
    record s { stack = stack; memory = write64 (add64 stack 8) v (write64 stack type s.memory) }

unfoldable pub push_auxval : Auxval → Image → Image
push_auxval val s = push_aux at_phnum val.at_phnum (
    push_aux at_phent val.at_phent
      (push_aux at_phdr val.at_phdr (push_aux at_entry val.at_entry (push_word 0 (push_word 0 s)))))

-- The loop that writes the addresses of the strings of an array into the words from `stack` on: the
-- rounds left, and `i`. `count` is `sa`.
unfoldable pub write_pointers : ℕ → ℕ → ℕ → ℕ → Image → Option Image
write_pointers fuel zero i strings s = some s
write_pointers fuel (suc n) i strings s = do
  len ← strlen_at fuel (read64 (add64 strings (i * 8)) s.memory) s.memory
  let sa = sub64 s.count (len + 1)
  write_pointers fuel n (i + 1) strings
      (record s { memory = write64 (add64 s.stack (i * 8)) sa s.memory; count = sa })

-- The array of `n` pointers with its marker.
unfoldable pub push_pointers : ℕ → ℕ → ℕ → Image → Option Image
push_pointers fuel n strings s =
    let marked = push_word 0 s in
    write_pointers fuel n 0 strings (record marked { stack = sub64 marked.stack (u64 (n * 8)) })

-- The stack pointer at a multiple of 16, less a word where the number of words to come is odd.
unfoldable pub align_stack : ℕ → Image → Image
align_stack words s =
    let stack = sub64 s.stack (bit_and s.stack 0xf) in
    record s { stack = if bit_and words 1 == 0 then stack else sub64 stack 8 }

-- The whole of it, from the top of the stack: the fuel for a string, and that for an array. `rsp` is
-- the top in the address space of the task, `count` of the result the last `sa`.
unfoldable pub build_stack : ℕ → ℕ → ℕ → ℕ → Auxval → ℕ → ℕ → Memory → Option Image
build_stack fuel few argv envp val rsp top m = do
  e ← push_strings fuel few envp (record { stack = top; memory = m; count = 0 })
  let nenv = e.count
  a ← push_strings fuel few argv (record e { count = 0 })
  let nargs = a.count
  let aligned = align_stack (u64 (nargs + nenv + 1)) a
  let auxed = push_auxval val aligned
  p ← push_pointers fuel nenv envp (record auxed { count = rsp })
  q ← push_pointers fuel nargs argv p
  some (push_word nargs q)
