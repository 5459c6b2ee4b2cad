-- ===== src/Fs/Archive.antt =====
-- kernel/fs/ustar.c and tmpfs.c: the files of an archive in memory are put into the tree, as tmpfs files
-- whose content stays in the archive until it is read; and `devfs_init` of devfs.c.
pub mod Entries
mod Tests
use best_os.Common.{
  ℕ, zero, suc, ◌+◌, ◌-◌, ◌*◌, ◌/◌, ◌%◌, ◌^◌, Bool, true, false, Option, none, some, List, [], ◌∷◌,
  ◌++◌, ◌==◌, if◌then◌else◌, length, take, u32, u64, add64,
}
use best_os.Mem.{Memory}
use best_os.Str.{Text, slash, strdup, basename}
use best_os.Vfs.{Ptr, file, Vfs, Cmd, fault, pure, ◌>>=◌, ◌>>◌, of_option, load, modify, devfs}
use best_os.Vfs.Node.{get_parent}
use best_os.Vfs.Open.{
  Env, o_creat, get_root, malloc_node, malloc_buffer, push_child, vfs_open, vfs_mkdir, vfs_mount,
}
use best_os.Fs.{getsize, bytes_at}
use best_os.Kernel.{text_at}

-- The node keeps what the memory held in `points_to`, `children`, `cursor`, `o_mode` and `init`.
unfoldable pub tmpfs_create_file : Env → Text → ℕ → ℕ → Cmd (Unit {0})
tmpfs_create_file env name address size = do
  ret ← malloc_node env
  base ← of_option (basename name)
  modify ret (λ n. record n { name = strdup base; type = file })
  top ← get_root
  parent ← get_parent env.texts top name
  modify ret (λ n. record n { parent = parent })
  dir ← load parent
  modify ret (λ n. record n { mountpoint = dir.mountpoint; st_size = size })
  new_addr ← malloc_buffer env (add64 size 1)
  modify ret (λ n. record n { address = new_addr; internal_address = address })
  push_child env parent ret

-- The headers: the name at 0, the size at 124, the type at 156.
abbrev pub size_at : ℕ → Memory → ℕ
size_at a m = getsize (bytes_at 11 (a + 124) m)

abbrev pub is_folder : ℕ → Memory → Bool
is_folder a m = m (a + 156) == b'5'

-- The next header, behind this one and the blocks of the content.
unfoldable pub next_header : ℕ → ℕ → ℕ
next_header a size =
    let b = add64 a (u64 ((size / 512 + 1) * 512)) in if size % 512 == 0 then b else add64 b 512

-- What a new block of a size holds behind the bytes that are written, up to a 0: `new_name` gets no
-- terminator.
module _ (env : Env) (behind : ℕ → Text) where
  abbrev pub rooted : Text → Text
  rooted name = slash ∷ (name ++ behind (length name + 2))

  -- The entry of a header with this name. The last byte of the name of a directory, its slash, is cut.
  unfoldable pub create_entry : ℕ → Text → Memory → Cmd (Unit {0})
  create_entry a name m =
      if is_folder a m
      then (do made ← vfs_mkdir env (rooted (take (length name - 1) name)); pure tt)
      else tmpfs_create_file env (rooted name) (add64 a 512) (size_at a m)

  -- The loop, with fuel for the headers; the first argument bounds the names. The names that it
  -- allocates lie outside the archive, so the memory is the same in each round.
  unfoldable pub create_tmpfs_files : ℕ → ℕ → ℕ → Memory → Cmd ℕ
  create_tmpfs_files longest zero a m = λ s. fault
  create_tmpfs_files longest (suc f) a m = elim (m a == 0) [
    | true ↦ pure 0xc001c0de
    | false ↦ of_option (text_at longest a m) >>= λ name.
        create_entry a name m >> create_tmpfs_files longest f (next_header a (size_at a m)) m
  ]

-- "/dev" and "/dev/tty"
abbrev pub dev_path : Text
dev_path = slash ∷ b'd' ∷ b'e' ∷ b'v' ∷ []

abbrev pub tty_path : Text
tty_path = slash ∷ b'd' ∷ b'e' ∷ b'v' ∷ slash ∷ b't' ∷ b't' ∷ b'y' ∷ []

unfoldable pub devfs_init : Env → Cmd Ptr
devfs_init env = do
  mounted ← vfs_mount env dev_path devfs
  top ← get_root
  vfs_open env top tty_path o_creat
