-- ===== src/Fs.antt =====
-- The file systems behind a mount point: kernel/fs/tmpfs.c, devfs.c and the reads of ustar.c, with
-- `vfs_read` and `vfs_write` of kernel/fs/vfs.c. A handler gets the node it may change, the memory of
-- bytes and the serial line.
pub mod Tmpfs
pub mod Archive
mod Tests
use best_os.Common.{
  get_or, ◌*◌, ℕ, zero, suc, ◌+◌, ◌-◌, ◌^◌, Bool, true, false, not, ◌&&◌, Option, none, some, List,
  [], ◌∷◌, ◌++◌, ltb, leb, ◌==◌, if◌then◌else◌, bit_and, length, u8, u32, add64, sub64,
}
use best_os.Common.Chain.{◌>>=◌}
use best_os.Mem.{Memory, store, memcpy}
use best_os.Str.{Text, str_eq}
use best_os.Vfs.{VfsNode, Filesystem, tmpfs, devfs, ustar_fs}
use best_os.Vfs.Open.{o_append}

-- `realloc` of liballoc.
pub record Realloc : Type 0 where
  pub new_address : ℕ → ℕ → Memory → ℕ
  pub new_memory : ℕ → ℕ → Memory → Memory

-- `malloc` and `free` of liballoc, where the block lies and what they leave of the memory.
pub record Heap : Type 0 where
  pub block_at : ℕ → Memory → ℕ
  pub after_malloc : ℕ → Memory → Memory
  pub after_free : ℕ → Memory → Memory

-- The `int` -1.
abbrev pub minus_one : ℕ
minus_one = 2 ^ 32 - 1

-- The serial line: what will come in, and what went out.
pub record Line : Type 0 where
  pub input : Text
  pub sent : Text

-- What a handler returns: the `int`, the node, the memory and the line.
pub record Done : Type 0 where
  pub ret : ℕ
  pub node : VfsNode
  pub memory : Memory
  pub line : Line

-- The first read of a tmpfs file brings its content over from the archive, with -1 in the place of
-- the last byte.
unfoldable pub tmpfs_load : VfsNode → Memory → VfsNode × Memory
tmpfs_load node m = if node.init then (node, m) else (
  record node { init = true },
  store (memcpy node.address node.internal_address node.st_size m)
      (sub64 (add64 node.address node.st_size) 1) 0xff,
)

unfoldable pub tmpfs_read : VfsNode → ℕ → ℕ → ℕ → Memory → Line → Done
tmpfs_read node offset count buffer m line =
    let (loaded, w) = tmpfs_load node m in
    if buffer == 0
    then record { ret = minus_one; node = loaded; memory = w; line = line }
    else record {
      ret = u32 count;
      node = record loaded { cursor = add64 loaded.cursor count };
      memory = memcpy buffer (add64 loaded.address offset) count w;
      line = line;
    }

-- `(int)node->cursor >= node->stat.st_size`, for a size that is not negative.
unfoldable pub at_end : VfsNode → Bool
at_end node = ltb (u32 node.cursor) (2 ^ 31) && leb node.st_size (u32 node.cursor)

module _ (r : Realloc) where
  -- `node->address = realloc(node->address, node->stat.st_size + count + 1)`.
  unfoldable pub grow : VfsNode → ℕ → Memory → VfsNode × Memory
  grow node count m =
      let size = add64 (add64 node.st_size count) 1 in
      (
        record node { address = r.new_address node.address size m },
        r.new_memory node.address size m,
      )

  unfoldable pub tmpfs_append : VfsNode → ℕ → ℕ → Memory → Line → Done
  tmpfs_append node count buffer m line =
      let (grown, w) = grow node count m in
      record {
        ret = 0;
        node = record grown { cursor = node.st_size; st_size = add64 node.st_size count };
        memory = memcpy (add64 grown.address node.st_size) buffer count w;
        line = line;
      }

  unfoldable pub tmpfs_overwrite : VfsNode → ℕ → ℕ → Memory → Line → Done
  tmpfs_overwrite node count buffer m line =
      let (grown, w) = if at_end node then grow node count m else (node, m) in
      record {
        ret = u32 count;
        node = record grown {
          cursor = add64 node.cursor count;
          st_size = add64 node.st_size count;
        };
        memory = memcpy (add64 grown.address node.cursor) buffer count w;
        line = line;
      }

  unfoldable pub tmpfs_write : VfsNode → ℕ → ℕ → Memory → Line → Done
  tmpfs_write node count buffer m line =
      if bit_and node.o_mode o_append == 0
      then tmpfs_overwrite node count buffer m line
      else tmpfs_append node count buffer m line

-- "tty"
abbrev pub tty : Text
tty = b't' ∷ b't' ∷ b'y' ∷ []

abbrev pub carriage_return : ℕ
carriage_return = 13

-- The loop of `devfs_read`: the bytes up to a carriage return, each of which is echoed. `none` waits
-- for input for ever.
unfoldable pub read_line : Text → Option (Text × Text)
read_line [] = none
read_line (c ∷ input) =
    let rest = read_line input in
    if c == carriage_return
    then some (c ∷ [], input)
    else (do (typed, left) ← rest; some (c ∷ typed, left))

-- A text put in memory.
unfoldable pub store_text : ℕ → Text → Memory → Memory
store_text a [] m = m
store_text a (c ∷ s) m = store_text (a + 1) s (store m a c)

-- What `devfs_read` leaves in memory: all that was typed is stored in the block `buf` of `count` bytes,
-- -1 behind it, and copied to the buffer, whatever the count. Bytes beyond the block go to whatever
-- lies there.
unfoldable pub copy_line : Heap → ℕ → ℕ → Text → Memory → Memory
copy_line h count buffer typed m =
    let buf = h.block_at count m in
    let filled = store_text buf typed (h.after_malloc count m) in
    let ended = store filled (buf + length typed) 0xff in
    h.after_free buf (memcpy buffer buf (length typed) ended)

unfoldable pub devfs_read : Heap → VfsNode → ℕ → ℕ → ℕ → Memory → Line → Option Done
devfs_read h node offset count buffer m line =
    if not (str_eq node.name tty)
    then some (record { ret = minus_one; node = node; memory = m; line = line })
    else (do
      (typed, left) ← read_line line.input
      some (record {
        ret = u32 (length typed);
        node = node;
        memory = copy_line h count buffer typed m;
        line = record { input = left; sent = line.sent ++ typed ++ 10 ∷ [] };
      }))

-- The bytes from an address.
unfoldable pub bytes_at : ℕ → ℕ → Memory → Text
bytes_at zero a m = []
bytes_at (suc n) a m = m a ∷ bytes_at n (a + 1) m

unfoldable pub devfs_write : VfsNode → ℕ → ℕ → Memory → Line → Done
devfs_write node count buffer m line =
    if not (str_eq node.name tty)
    then record { ret = minus_one; node = node; memory = m; line = line }
    else record {
      ret = u32 count;
      node = record node { cursor = add64 node.cursor count; st_size = add64 node.st_size count };
      memory = m;
      line = record line { sent = line.sent ++ bytes_at count buffer m };
    }

-- `getsize` of the eleven octal digits of an archive header, in 32 bits: the digits left, the weight
-- of the last of them, and the digits.
unfoldable pub getsize_from : ℕ → ℕ → Text → ℕ
getsize_from zero count digits = 0
getsize_from (suc j) count digits =
    let rest = getsize_from j (u32 (count * 8)) digits in
    u32 (u32 (get_or digits j 0 + 2 ^ 32 - b'0') * count + rest)

unfoldable pub getsize : Text → ℕ
getsize digits = getsize_from 11 1 digits

unfoldable pub ustar_read : VfsNode → ℕ → ℕ → ℕ → Memory → Line → Done
ustar_read node offset count buffer m line = record {
  ret = u32 count;
  node = node;
  memory = memcpy buffer (add64 node.address offset) count m;
  line = line;
}

unfoldable pub vfs_read : Heap → Filesystem → VfsNode → ℕ → ℕ → ℕ → Memory → Line → Option Done
vfs_read h tmpfs node offset count buf m line = some (tmpfs_read node offset count buf m line)
vfs_read h devfs node offset count buf m line = devfs_read h node offset count buf m line
vfs_read h ustar_fs node offset count buf m line = some (ustar_read node offset count buf m line)

-- `ustar_fs` has no write handler: the call goes through NULL.
unfoldable pub fs_write : Realloc → Filesystem → VfsNode → ℕ → ℕ → Memory → Line → Option Done
fs_write r tmpfs node count buf m line = some (tmpfs_write r node count buf m line)
fs_write r devfs node count buf m line = some (devfs_write node count buf m line)
fs_write r ustar_fs node count buf m line = none

unfoldable pub vfs_write : Realloc → Filesystem → VfsNode → ℕ → ℕ → Memory → Line → Option Done
vfs_write r fs node count buf m line = do
  d ← fs_write r fs node count buf m line
  some (if d.ret == minus_one then d else record d { ret = u32 count })
