-- ===== src/Fs/Tmpfs.antt =====
-- What a tmpfs file holds after a write, and what a read gives.
use best_os.Common.{
  ℕ, ◌+◌, ◌-◌, ◌^◌, ◌≤◌, ◌<◌, ◌≡◌, ◌≢◌, ◌⊎◌, inl, refl, ap, ◌∙◌, arith, true, false, ◌==◌, bit_and,
  add64,
}
use best_os.Mem.{Memory, memcpy}
use best_os.Mem.Laws.{memcpy_lem}
use best_os.Vfs.{VfsNode}
use best_os.Vfs.Open.{o_append}
use best_os.Fs.{Realloc, Line, Done, tmpfs_load, tmpfs_read, grow, tmpfs_append, tmpfs_write}

-- `memcpy` at an address inside the target.
copied_at :
    (to from n i : ℕ) (m : Memory)
    → (to ≤ from) ⊎ (from + n ≤ to)
    → i < n
    → memcpy to from n m (to + i) ≡ m (from + i)
copied_at to from n i m apart h =
    ground (arith, memcpy_lem to from n m (to + i), ap m {x = from + (to + i - to)} {y = from + i})

copied_outside :
    (to from n a : ℕ) (m : Memory)
    → (to ≤ from) ⊎ (from + n ≤ to)
    → (a < to) ⊎ (to + n ≤ a)
    → memcpy to from n m a ≡ m a
copied_outside to from n a m apart out = ground (arith, memcpy_lem to from n m a)

-- A call of `realloc` for the block of `old` bytes at `p`: the first `old` bytes come along, the new
-- block of `size` bytes ends inside the address space, and a block of `n` bytes at `b` is spared.
pub record Moved (r : Realloc) (p old size b n : ℕ) (m : Memory) : Type 0 where
  pub kept : (i : ℕ) → i < old → r.new_memory p size m (r.new_address p size m + i) ≡ m (p + i)
  pub spared : (a : ℕ) → b ≤ a → a < b + n → r.new_memory p size m a ≡ m a
  pub ends : r.new_address p size m + size < 2 ^ 64

-- What a write of `n` bytes from `b` behind the `old` bytes of a file makes of it.
pub record Appended (node : VfsNode) (b n : ℕ) (m : Memory) (d : Done) : Type 0 where
  pub size : d.node.st_size ≡ node.st_size + n
  pub cursor : d.node.cursor ≡ node.st_size
  pub loaded : d.node.init ≡ node.init
  pub kept : (i : ℕ) → i < node.st_size → d.memory (d.node.address + i) ≡ m (node.address + i)
  pub added : (i : ℕ) → i < n → d.memory (d.node.address + (node.st_size + i)) ≡ m (b + i)

-- A write to a tmpfs file that was opened with O_APPEND keeps the bytes of the file and puts those of
-- the buffer behind them, where `realloc` moves the file, leaves the buffer alone and gives a block
-- in which the place for the new bytes does not begin inside the buffer. The size grows by the
-- count, and the cursor is at the old end.
pub tmpfs_write-Appended :
    (r : Realloc) (node : VfsNode) (count buffer : ℕ) (m : Memory) (line : Line)
    → bit_and node.o_mode o_append ≢ 0
    → let size = node.st_size + count + 1 in
      Moved r node.address node.st_size size buffer count m
      → let target = r.new_address node.address size m + node.st_size in
        (target ≤ buffer) ⊎ (buffer + count ≤ target)
        → Appended node buffer count m (tmpfs_write r node count buffer m line)
unfolding tmpfs_write tmpfs_append grow
tmpfs_write-Appended r node count buffer m line append moved apart =
    let appending : (bit_and node.o_mode o_append == 0) ≡ false = ground arith in
    let size = node.st_size + count + 1 in
    let whole : add64 (add64 node.st_size count) 1 ≡ size = omega (arith, moved.ends) in
    let sum : add64 node.st_size count ≡ node.st_size + count = omega (arith, moved.ends) in
    let p = r.new_address node.address size m in
    let w = r.new_memory node.address size m in
    let at : add64 p node.st_size ≡ p + node.st_size = omega (arith, moved.ends) in
    rw (appending, whole, sum, at)
      (record {
        size = refl;
        cursor = refl;
        loaded = refl;
        kept = λ i h.
            copied_outside (p + node.st_size) buffer count (p + i) w apart (inl (omega arith))
            ∙ moved.kept i h;
        added = λ i h.
            ap (memcpy (p + node.st_size) buffer count w) {x = p + (node.st_size + i)}
              {y = p + node.st_size + i} (omega arith)
            ∙ copied_at (p + node.st_size) buffer count i w apart h
            ∙ moved.spared (buffer + i) (omega arith) (omega arith);
      })

-- A read of a loaded file.
pub tmpfs_read-loaded :
    (node : VfsNode) (offset count buffer : ℕ) (m : Memory) (line : Line)
    → node.init ≡ true
    → buffer ≢ 0
    → node.address + offset < 2 ^ 64
    → (buffer ≤ node.address + offset) ⊎ (node.address + offset + count ≤ buffer)
    → (i : ℕ) → i < count
    → (tmpfs_read node offset count buffer m line).memory (buffer + i)
      ≡ m (node.address + offset + i)
unfolding tmpfs_read tmpfs_load
tmpfs_read-loaded node offset count buffer m line loaded ne fits apart i h =
    let there : (buffer == 0) ≡ false = ground arith in
    let from : add64 node.address offset ≡ node.address + offset = omega arith in
    rw (loaded, there, from) (copied_at buffer (node.address + offset) count i m apart h)

-- What was appended to a loaded tmpfs file is read back from its old end, under the conditions on
-- `realloc` and the buffers of the two calls.
pub tmpfs_read-tmpfs_write :
    (r : Realloc) (node : VfsNode) (count buffer target : ℕ) (m : Memory) (line : Line)
    → bit_and node.o_mode o_append ≢ 0
    → node.init ≡ true
    → Moved r node.address node.st_size (node.st_size + count + 1) buffer count m
    → let p = r.new_address node.address (node.st_size + count + 1) m + node.st_size in
      (p ≤ buffer) ⊎ (buffer + count ≤ p)
      → target ≢ 0
      → let d = tmpfs_write r node count buffer m line in
        d.node.address + node.st_size < 2 ^ 64
        → (target ≤ d.node.address + node.st_size)
          ⊎ (d.node.address + node.st_size + count ≤ target)
        → (i : ℕ) → i < count
        → (tmpfs_read d.node node.st_size count target d.memory line).memory (target + i)
          ≡ m (buffer + i)
tmpfs_read-tmpfs_write r node count buffer target m line append loaded moved apart ne fits clear i
      h =
    let a = tmpfs_write-Appended r node count buffer m line append moved apart in
    let d = tmpfs_write r node count buffer m line in
    tmpfs_read-loaded d.node node.st_size count target d.memory line (a.loaded ∙ loaded) ne fits
      clear i h
    ∙ ap d.memory {x = d.node.address + node.st_size + i} {y = d.node.address + (node.st_size + i)}
        (omega arith)
    ∙ a.added i h
