-- ===== src/Fs/Tests.antt =====
-- A tmpfs file of three bytes, and a line typed at the terminal.
use best_os.Common.{
  replicate, ◌+◌, ◌-◌, ◌≡◌, inl, inr, refl, arith, true, [], ◌∷◌, ◌++◌, leb, ltb, ◌&&◌,
  if◌then◌else◌,
}
use best_os.Mem.{Memory}
use best_os.Vfs.{VfsNode, file}
use best_os.Fs.{
  getsize, getsize_from, Realloc, Line, tty, tmpfs_read, tmpfs_append, tmpfs_write, grow,
}
use best_os.Fs.Tmpfs.{Moved, tmpfs_read-tmpfs_write}

-- Every block is moved to 5000.
abbrev mover : Realloc
mover = record {
  new_address = λ p size m. 5000;
  new_memory = λ p size m a. if leb 5000 a && ltb a (5000 + size) then m (p + (a - 5000)) else m a;
}

abbrev node : VfsNode
node = record {
  type = file;
  name = tty;
  parent = 1;
  points_to = 0;
  children = [];
  mountpoint = 7;
  st_size = 3;
  cursor = 0;
  o_mode = 8;
  address = 100;
  internal_address = 0;
  init = true;
}

abbrev memory : Memory
memory a = a

abbrev line : Line
line = record { input = []; sent = [] }

node-Moved : Moved mover 100 3 6 200 2 memory
node-Moved = record {
  kept = λ i h. ground arith;
  spared = λ a lo hi. ground arith;
  ends = omega arith;
}

moved_to : (tmpfs_write mover node 2 200 memory line).node.address ≡ 5000
unfolding tmpfs_write tmpfs_append grow
moved_to = refl

tmpfs_read-tmpfs_write_example :
    (tmpfs_read
        (tmpfs_write mover node 2 200 memory line).node
        3
        2
        300
        (tmpfs_write mover node 2 200 memory line).memory
        line).memory
      (300 + 1)
    ≡ memory (200 + 1)
tmpfs_read-tmpfs_write_example =
    tmpfs_read-tmpfs_write mover node 2 200 300 memory line (λ e. ground arith) refl node-Moved
      (inr (omega arith)) (λ e. ground arith) (omega (arith, moved_to))
      (inl (omega (arith, moved_to))) 1 (omega arith)

-- "00000001750"
thousand : getsize (replicate 7 b'0' ++ b'1' ∷ b'7' ∷ b'5' ∷ b'0' ∷ []) ≡ 1000
unfolding getsize getsize_from
thousand = refl
