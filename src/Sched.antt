-- ===== src/Sched.antt =====
-- kernel/sched.c: the round-robin scheduler. The vector `processes` is the list of its pointers.
pub mod Rounds
pub mod Remove
pub mod Task
mod Tests
use best_os.Common.{
  ℕ, zero, suc, ◌+◌, ◌-◌, ◌^◌, Bool, true, false, Option, none, some, List, [], ◌∷◌, leb, ◌==◌,
  if◌then◌else◌, length, get_elem?, u32, u64, int_to_u64,
}
use best_os.Common.Chain.{◌>>=◌}
use best_os.Lock.{spin_lock, spin_release}
use best_os.Vec.{VecOps, PtrOps}

abbrev pub switch_tick : ℕ
switch_tick = 10

-- The statics of the file.
pub record Sched : Type 0 where
  pub current_pid : ℕ
  pub current_tick : ℕ
  pub index : ℕ
  pub current_task : ℕ
  pub processes : List ℕ
  pub started : Bool
  pub lock : Bool

-- What a tick comes to: the wait for a process, the wait for the lock, a read of `processes.data`
-- behind the last element, or the task that is returned and the new state.
pub data Tick : Type 0 where
  idle waits beyond : Tick
  ran : ℕ → Sched → Tick

unfoldable pub sched_started : Sched → Bool
sched_started s = s.started

unfoldable pub sched_start : Sched → Sched
sched_start s = record s { started = true }

-- `current_task = processes.data[index++]`.
unfoldable pub run_task : Option ℕ → ℕ → Sched → Tick
run_task none i s = beyond
run_task (some t) i s = ran t (record s {
  current_tick = 0;
  current_task = t;
  index = u64 (i + 1);
  lock = spin_release s.lock;
})

-- The switch to the next task; `(int)index` keeps 32 bits.
unfoldable pub switch_task : Sched → Tick
switch_task s =
    let i = if u32 s.index == length s.processes then 0 else s.index in
    run_task (get_elem? s.processes i) i s

-- `sched_tick` from the lock on.
unfoldable pub tick_locked : Option Bool → Sched → Tick
tick_locked none s = waits
tick_locked (some held) s =
    if leb switch_tick (u64 (s.current_tick + 1))
    then switch_task (record s { lock = held })
    else ran s.current_task
        (record s { current_tick = u64 (s.current_tick + 1); lock = spin_release held })

unfoldable pub sched_tick : Sched → Tick
sched_tick s = if length s.processes == 0 then idle else tick_locked (spin_lock s.lock) s

unfoldable pub sched_init : Sched → Sched
sched_init s = record s { processes = []; current_tick = switch_tick - 1 }

unfoldable pub sched_current_task : Sched → ℕ
sched_current_task s = s.current_task

unfoldable pub sched_get_last_pid : Sched → ℕ
sched_get_last_pid s = u32 s.current_pid

-- The `int` arguments are converted to `size_t`.
unfoldable pub sched_set_tick : ℕ → Sched → Sched
sched_set_tick t s = record s { current_tick = int_to_u64 t }

unfoldable pub sched_set_index : ℕ → Sched → Sched
sched_set_index i s = record s { index = int_to_u64 i }

unfoldable pub sched_push : VecOps ℕ → ℕ → Sched → Option Sched
sched_push vec t s = do
  held ← spin_lock s.lock
  some (record s { processes = vec.push s.processes t; lock = spin_release held })

unfoldable pub sched_remove : PtrOps → ℕ → Sched → Option Sched
sched_remove vec t s = do
  held ← spin_lock s.lock
  some (record s { processes = vec.remove s.processes t; lock = spin_release held })
