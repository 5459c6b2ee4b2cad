-- ===== src/Sched/Rounds.antt =====
-- What the timer runs: ticks, and rounds of `SWITCH_TICK` ticks.
use best_os.Common.{
  ℕ, zero, suc, ◌+◌, ◌-◌, ◌*◌, ◌^◌, ◌≤◌, ◌<◌, ◌≡◌, refl, ap, ◌∙◌, arith, false, ltb, leb, ◌==◌,
  if◌then◌else◌, length, get_or, get_elem?-get_or, u32, u64,
}
use best_os.Lock.{spin_lock, spin_release}
use best_os.Sched.{
  Sched, Tick, idle, waits, beyond, ran, switch_tick, run_task, switch_task, tick_locked,
  sched_tick,
}

-- What follows a tick that returns.
abbrev pub on_ran : Tick → (Sched → Tick) → Tick
on_ran idle k = idle
on_ran waits k = waits
on_ran beyond k = beyond
on_ran (ran t s) k = k s

-- The task that `n` ticks leave running.
unfoldable pub ticks : ℕ → Sched → Tick
ticks zero s = ran s.current_task s
ticks (suc n) s = on_ran (sched_tick s) (ticks n)

-- The state of a scheduler that was left alone since its last switch: the lock is free, there are
-- processes, fewer than an `int` counts, and the index is not beyond them.
pub record IsRunning (s : Sched) : Type 0 where
  pub free : s.lock ≡ false
  pub some_process : 0 < length s.processes
  pub few : length s.processes < 2 ^ 31
  pub inside : s.index ≤ length s.processes

-- The process that is next, and the state after a switch to it.
abbrev pub next_index : Sched → ℕ
next_index s = if s.index == length s.processes then 0 else s.index

abbrev pub switched : Sched → Sched
switched s = record s {
  current_tick = 0;
  current_task = get_or s.processes (next_index s) 0;
  index = next_index s + 1;
}

-- A tick before the last of a round.
pub tick_wait :
    (s : Sched)
    → s.lock ≡ false
    → 0 < length s.processes
    → s.current_tick + 1 < switch_tick
    → sched_tick s ≡ ran s.current_task (record s { current_tick = s.current_tick + 1 })
unfolding sched_tick tick_locked spin_lock spin_release
tick_wait s free some_process h =
    let some_left : (length s.processes == 0) ≡ false = ground arith in
    let kept : u64 (s.current_tick + 1) ≡ s.current_tick + 1 = omega arith in
    let before : leb switch_tick (s.current_tick + 1) ≡ false = ground arith in
    rw (some_left, free, kept, before)

-- Ticks that end before the last of a round leave the task running, whatever the index.
pub ticks_wait :
    (n : ℕ) (s : Sched)
    → s.lock ≡ false
    → 0 < length s.processes
    → s.current_tick + n < switch_tick
    → ticks n s ≡ ran s.current_task (record s { current_tick = s.current_tick + n })
unfolding ticks
ticks_wait zero s free some_process h =
    ap (λ (c : ℕ). ran s.current_task (record s { current_tick = c })) {x = s.current_tick}
      {y = s.current_tick + zero} (omega arith)
ticks_wait (suc n) s free some_process h = rw (tick_wait s free some_process (omega arith)) (
    ticks_wait n (record s { current_tick = s.current_tick + 1 }) free some_process (omega arith)
    ∙ ap (λ (c : ℕ). ran s.current_task (record s { current_tick = c }))
        {x = s.current_tick + 1 + n} {y = s.current_tick + suc n} (omega arith))

-- The last tick of a round.
tick_switch :
    (s : Sched)
    → IsRunning s
    → s.current_tick + 1 ≡ switch_tick
    → sched_tick s ≡ ran (get_or s.processes (next_index s) 0) (switched s)
unfolding sched_tick tick_locked switch_task run_task spin_lock spin_release
tick_switch s r h =
    let some_left : (length s.processes == 0) ≡ false = ground (arith, r.some_process) in
    let kept : u64 (s.current_tick + 1) ≡ switch_tick = omega arith in
    let low : u32 s.index ≡ s.index = omega (arith, r.inside, r.few) in
    let fits : next_index s < length s.processes = ground (arith, r.inside, r.some_process) in
    let moved : u64 (next_index s + 1) ≡ next_index s + 1 = omega (arith, r.few) in
    rw (some_left, r.free, kept, low, get_elem?-get_or s.processes (next_index s) 0 fits, moved)

-- The rest of a round.
ticks_left :
    (n : ℕ) (s : Sched)
    → IsRunning s
    → s.current_tick + suc n ≡ switch_tick
    → ticks (suc n) s ≡ ran (get_or s.processes (next_index s) 0) (switched s)
unfolding ticks
ticks_left zero s r h = rw (tick_switch s r (omega arith))
ticks_left (suc n) s r h = rw (tick_wait s r.free r.some_process (omega arith)) (
    ticks_left n (record s { current_tick = s.current_tick + 1 })
      (record { free = r.free; some_process = r.some_process; few = r.few; inside = r.inside })
      (omega arith))

-- `n` rounds after a switch.
unfoldable pub rounds : ℕ → Sched → Tick
rounds zero s = ran s.current_task s
rounds (suc n) s = on_ran (ticks switch_tick s) (rounds n)

-- `p` places on from the index `i` in a ring of `l` places.
abbrev pub position : ℕ → ℕ → ℕ
position l n = if ltb n l then n else n - l

-- The state in which the process at place `p` runs.
abbrev pub running : Sched → ℕ → Sched
running s p = record s { current_tick = 0; current_task = get_or s.processes p 0; index = p + 1 }

running-IsRunning :
    (s : Sched) (p : ℕ) → IsRunning s → p < length s.processes → IsRunning (running s p)
running-IsRunning s p r h = record {
  free = r.free;
  some_process = r.some_process;
  few = r.few;
  inside = omega arith;
}

round_lem :
    (s : Sched)
    → IsRunning s
    → s.current_tick ≡ 0
    → ticks switch_tick s ≡ ran (get_or s.processes (next_index s) 0) (switched s)
round_lem s r h = ticks_left 9 s r (omega arith)

rounds-suc :
    (n : ℕ) (s : Sched)
    → IsRunning s
    → s.current_tick ≡ 0
    → rounds (suc n) s ≡ rounds n (switched s)
unfolding rounds
rounds-suc n s r h = rw (round_lem s r h)

-- The scheduler is fair: from any state that it reaches by a switch, `k + 1` rounds of ten ticks run
-- the process that is `k` places on from the index in the ring of processes, whatever the index, so
-- each process has its turn once in as many rounds as there are processes. `k` and the index
-- together are below twice the number of processes.
pub rounds_lem :
    (k : ℕ) (s : Sched)
    → IsRunning s
    → s.current_tick ≡ 0
    → s.index + k < 2 * length s.processes
    → rounds (suc k) s
      ≡ ran
          (get_or s.processes (position (length s.processes) (s.index + k)) 0)
          (running s (position (length s.processes) (s.index + k)))
unfolding rounds
rounds_lem zero s r h small =
    rounds-suc zero s r h
    ∙ ap (λ (p : ℕ). ran (get_or s.processes p 0) (running s p)) {x = next_index s}
        {y = position (length s.processes) (s.index + zero)} (ground (arith, r.inside))
rounds_lem (suc k) s r h small =
    let fits : next_index s < length s.processes = ground (arith, r.inside, r.some_process) in
    rounds-suc (suc k) s r h
    ∙ rounds_lem k (switched s) (running-IsRunning s (next_index s) r fits) refl
        (ground (arith, r.inside))
    ∙ ap (λ (p : ℕ). ran (get_or s.processes p 0) (running s p))
        {x = position (length s.processes) (next_index s + 1 + k)}
        {y = position (length s.processes) (s.index + suc k)} (ground (arith, r.inside))
