-- ===== src/Sched/Remove.antt =====
-- A process that leaves: what `sched_remove` does to the index.
use best_os.Common.{
  ℕ, suc, ◌+◌, ◌≤◌, ◌-◌, ◌^◌, ◌<◌, ◌≡◌, refl, ap, zero, ◌∙◌, arith, false, some, List, [], ◌∷◌,
  ◌++◌, ◌==◌, length, get_elem?-beyond, u32, u64,
}
use mathlib.Core.List.{append-nil}
use best_os.Lock.{spin_lock, spin_release}
use best_os.Vec.{VecOps, PtrOps, Absent}
use best_os.Sched.Rounds.{ticks, tick_wait, ticks_wait}
use best_os.Sched.{
  Sched, ran, beyond, switch_tick, run_task, switch_task, tick_locked, sched_tick, sched_push,
  sched_remove,
}

-- A switch with the index beyond the vector.
tick_beyond :
    (s : Sched)
    → s.lock ≡ false
    → 0 < length s.processes
    → s.index ≡ length s.processes + 1
    → length s.processes < 2 ^ 31 - 1
    → s.current_tick + 1 ≡ switch_tick
    → sched_tick s ≡ beyond
unfolding sched_tick tick_locked switch_task run_task spin_lock spin_release
tick_beyond s free some_left at few tick =
    let kept : u64 (s.current_tick + 1) ≡ switch_tick = omega arith in
    let nonempty : (length s.processes == 0) ≡ false = ground arith in
    let low : u32 (length s.processes + 1) ≡ length s.processes + 1 = omega arith in
    let ne : (length s.processes + 1 == length s.processes) ≡ false = ground arith in
    rw (
      nonempty,
      free,
      kept,
      at,
      low,
      ne,
      get_elem?-beyond s.processes (length s.processes + 1) (omega arith),
    )

-- The rest of the round, and the switch.
ticks_beyond :
    (n : ℕ) (s : Sched)
    → s.lock ≡ false
    → 0 < length s.processes
    → s.index ≡ length s.processes + 1
    → length s.processes < 2 ^ 31 - 1
    → s.current_tick + suc n ≡ switch_tick
    → ticks (suc n) s ≡ beyond
unfolding ticks
ticks_beyond zero s free some_left at few tick =
    rw (tick_beyond s free some_left at few (omega arith)) refl
ticks_beyond (suc n) s free some_left at few tick = rw (tick_wait s free some_left (omega arith)) (
    ticks_beyond n (record s { current_tick = s.current_tick + 1 }) free some_left at few
      (omega arith))

-- When the process that runs is the last of the vector and removes itself, at any tick of its round,
-- the ticks that are left of the round return it all the same, the index stays one beyond the number
-- of processes that are left, and the switch at the end of the round reads a task from behind the
-- vector. Other processes are left, fewer than an `int` counts, and the lock is free.
pub sched_remove-last :
    (vec : PtrOps) (ps : List ℕ) (p n : ℕ) (s : Sched)
    → s.processes ≡ ps ++ p ∷ []
    → Absent p ps
    → s.current_task ≡ p
    → 0 < length ps
    → length ps < 2 ^ 31 - 1
    → s.index ≡ length ps + 1
    → s.lock ≡ false
    → s.current_tick + suc n ≡ switch_tick
    → (t : Sched) × (sched_remove vec p s ≡ some t)
      × (t.processes ≡ ps)
      × ((m : ℕ) → m ≤ n → (u : Sched) × (ticks m t ≡ ran p u) × (u.index ≡ length u.processes + 1))
      × (ticks (suc n) t ≡ beyond)
unfolding sched_remove spin_lock spin_release
sched_remove-last vec ps p n s last absent runs some_left few at_end free tick =
    let removed : vec.remove (ps ++ p ∷ []) p ≡ ps =
      vec.remove_lem ps [] p absent ∙ append-nil ps in
    let t = record s { processes = ps; lock = false } in
    let waits : (m : ℕ)
        → m ≤ n
        → ticks m t ≡ ran p (record t { current_tick = s.current_tick + m }) =
      λ m h.
        ticks_wait m t refl some_left (omega arith)
        ∙ ap (λ (q : ℕ). ran q (record t { current_tick = s.current_tick + m })) runs in
    (
      t,
      rw (free, last, removed) refl,
      refl,
      λ m h. (record t { current_tick = s.current_tick + m }, waits m h, at_end),
      ticks_beyond n t refl some_left at_end few tick,
    )

-- A process that is pushed is behind all others, and the rest of the state is kept.
pub sched_push_lem :
    (vec : VecOps ℕ) (p : ℕ) (s : Sched)
    → s.lock ≡ false
    → sched_push vec p s ≡ some (record s { processes = s.processes ++ p ∷ []; lock = false })
unfolding sched_push spin_lock spin_release
sched_push_lem vec p s free = rw (free, vec.push_lem s.processes p)
